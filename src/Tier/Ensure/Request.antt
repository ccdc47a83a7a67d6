-- ===== src/Tier/Ensure/Request.antt =====
-- The first loop of `_ensure_locked`: it counts hits and misses, lands the prefetched experts and
-- moves no bytes.
use sabah_mo_e_accelerator.Base.{
  ℕ, suc, ◌+◌, ◌≡◌, refl, ap, ◌∙◌, inl, inr, true, not, ◌&&◌, List, [], ◌∷◌, Option, none, some,
  has, lookup, length, arith, ℕ_discrete, is_some, Bool-cases, ok, has-keys, lookup-remove,
  move_to_end,
}
use sabah_mo_e_accelerator.Tier.Types.{Role, Pool, Shared, update_counts}
use sabah_mo_e_accelerator.Tier.Streams.{issue, ev_put}
use sabah_mo_e_accelerator.Tier.Streams.Memory.{holds}
use sabah_mo_e_accelerator.Tier.Pool.Valid.{IsValid, touch-IsValid, land-IsValid}
use sabah_mo_e_accelerator.Tier.Ensure.{
  State, count, land, count_hit, count_miss, hit, resident, request,
}

-- The pool has the same experts in the same slots.
pub record SameSlots (p p' : Pool) : Type 0 where
  pub block : p'.block ≡ p.block
  pub n_slots : p'.n_slots ≡ p.n_slots
  pub slot_of : p'.slot_of ≡ p.slot_of
  pub free_slots : p'.free_slots ≡ p.free_slots

-- No command of the device has changed a slot.
abbrev pub SameBytes : Shared → Shared → Type 0
SameBytes s s' = (b slot : ℕ) (r : Role) → holds s'.commands b slot r ≡ holds s.commands b slot r

-- What the landing of a prefetched expert leaves.
record Landed (e : ℕ) (s s' : State) : Type 0 where
  valid : IsValid s'.pool
  same : SameSlots s.pool s'.pool
  lru : s'.pool.lru ≡ s.pool.lru
  bytes : SameBytes s.shared s'.shared
  hits : s'.shared.tel.hits ≡ s.shared.tel.hits
  misses : s'.shared.tel.misses ≡ s.shared.tel.misses
  requests : s'.shared.tel.requests ≡ s.shared.tel.requests
  landed : lookup ℕ_discrete e s'.pool.inflight ≡ none

land-Landed :
    (e : ℕ) (o : Option ℕ) (s : State)
    → IsValid s.pool
    → lookup ℕ_discrete e s.pool.inflight ≡ o
    → Landed e s (land e o s)
unfolding land issue ev_put holds
land-Landed e none s v h = record {
  valid = v;
  same = record { block = refl; n_slots = refl; slot_of = refl; free_slots = refl };
  lru = refl;
  bytes = λ b slot r. refl;
  hits = refl;
  misses = refl;
  requests = refl;
  landed = h;
}
land-Landed e (some ev) s v h = record {
  valid = land-IsValid e _ s.pool v;
  same = record { block = refl; n_slots = refl; slot_of = refl; free_slots = refl };
  lru = refl;
  bytes = λ b slot r. refl;
  hits = refl;
  misses = refl;
  requests = refl;
  landed = ground (arith, lookup-remove ℕ_discrete e e s.pool.inflight v.distinct_inflight);
}

-- What a hit leaves.
record Hit (e : ℕ) (s s' : State) : Type 0 where
  valid : IsValid s'.pool
  same : SameSlots s.pool s'.pool
  bytes : SameBytes s.shared s'.shared
  hits : s'.shared.tel.hits ≡ suc s.shared.tel.hits
  misses : s'.shared.tel.misses ≡ s.shared.tel.misses
  requests : s'.shared.tel.requests ≡ s.shared.tel.requests

hit-Hit :
    (e : ℕ) (s : State)
    → IsValid s.pool
    → resident e s.pool ≡ true
    → (s' : State) × (hit e s ≡ ok s') × Hit e s s'
unfolding hit count_hit update_counts
hit-Hit e s v here =
    let t = land e (lookup ℕ_discrete e s.pool.inflight) s in
    let l = land-Landed e (lookup ℕ_discrete e s.pool.inflight) s v refl in
    let listed : has ℕ_discrete e t.pool.lru ≡ true =
      ap (has ℕ_discrete e) l.lru
      ∙ ground (arith, v.order e, has-keys ℕ_discrete e s.pool.slot_of) in
    (
      record {
        pool = record t.pool { lru = move_to_end ℕ_discrete e t.pool.lru };
        shared = count (count_hit s.pool.block) t.shared;
      },
      rw listed,
      record {
        valid = touch-IsValid e t.pool l.valid listed;
        same = record {
          block = l.same.block;
          n_slots = l.same.n_slots;
          slot_of = l.same.slot_of;
          free_slots = l.same.free_slots;
        };
        bytes = l.bytes;
        hits = omega (arith, l.hits);
        misses = l.misses;
        requests = l.requests;
      },
    )

-- What the loop leaves: the same experts in the same slots, with a hit counted for each of them
-- that was asked for, and a miss for each expert that was not resident.
pub record Requested (want : List ℕ) (s s' : State) (misses : List ℕ) : Type 0 where
  pub valid : IsValid s'.pool
  pub same : SameSlots s.pool s'.pool
  pub bytes : SameBytes s.shared s'.shared
  pub missing :
      (j : ℕ)
      → has ℕ_discrete j misses
        ≡ (has ℕ_discrete j want && not (is_some (lookup ℕ_discrete j s.pool.slot_of)))
  pub total :
      s'.shared.tel.hits + s'.shared.tel.misses
      ≡ s.shared.tel.hits + s.shared.tel.misses + length want
  pub missed : s'.shared.tel.misses ≡ s.shared.tel.misses + length misses
  pub requests : s'.shared.tel.requests ≡ s.shared.tel.requests

pub request-Requested :
    (want : List ℕ) (s : State)
    → IsValid s.pool
    → (s' : State) × (misses : List ℕ) × (request want s ≡ ok (s', misses))
      × Requested want s s' misses
unfolding request has count_miss update_counts
request-Requested [] s v = (
  s,
  [],
  refl,
  record {
    valid = v;
    same = record { block = refl; n_slots = refl; slot_of = refl; free_slots = refl };
    bytes = λ b slot r. refl;
    missing = λ j. refl;
    total = omega arith;
    missed = omega arith;
    requests = refl;
  },
)
request-Requested (e ∷ want) s v = elim (Bool-cases (resident e s.pool)) [
  | inl here ↦
      let (t, hit_ok, h) = hit-Hit e s v here in
      let (u, misses, rest, q) = request-Requested want t h.valid in
      (
        u,
        misses,
        rw (here, request, hit_ok, rest),
        record {
          valid = q.valid;
          same = record {
            block = q.same.block ∙ h.same.block;
            n_slots = q.same.n_slots ∙ h.same.n_slots;
            slot_of = q.same.slot_of ∙ h.same.slot_of;
            free_slots = q.same.free_slots ∙ h.same.free_slots;
          };
          bytes = λ b slot r. q.bytes b slot r ∙ h.bytes b slot r;
          missing = λ j. ground (
            arith,
            q.missing j,
            h.same.slot_of,
            has-keys ℕ_discrete e s.pool.slot_of,
            has-keys ℕ_discrete j s.pool.slot_of,
          );
          total = omega (arith, q.total, h.hits, h.misses);
          missed = omega (arith, q.missed, h.misses);
          requests = q.requests ∙ h.requests;
        },
      )
  | inr away ↦
      let t = record s { shared = count (count_miss s.pool.block) s.shared } in
      let (u, misses, rest, q) = request-Requested want t v in
      (
        u,
        e ∷ misses,
        rw (away, request, rest),
        record {
          valid = q.valid;
          same = q.same;
          bytes = q.bytes;
          missing = λ j. ground (
            arith,
            q.missing j,
            has-keys ℕ_discrete e s.pool.slot_of,
            has-keys ℕ_discrete j s.pool.slot_of,
          );
          total = omega (arith, q.total);
          missed = omega (arith, q.missed);
          requests = q.requests;
        },
      )
]
