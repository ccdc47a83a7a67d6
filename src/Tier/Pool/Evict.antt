-- ===== src/Tier/Pool/Evict.antt =====
-- `_evict`, and the choice of a slot for a miss.
use sabah_mo_e_accelerator.Base.{
  ℕ, suc, ◌+◌, ◌≤◌, ◌<◌, ◌≡◌, ◌≢◌, refl, ◌⊎◌, inl, inr, true, false, List, [], ◌∷◌, Option, none,
  some, has, lookup, keys, length, Distinct, arith, ℕ_discrete, Option-cases, Bool-cases, ok, raise,
  runtime_error, lookup-remove, length-remove, length-le-of_subset, ap, has-keys, length-keys,
}
use sabah_mo_e_accelerator.Tier.Types.{Pool, Shared, SameTotals}
use sabah_mo_e_accelerator.Tier.Streams.{ev_put}
use sabah_mo_e_accelerator.Tier.Pool.{unplace, victim, put_inflight, evict}
use sabah_mo_e_accelerator.Tier.Pool.Valid.{IsValid, unplace-IsValid}

pub victim-some :
    (protected lru : List ℕ) (e : ℕ)
    → victim protected lru ≡ some e
    → (has ℕ_discrete e lru ≡ true) × (has ℕ_discrete e protected ≡ false)
unfolding victim has
victim-some protected [] e h = cc
victim-some protected (x ∷ lru) e h = elim (Bool-cases (has ℕ_discrete x protected)) [
  | inl p ↦ let ih = victim-some protected lru e (rw p at h) in (ground arith, ih.1)
  | inr p ↦ ground arith
]

pub victim-none :
    (protected lru : List ℕ) (j : ℕ)
    → victim protected lru ≡ none
    → has ℕ_discrete j lru ≡ true
    → has ℕ_discrete j protected ≡ true
unfolding victim has
victim-none protected [] j h m = cc
victim-none protected (x ∷ lru) j h m = elim (Bool-cases (has ℕ_discrete x protected)) [
  | inl p ↦ ground (arith, victim-none protected lru j (rw p at h))
  | inr p ↦ ground arith
]

put_inflight-totals : (o : Option ℕ) (s : Shared) → SameTotals s (put_inflight o s)
unfolding put_inflight ev_put
put_inflight-totals none s = (refl, refl, refl)
put_inflight-totals (some ev) s = (refl, refl, refl)

put_inflight-commands : (o : Option ℕ) (s : Shared) → (put_inflight o s).commands ≡ s.commands
unfolding put_inflight
put_inflight-commands none s = refl
put_inflight-commands (some ev) s = refl

-- An eviction takes the victim's slot, or fails because every resident expert is protected.
pub evict-cases :
    (protected : List ℕ) (p : Pool) (s : Shared)
    → IsValid p
    → ((evict protected p s ≡ raise runtime_error) × (victim protected p.lru ≡ none))
      ⊎ ((e slot : ℕ) × (s' : Shared) × (evict protected p s ≡ ok (unplace e slot p, s', slot))
          × (victim protected p.lru ≡ some e)
          × (lookup ℕ_discrete e p.slot_of ≡ some slot)
          × (s'.commands ≡ s.commands)
          × SameTotals s s')
unfolding evict
evict-cases protected p s v = elim (Option-cases (victim protected p.lru)) [
  | inl n ↦ inl (rw (n, evict), n)
  | inr (e, h) ↦
      let there = (victim-some protected p.lru e h).0 in
      elim (Option-cases (lookup ℕ_discrete e p.slot_of)) [
        | inl n ↦ absurd (ground (arith, v.order e))
        | inr (slot, l) ↦
            let s' = put_inflight (lookup ℕ_discrete e p.inflight) s in
            inr (
              e,
              slot,
              record s' { tel = record s'.tel { evictions = s'.tel.evictions + 1 } },
              rw (h, l, evict),
              h,
              l,
              put_inflight-commands _ s,
              put_inflight-totals (lookup ℕ_discrete e p.inflight) s,
            )
      ]
]

-- A pool with at least as many resident experts as are protected, one of which is not resident,
-- has a victim.
pub victim-exists :
    (protected : List ℕ) (e : ℕ) (p : Pool)
    → IsValid p
    → has ℕ_discrete e protected ≡ true
    → lookup ℕ_discrete e p.slot_of ≡ none
    → length protected ≤ length p.lru
    → victim protected p.lru ≢ none
unfolding has
victim-exists protected e p v here absent enough blocked =
    let more =
      length-le-of_subset ℕ_discrete (e ∷ p.lru) protected
        (ground (arith, v.order e), v.distinct_lru)
        (λ j q. ground (arith, victim-none protected p.lru j blocked)) in
    omega arith

-- The recency list has an entry for each resident expert.
pub length-lru : (p : Pool) → IsValid p → length p.lru ≡ length p.slot_of
length-lru p v = omega (
  arith,
  length-keys {0} p.slot_of,
  length-le-of_subset ℕ_discrete p.lru (keys p.slot_of) v.distinct_lru
      (λ j q. ground (arith, v.order j, has-keys ℕ_discrete j p.slot_of)),
  length-le-of_subset ℕ_discrete (keys p.slot_of) p.lru v.distinct_slots
      (λ j q. ground (arith, v.order j, has-keys ℕ_discrete j p.slot_of)),
)

-- What the choice of a slot leaves.
pub record Taken (protected : List ℕ) (p p' : Pool) (slot : ℕ) : Type 0 where
  pub valid : IsValid p'
  pub empty : lookup ℕ_discrete slot p'.expert_of ≡ none
  pub unlisted : has ℕ_discrete slot p'.free_slots ≡ false
  pub bound : slot < p'.n_slots
  pub same_block : p'.block ≡ p.block
  pub same_size : p'.n_slots ≡ p.n_slots
  pub fewer :
      (j t : ℕ) → lookup ℕ_discrete j p'.slot_of ≡ some t → lookup ℕ_discrete j p.slot_of ≡ some t
  pub kept :
      (j : ℕ)
      → has ℕ_discrete j protected ≡ true
      → lookup ℕ_discrete j p'.slot_of ≡ lookup ℕ_discrete j p.slot_of
  pub room : suc (length p'.free_slots + length p'.slot_of) ≡ length p.free_slots + length p.slot_of

-- A free slot.
pub free-Taken :
    (protected : List ℕ) (p : Pool) (slot : ℕ) (free : List ℕ)
    → IsValid p
    → p.free_slots ≡ slot ∷ free
    → Taken protected p (record p { free_slots = free }) slot
unfolding has
free-Taken protected p slot free v e =
    let n = ap length e in
    let d : Distinct ℕ_discrete (slot ∷ free) = rw e at v.distinct_free in
    record {
      valid = record {
        slots = v.slots;
        experts = v.experts;
        order = v.order;
        bounds = v.bounds;
        unused = λ s h. v.unused s (ground arith);
        in_range = λ s h. v.in_range s (ground arith);
        pending = v.pending;
        distinct_free = d.1;
        distinct_slots = v.distinct_slots;
        distinct_experts = v.distinct_experts;
        distinct_lru = v.distinct_lru;
        distinct_inflight = v.distinct_inflight;
      };
      empty = v.unused slot (ground arith);
      unlisted = d.0;
      bound = v.in_range slot (ground arith);
      same_block = refl;
      same_size = refl;
      fewer = λ j t h. h;
      kept = λ j h. refl;
      room = omega arith;
    }

-- The slot of the victim.
pub victim-Taken :
    (protected : List ℕ) (p : Pool) (e slot : ℕ)
    → IsValid p
    → victim protected p.lru ≡ some e
    → lookup ℕ_discrete e p.slot_of ≡ some slot
    → Taken protected p (unplace e slot p) slot
unfolding unplace
victim-Taken protected p e slot v h l =
    let away = (victim-some protected p.lru e h).1 in
    let moved = λ (j : ℕ). lookup-remove ℕ_discrete e j p.slot_of v.distinct_slots in
    record {
      valid = unplace-IsValid e slot p v l;
      empty = ground (arith, lookup-remove ℕ_discrete slot slot p.expert_of v.distinct_experts);
      unlisted = ground (arith, v.unused slot, v.slots e slot l);
      bound = v.bounds e slot l;
      same_block = refl;
      same_size = refl;
      fewer = λ j t. ground (arith, moved j);
      kept = λ j q. ground (arith, moved j);
      room = omega (arith, length-remove ℕ_discrete e slot p.slot_of l);
    }
