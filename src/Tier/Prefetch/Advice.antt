-- ===== src/Tier/Prefetch/Advice.antt =====
-- A prefetch is advice: it evicts nothing, moves no resident expert and never raises.
use sabah_mo_e_accelerator.Base.{
  ℕ, ◌+◌, ◌≡◌, refl, sym, ap, ◌∙◌, subst, inl, inr, ◌⊎◌, true, ◌||◌, List, [], ◌∷◌, none, some, has,
  lookup, length, arith, ℕ_discrete, Bool-cases, ok, All, All-has, has-All, fromkeys, has-fromkeys,
  has-keys, lookup-insert, length-insert, move_to_end, ◌==◌, keys, lookup-has-keys,
}
use sabah_mo_e_accelerator.Tier.Types.{Bank, Pool, SameTotals}
use sabah_mo_e_accelerator.Tier.Streams.Memory.{IsReadable, Loaded, start_copy-Copied}
use sabah_mo_e_accelerator.Tier.Pool.{place}
use sabah_mo_e_accelerator.Tier.Pool.Valid.{IsValid, place-IsValid, touch-IsValid, inflight-IsValid}
use sabah_mo_e_accelerator.Tier.Pool.Evict.{free-Taken}
use sabah_mo_e_accelerator.Tier.Ensure.{State, resident}
use sabah_mo_e_accelerator.Tier.Ensure.Admit.{IsSound, place-Loaded}
use sabah_mo_e_accelerator.Tier.Prefetch.{refresh, enqueued, enqueue, queue, prefetch}

-- What a prefetch of `n` experts leaves.
pub record Advised (bank : Bank) (s s' : State) (n : ℕ) : Type 0 where
  pub sound : IsSound bank s'
  pub same_block : s'.pool.block ≡ s.pool.block
  pub same_size : s'.pool.n_slots ≡ s.pool.n_slots
  pub kept :
      (j t : ℕ)
      → lookup ℕ_discrete j s.pool.slot_of ≡ some t
      → lookup ℕ_discrete j s'.pool.slot_of ≡ some t
  pub grown : length s'.pool.slot_of ≡ length s.pool.slot_of + n
  pub spent : length s'.pool.free_slots + n ≡ length s.pool.free_slots
  pub evictions : s'.shared.tel.evictions ≡ s.shared.tel.evictions
  pub totals : SameTotals s.shared s'.shared

-- One expert that is not resident, put in a free slot.
enqueue-Advised :
    (bank : Bank) (e slot : ℕ) (free : List ℕ) (s : State)
    → IsSound bank s
    → IsReadable bank s.pool.block e
    → lookup ℕ_discrete e s.pool.slot_of ≡ none
    → s.pool.free_slots ≡ slot ∷ free
    → (s' : State) × (enqueue bank e (slot ∷ free) s ≡ ok (some s'))
      × Advised bank s s' 1
      × (s'.shared.tel.prefetch_issued ≡ s.shared.tel.prefetch_issued)
unfolding enqueue enqueued place
enqueue-Advised bank e slot free s sound readable absent q =
    let n = ap length q in
    let p : Pool = record s.pool { free_slots = free } in
    let tk = free-Taken [] s.pool slot free sound.valid q in
    let (sh, ev, copied, c) = start_copy-Copied bank s.pool.block e slot s.shared readable in
    let placed = place-IsValid e slot p tk.valid absent tk.empty tk.unlisted tk.bound in
    (
      enqueued e slot free s (sh, ev),
      rw copied,
      record {
        sound = record {
          valid =
              inflight-IsValid e ev (place e slot p) placed
                (ground (arith, lookup-insert ℕ_discrete e e slot s.pool.slot_of));
          loaded = place-Loaded bank e slot p s.shared sh tk.valid tk.empty c sound.loaded;
        };
        same_block = refl;
        same_size = refl;
        kept = λ j t. ground (arith, lookup-insert ℕ_discrete e j slot s.pool.slot_of);
        grown = omega (arith, length-insert ℕ_discrete e slot s.pool.slot_of absent);
        spent = omega arith;
        evictions = c.evictions;
        totals = c.totals;
      },
      c.issued,
    )

-- A resident expert is at most moved in the recency list.
refresh-Advised :
    (bank : Bank) (e : ℕ) (s : State)
    → IsSound bank s
    → resident e s.pool ≡ true
    → (p : Pool) × (refresh e s.pool ≡ ok p) × Advised bank s (record s { pool = p }) 0
unfolding refresh
refresh-Advised bank e s sound here = elim (Bool-cases (has ℕ_discrete e (keys s.pool.inflight))) [
  | inl flying ↦ (s.pool, rw flying, unchanged s.pool sound.valid refl refl refl refl)
  | inr landed ↦
      let listed : has ℕ_discrete e s.pool.lru ≡ true =
        ground (arith, sound.valid.order e, has-keys ℕ_discrete e s.pool.slot_of) in
      (
        record s.pool { lru = move_to_end ℕ_discrete e s.pool.lru },
        rw (landed, listed),
        unchanged _ (touch-IsValid e s.pool sound.valid listed) refl refl refl refl,
      )
]
  where
    unchanged :
        (p : Pool)
        → IsValid p
        → p.block ≡ s.pool.block
        → p.n_slots ≡ s.pool.n_slots
        → p.slot_of ≡ s.pool.slot_of
        → p.free_slots ≡ s.pool.free_slots
        → Advised bank s (record s { pool = p }) 0
    unchanged p v b n o f = record {
      sound = record {
        valid = v;
        loaded = λ j t h.
            subst (λ k. Loaded bank s.shared.commands k j t) (sym b)
              (sound.loaded j t (sym (ap (lookup ℕ_discrete j) o) ∙ h));
      };
      same_block = b;
      same_size = n;
      kept = λ j t h. ap (lookup ℕ_discrete j) o ∙ h;
      grown = omega (arith, ap length o);
      spent = omega (arith, ap length f);
      evictions = refl;
      totals = (refl, refl, refl);
    }

Advised-trans :
    (bank : Bank) (s t u : State) (m n : ℕ)
    → Advised bank s t m
    → Advised bank t u n
    → Advised bank s u (n + m)
Advised-trans bank s t u m n a b = record {
  sound = b.sound;
  same_block = b.same_block ∙ a.same_block;
  same_size = b.same_size ∙ a.same_size;
  kept = λ j v h. b.kept j v (a.kept j v h);
  grown = omega (arith, a.grown, b.grown);
  spent = omega (arith, a.spent, b.spent);
  evictions = b.evictions ∙ a.evictions;
  totals = omega (arith, a.totals, b.totals);
}

nothing-Advised : (bank : Bank) (s : State) → IsSound bank s → Advised bank s s 0
nothing-Advised bank s sound = record {
  sound = sound;
  same_block = refl;
  same_size = refl;
  kept = λ j t h. h;
  grown = omega arith;
  spent = omega arith;
  evictions = refl;
  totals = (refl, refl, refl);
}

-- The expert is not resident: it takes a free slot, or there is none.
enqueue-cases :
    (bank : Bank) (e : ℕ) (s : State)
    → IsSound bank s
    → IsReadable bank s.pool.block e
    → lookup ℕ_discrete e s.pool.slot_of ≡ none
    → (free : List ℕ) → s.pool.free_slots ≡ free
    → ((enqueue bank e free s ≡ ok none) × (free ≡ []))
      ⊎ ((s' : State) × (enqueue bank e free s ≡ ok (some s'))
          × Advised bank s s' 1
          × (s'.shared.tel.prefetch_issued ≡ s.shared.tel.prefetch_issued))
enqueue-cases bank e s sound readable absent [] q = inl (unfold enqueue in refl, refl)
enqueue-cases bank e s sound readable absent (slot ∷ free) q =
    inr (enqueue-Advised bank e slot free s sound readable absent q)

queue-Advised :
    (bank : Bank) (es : List ℕ) (s : State)
    → IsSound bank s
    → All (λ e. IsReadable bank s.pool.block e) es
    → (s' : State) × (n : ℕ) × (queue bank es s ≡ ok (s', n))
      × Advised bank s s' n
      × (s'.shared.tel.prefetch_issued ≡ s.shared.tel.prefetch_issued)
unfolding queue
queue-Advised bank [] s sound readable = (s, 0, refl, nothing-Advised bank s sound, refl)
queue-Advised bank (e ∷ es) s sound readable = elim (Bool-cases (resident e s.pool)) [
  | inl here ↦
      let (p, moved, a) = refresh-Advised bank e s sound here in
      let (u, n, rest, b, i) =
        queue-Advised bank es (record s { pool = p }) a.sound
          (subst (λ k. All (λ x. IsReadable bank k x) es) (sym a.same_block) readable.1) in
      (
        u,
        n,
        rw (here, queue, moved, rest),
        subst (Advised bank s u) (omega arith)
            (Advised-trans bank s (record s { pool = p }) u 0 n a b),
        i,
      )
  | inr away ↦
      let absent = lookup-has-keys ℕ_discrete e s.pool.slot_of away in
      elim (enqueue-cases bank e s sound readable.0 absent s.pool.free_slots refl) [
        | inl (none_free, q) ↦
            (s, 0, rw (away, queue, none_free), nothing-Advised bank s sound, refl)
        | inr (t, queued, a, j) ↦
            let (u, n, rest, b, i) =
              queue-Advised bank es t a.sound
                (subst (λ k. All (λ x. IsReadable bank k x) es) (sym a.same_block) readable.1) in
            (u, n + 1, rw (away, queue, queued, rest), Advised-trans bank s t u 1 n a b, i ∙ j)
      ]
]

-- In a sound state, a prefetch of experts that the bank can read returns, and leaves a sound state.
-- No resident expert leaves its slot, no eviction, hit, miss or request is counted, the block and
-- the number of slots stay, and the number of queued experts that it returns is what the resident
-- experts grow by, what the free slots shrink by, and what is added to the count of issued
-- prefetches.
pub prefetch-Advised :
    (bank : Bank) (prefetch_slots : ℕ) (es : List ℕ) (s : State)
    → IsSound bank s
    → All (λ e. IsReadable bank s.pool.block e) es
    → (s' : State) × (n : ℕ) × (prefetch bank prefetch_slots es s ≡ ok (s', n))
      × Advised bank s s' n
      × (s'.shared.tel.prefetch_issued ≡ s.shared.tel.prefetch_issued + n)
unfolding prefetch
prefetch-Advised bank prefetch_slots es s sound readable =
    elim (Bool-cases (s.pool.n_slots == 0 || prefetch_slots == 0)) [
      | inl off ↦ (s, 0, rw off, nothing-Advised bank s sound, omega arith)
      | inr on ↦
          let (t, n, queued, a, i) = queue-Advised bank (fromkeys ℕ_discrete es) s sound (
            has-All ℕ_discrete (λ e. IsReadable bank s.pool.block e) (fromkeys ℕ_discrete es)
              λ j h.
                All-has ℕ_discrete (λ e. IsReadable bank s.pool.block e) es readable j
                  (sym (has-fromkeys ℕ_discrete j es) ∙ h)) in
          (
            record t {
              shared = record t.shared {
                tel = record t.shared.tel { prefetch_issued = t.shared.tel.prefetch_issued + n };
              };
            },
            n,
            rw (on, queued),
            record {
              sound = record { valid = a.sound.valid; loaded = a.sound.loaded };
              same_block = a.same_block;
              same_size = a.same_size;
              kept = a.kept;
              grown = a.grown;
              spent = a.spent;
              evictions = a.evictions;
              totals = a.totals;
            },
            omega (arith, i),
          )
    ]
