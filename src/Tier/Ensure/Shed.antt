-- ===== src/Tier/Ensure/Shed.antt =====
-- The third loop of `_ensure_locked`: it evicts old experts down to the soft cap, none of which
-- the request needs.
use sabah_mo_e_accelerator.Base.{
  ℕ, zero, suc, ◌+◌, ◌≤◌, ◌<◌, ◌≡◌, refl, ◌⊎◌, inl, inr, List, none, some, lookup, length, arith,
  ℕ_discrete, length-remove, Bool-cases, ok, ltb, ltb→lt, ltb→ge, ◌∙◌, subst, sym,
}
use sabah_mo_e_accelerator.Tier.Types.{Bank, Pool, Shared, SameTotals}
use sabah_mo_e_accelerator.Tier.Streams.Memory.{Loaded}
use sabah_mo_e_accelerator.Tier.Pool.{unplace, victim}
use sabah_mo_e_accelerator.Tier.Pool.Valid.{IsValid}
use sabah_mo_e_accelerator.Tier.Pool.Evict.{victim-Taken, evict-cases}
use sabah_mo_e_accelerator.Tier.Ensure.{State, shed}
use sabah_mo_e_accelerator.Tier.Ensure.Admit.{IsSound, Keeps, Keeps-trans, usable}

-- An eviction leaves one expert less.
fewer :
    (s : State) (e slot : ℕ)
    → IsValid s.pool
    → lookup ℕ_discrete e s.pool.slot_of ≡ some slot
    → suc (length (unplace e slot s.pool).slot_of) ≡ length s.pool.slot_of
unfolding unplace
fewer s e slot v there = length-remove ℕ_discrete e slot s.pool.slot_of there

module _ (bank : Bank) (protected : List ℕ) (cap : ℕ) where
  -- What the loop leaves: no more experts than the cap, unless all of them are protected; and at
  -- least as many usable slots as the cap, if there were as many.
  pub record Sheds (s s' : State) : Type 0 where
    pub sound : IsSound bank s'
    pub keeps : Keeps protected s.pool s'.pool
    pub room : (m : ℕ) → m ≤ usable s.pool → m ≤ cap → m ≤ usable s'.pool
    pub ended : (length s'.pool.slot_of ≤ cap) ⊎ (victim protected s'.pool.lru ≡ none)
    pub totals : SameTotals s.shared s'.shared

  stops :
      (s : State)
      → IsSound bank s
      → (length s.pool.slot_of ≤ cap) ⊎ (victim protected s.pool.lru ≡ none)
      → Sheds s s
  stops s sound e = record {
    sound = sound;
    keeps = record { same_block = refl; same_size = refl; kept = λ j t h q. q };
    room = λ m h k. h;
    ended = e;
    totals = (refl, refl, refl);
  }

  evicts :
      (s u : State) (e slot : ℕ) (sh : Shared)
      → IsSound bank s
      → victim protected s.pool.lru ≡ some e
      → lookup ℕ_discrete e s.pool.slot_of ≡ some slot
      → sh.commands ≡ s.shared.commands
      → SameTotals s.shared sh
      → cap < length s.pool.slot_of
      → Sheds (record { pool = unplace e slot s.pool; shared = sh }) u
      → Sheds s u
  evicts s u e slot sh sound chosen there same totals more r =
      let tk = victim-Taken protected s.pool e slot sound.valid chosen there in
      let evicted : Pool = unplace e slot s.pool in
      record {
        sound = r.sound;
        keeps =
            Keeps-trans protected s.pool evicted u.pool
              (record {
                same_block = tk.same_block;
                same_size = tk.same_size;
                kept = λ j t h q. tk.kept j h ∙ q;
              })
              r.keeps;
        room = λ m h k. r.room m (omega (arith, tk.room)) k;
        ended = r.ended;
        totals = omega (arith, totals, r.totals);
      }

  evicted-IsSound :
      (s : State) (e slot : ℕ) (sh : Shared)
      → IsSound bank s
      → victim protected s.pool.lru ≡ some e
      → lookup ℕ_discrete e s.pool.slot_of ≡ some slot
      → sh.commands ≡ s.shared.commands
      → IsSound bank (record { pool = unplace e slot s.pool; shared = sh })
  evicted-IsSound s e slot sh sound chosen there same =
      let tk = victim-Taken protected s.pool e slot sound.valid chosen there in
      record {
        valid = tk.valid;
        loaded = λ j t h.
            subst (λ cs. Loaded bank cs (unplace e slot s.pool).block j t) (sym same)
              (subst (λ b. Loaded bank s.shared.commands b j t) (sym tk.same_block)
                (sound.loaded j t (tk.fewer j t h)));
      }

  -- In a sound state whose excess over the cap is at most the fuel, the loop returns a sound state.
  -- Protected experts keep their slots, the block, the number of slots and the totals of requests
  -- stay, no more experts than the cap are left unless all that are left are protected, and a number
  -- of usable slots up to the cap stays usable.
  pub shed-Sheds :
      (fuel : ℕ) (s : State)
      → IsSound bank s
      → length s.pool.slot_of ≤ fuel + cap
      → (s' : State) × (shed fuel cap protected s ≡ ok s') × Sheds s s'
  unfolding shed
  shed-Sheds zero s sound enough = (s, refl, stops s sound (inl (omega arith)))
  shed-Sheds (suc fuel) s sound enough = elim (Bool-cases (ltb cap (length s.pool.slot_of))) [
    | inr few ↦ (s, rw few, stops s sound (inl (ltb→ge _ _ few)))
    | inl many ↦ elim (evict-cases protected s.pool s.shared sound.valid) [
      | inl (raised, blocked) ↦ (s, rw (many, raised), stops s sound (inr blocked))
      | inr (e, slot, sh, evicted, chosen, there, same, totals) ↦
          let tk = victim-Taken protected s.pool e slot sound.valid chosen there in
          let (u, rest, r) =
            shed-Sheds fuel (record { pool = unplace e slot s.pool; shared = sh })
              (evicted-IsSound s e slot sh sound chosen there same)
              (omega (arith, fewer s e slot sound.valid there)) in
          (
            u,
            rw (many, evicted, rest),
            evicts s u e slot sh sound chosen there same totals (ltb→lt _ _ many) r,
          )
    ]
  ]
