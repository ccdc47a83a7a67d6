-- ===== src/Tier/Ensure/Errors.antt =====
-- When `HotTier.ensure` raises.
use sabah_mo_e_accelerator.Base.{
  ℕ, ◌≤◌, ◌<◌, ◌≡◌, ◌⊎◌, inl, inr, List, length, fromkeys, ℕ_discrete, ok, raise, runtime_error,
  arith, All, Bool-cases, ltb, ltb→lt, ltb→ge, ◌==◌, ==→eq, ==→ne,
}
use sabah_mo_e_accelerator.Tier.Types.{Bank}
use sabah_mo_e_accelerator.Tier.Streams.Memory.{IsReadable}
use sabah_mo_e_accelerator.Tier.Ensure.{State, ensure}
use sabah_mo_e_accelerator.Tier.Ensure.Admit.{IsSound, usable}
use sabah_mo_e_accelerator.Tier.Ensure.Exact.{Served, ensure-Served}

-- In a sound state all of whose slots are usable, for experts that the bank can read, `ensure`
-- either serves the request, and then there is a slot and the distinct experts are no more than the
-- slots, or raises `RuntimeError`, and then there is no slot or the distinct experts are more.
pub ensure-outcome :
    (bank : Bank) (prefetch_slots : ℕ) (want : List ℕ) (s : State)
    → IsSound bank s
    → All (λ e. IsReadable bank s.pool.block e) want
    → s.pool.n_slots ≤ usable s.pool
    → ((s' : State) × (slots : List ℕ) × (ensure bank prefetch_slots want s ≡ ok (s', slots))
        × Served bank prefetch_slots want s s' slots
        × (0 < s.pool.n_slots)
        × (length (fromkeys ℕ_discrete want) ≤ s.pool.n_slots))
      ⊎ ((ensure bank prefetch_slots want s ≡ raise runtime_error)
          × ((s.pool.n_slots ≡ 0) ⊎ (s.pool.n_slots < length (fromkeys ℕ_discrete want))))
unfolding ensure
ensure-outcome bank prefetch_slots want s sound readable whole =
    elim (Bool-cases (s.pool.n_slots == 0)) [
      | inl empty ↦ inr (rw (empty, ensure), inl (==→eq _ _ empty))
      | inr some_slots ↦
          elim (Bool-cases (ltb s.pool.n_slots (length (fromkeys ℕ_discrete want)))) [
            | inl many ↦ inr (rw (some_slots, many, ensure), inr (ltb→lt _ _ many))
            | inr few ↦
                let n = ltb→ge _ _ few in
                let positive = ==→ne _ _ some_slots in
                let (u, slots, served, r) =
                  ensure-Served bank prefetch_slots want s sound readable (omega arith)
                    (omega arith) (omega arith) in
                inl (u, slots, served, r, omega arith, omega arith)
          ]
    ]
