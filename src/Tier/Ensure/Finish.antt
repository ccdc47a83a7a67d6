-- ===== src/Tier/Ensure/Finish.antt =====
-- The waits at the end of `_ensure_locked`: they change no slot and no bytes.
use sabah_mo_e_accelerator.Base.{
  ℕ, ◌≡◌, refl, ap, inl, inr, List, [], ◌∷◌, some, leb, lookup, length, arith, ℕ_discrete,
  Bool-cases, ok, ◌∙◌, subst, sym,
}
use sabah_mo_e_accelerator.Tier.Types.{Bank, record_compute, wait_begin, Pool, Shared, SameTotals}
use sabah_mo_e_accelerator.Tier.Streams.{issue, ev_put, wait_all, stall, drain_stalls, stall_ring}
use sabah_mo_e_accelerator.Tier.Streams.Memory.{holds}
use sabah_mo_e_accelerator.Tier.Pool.Valid.{IsValid, state-IsValid}
use sabah_mo_e_accelerator.Tier.Ensure.{State, mark_resident, finish}
use sabah_mo_e_accelerator.Tier.Ensure.Admit.{IsSound, Keeps, usable}
use sabah_mo_e_accelerator.Tier.Ensure.Request.{SameSlots, SameBytes}

wait_all-same :
    (evs : List ℕ) (s : Shared) → SameBytes s (wait_all evs s) × SameTotals s (wait_all evs s)
unfolding wait_all issue ev_put holds
wait_all-same [] s = (λ b slot r. refl, (refl, refl, refl))
wait_all-same (ev ∷ evs) s = wait_all-same evs (ev_put ev (issue _ s))

mark_resident-IsValid :
    (es : List ℕ) (p : Pool)
    → IsValid p
    → IsValid (mark_resident es p) × SameSlots p (mark_resident es p)
unfolding mark_resident
mark_resident-IsValid [] p v =
    (v, record { block = refl; n_slots = refl; slot_of = refl; free_slots = refl })
mark_resident-IsValid (e ∷ es) p v =
    let (w, q) = mark_resident-IsValid es _ (state-IsValid _ p v) in
    (
      w,
      record {
        block = q.block;
        n_slots = q.n_slots;
        slot_of = q.slot_of;
        free_slots = q.free_slots;
      },
    )

pub stall-same :
    (evs : List ℕ) (s : Shared) → SameBytes s (stall evs s) × SameTotals s (stall evs s)
unfolding stall issue drain_stalls holds
stall-same evs s = elim (Bool-cases (leb stall_ring s.stall_pending)) [
  | inl full ↦
      let s0 = drain_stalls s in
      let (b, t) = wait_all-same evs (issue (record_compute (wait_begin s0.stall_i)) s0) in
      rw full (b, t)
  | inr room ↦
      let (b, t) = wait_all-same evs (issue (record_compute (wait_begin s.stall_i)) s) in
      rw room (b, t)
]

-- The waits and the states change no slot.
pub record Finished (s s' : State) : Type 0 where
  pub valid : IsValid s'.pool
  pub same : SameSlots s.pool s'.pool
  pub bytes : SameBytes s.shared s'.shared
  pub totals : SameTotals s.shared s'.shared

pub finish-Finished :
    (misses events : List ℕ) (s : State) → IsValid s.pool → Finished s (finish misses events s)
unfolding finish
finish-Finished [] events s v = record {
  valid = v;
  same = record { block = refl; n_slots = refl; slot_of = refl; free_slots = refl };
  bytes = λ b slot r. refl;
  totals = (refl, refl, refl);
}
finish-Finished (e ∷ es) events s v =
    let (w, q) = mark_resident-IsValid (e ∷ es) s.pool v in
    let (b, t) = stall-same events s.shared in record { valid = w; same = q; bytes = b; totals = t }

-- Bytes stay where they are while slots and commands to them do.
pub IsSound-same :
    (bank : Bank) (s s' : State)
    → IsSound bank s
    → IsValid s'.pool
    → SameSlots s.pool s'.pool
    → SameBytes s.shared s'.shared
    → IsSound bank s'
IsSound-same bank s s' sound v q bytes = record {
  valid = v;
  loaded = λ e slot h r.
      let h' = subst (λ d. lookup ℕ_discrete e d ≡ some slot) q.slot_of h in
      let (x, source, held) = sound.loaded e slot h' r in
      (
        x,
        subst (λ b. bank.slice b e r ≡ ok x) (sym q.block) source,
        subst (λ b. holds s'.shared.commands b slot r ≡ some x) (sym q.block)
            (bytes s.pool.block slot r ∙ held),
      );
}

pub SameSlots-pool :
    (protected : List ℕ) (p q r : Pool) → SameSlots p q → r ≡ q → Keeps protected p r
SameSlots-pool protected p q r m e = record {
  same_block = ap (λ (x : Pool). x.block) e ∙ m.block;
  same_size = ap (λ (x : Pool). x.n_slots) e ∙ m.n_slots;
  kept = λ j t h l.
      ap (λ (x : Pool). lookup ℕ_discrete j x.slot_of) e ∙ ap (lookup ℕ_discrete j) m.slot_of ∙ l;
}

pub SameSlots-usable : (p q : Pool) → SameSlots p q → usable q ≡ usable p
SameSlots-usable p q m = omega (arith, ap length m.slot_of, ap length m.free_slots)
