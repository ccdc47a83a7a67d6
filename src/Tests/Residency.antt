-- ===== src/Tests/Residency.antt =====
-- Three tensors in a budget of ten bytes.
use sabah_mo_e_accelerator.Base.{
  ◌+◌, ◌≢◌, ok, leb, Distinct, slice, insert, arith, if◌then◌else◌, ℕ, ◌≤◌, ◌≡◌, refl, List, [],
  ◌∷◌, some, All, ℕ_discrete, has,
}
use sabah_mo_e_accelerator.Residency.{Fixed, tensors, plan, left_out}
use sabah_mo_e_accelerator.Residency.Load.{
  Resident, empty, Allocation, granted, out_of_memory, failed, load,
}
use sabah_mo_e_accelerator.Residency.Loaded.{names_of, Stored, Settles, load-Loaded}
use sabah_mo_e_accelerator.Residency.Budget.{Settled, plan-Settled}

abbrev fixed : List (Fixed ℕ)
fixed =
    record { name = 1; shard = 0; offset = 0; bytes = 3 }
    ∷ record { name = 2; shard = 0; offset = 3; bytes = 6 }
    ∷ record { name = 3; shard = 0; offset = 9; bytes = 5 }
    ∷ []

pinned : plan (some 10) fixed ≡ (2 ∷ 1 ∷ [], 9)
unfolding plan
pinned = refl

others : left_out ℕ_discrete (2 ∷ 1 ∷ []) (tensors fixed) ≡ 3 ∷ []
unfolding left_out tensors ℕ_discrete has
others = refl

plan-Settled_example :
    ((plan (some 10) fixed).1 ≤ 10)
    × All (Settled ℕ_discrete 10 (plan (some 10) fixed)) (tensors fixed)
plan-Settled_example = plan-Settled ℕ_discrete 10 fixed

-- Fourteen bytes: the third tensor is left out by the budget, and the first by the device.
abbrev shards : List (List ℕ)
shards = (1 ∷ 2 ∷ 3 ∷ 4 ∷ 5 ∷ 6 ∷ 7 ∷ 8 ∷ 9 ∷ 10 ∷ 11 ∷ 12 ∷ 13 ∷ 14 ∷ []) ∷ []

abbrev small_device : Resident ℕ → Fixed ℕ → Allocation
small_device r t = if leb (r.resident_bytes + t.bytes) 8 then granted else out_of_memory

load_run :
    load ℕ_discrete small_device shards (some 10) fixed empty
    ≡ ok (record {
      held = (2, 4 ∷ 5 ∷ 6 ∷ 7 ∷ 8 ∷ 9 ∷ []) ∷ [];
      missing = 3 ∷ 1 ∷ [];
      resident_bytes = 6;
    })
unfolding load plan slice ℕ_discrete has insert
load_run = refl

three_names : Distinct ℕ_discrete (names_of (tensors fixed))
unfolding tensors has ℕ_discrete
three_names = (refl, (refl, (refl, tt)))

All-Stored : All (Stored shards) (tensors fixed)
unfolding tensors
All-Stored = ((_, refl, omega arith), ((_, refl, omega arith), ((_, refl, omega arith), tt)))

no_failure : (r : Resident ℕ) (t : Fixed ℕ) → small_device r t ≢ failed
no_failure r t e = ground arith

load-Loaded_example :
    (r : Resident ℕ) × (load ℕ_discrete small_device shards (some 10) fixed empty ≡ ok r)
    × All (Settles ℕ_discrete shards r) (tensors fixed)
    × (r.resident_bytes ≤ (plan (some 10) fixed).1)
    × (r.resident_bytes ≤ 10)
load-Loaded_example =
    load-Loaded ℕ_discrete shards small_device no_failure 10 fixed three_names All-Stored
