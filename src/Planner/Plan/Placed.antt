-- ===== src/Planner/Plan/Placed.antt =====
-- The capacity of the devices and of the RAM in a plan, and the class that follows.
use sabah_mo_e_accelerator.Base.{
  ℕ, ◌+◌, ◌≤◌, ◌<◌, min, ◌≡◌, refl, ◌⊎◌, inl, inr, Bool, true, false, not, ◌&&◌, List, [], ◌∷◌, leb,
  ltb, ◌==◌, if◌then◌else◌, ok, Defined, arith, Bool-cases, All,
}
use sabah_mo_e_accelerator.Planner.Types.{
  Scalar, Laws, no_gpus, quot, Model, Gpu, Hardware, DevicePlan, ExecutionPlan, full_gpu,
  gpu_hot_tier, cpu_expert, storage_backed, reference,
}
use sabah_mo_e_accelerator.Planner.Rates.{lru_curve, static_curve}
use sabah_mo_e_accelerator.Planner.Plan.Capacity.{
  kv_bytes, device_plan, device_plans, usable_total, warm_budget, place,
}
use sabah_mo_e_accelerator.Planner.Plan.Timing.{cpu_bandwidth}
use sabah_mo_e_accelerator.Planner.Plan.Class.{Choice, hot_rate, first_choice, demote, choose}
use sabah_mo_e_accelerator.Planner.Plan.Divisors.{nat-Defined, interp_hit-Defined}

-- A device has no capacity for experts, or it holds them with the fixed path and the cache.
abbrev pub Fits : DevicePlan → Type 0
Fits d =
    (d.expert_capacity ≡ 0)
    ⊎ (d.fixed_bytes + d.kv_workspace_bytes + d.expert_capacity ≡ d.vram_usable)

device_plans-Fits :
    {S : Scalar} (fixed kvws : ℕ) (gs : List (Gpu S)) → All Fits (device_plans fixed kvws gs)
unfolding device_plans device_plan
device_plans-Fits fixed kvws [] = tt
device_plans-Fits fixed kvws (g ∷ gs) = (
  elim (Bool-cases (leb (fixed + kvws) g.vram_usable)) [
    | inl enough ↦ inr (ground arith)
    | inr starved ↦ inl (ground arith)
  ],
  device_plans-Fits fixed kvws gs,
)

warm_budget-reserved :
    (ram bank : ℕ) → (warm_budget ram bank ≡ 0) ⊎ (warm_budget ram bank + 2147483648 ≤ ram)
unfolding warm_budget
warm_budget-reserved ram bank = elim (Bool-cases (leb bank ram)) [
  | inl held ↦ inl (ground arith)
  | inr too_large ↦ elim (Bool-cases (leb 2147483648 ram)) [
    | inl some_left ↦ inr (ground arith)
    | inr none_left ↦ inl (ground arith)
  ]
]

-- There are no devices, or they are those of the machine, in its order.
abbrev pub Listed : {S : Scalar} → Model → List (Gpu S) → List DevicePlan → Type 0
Listed model gs ds = (ds ≡ []) ⊎ ((kvws : ℕ) × (ds ≡ device_plans model.fixed_bytes kvws gs))

-- What the first stage settles.
pub record Placed {S : Scalar} (model : Model) (hw : Hardware S) (q : ExecutionPlan S)
    : Type 0 where
  pub listed : Listed model hw.gpus q.devices
  pub fits : All Fits q.devices
  pub capped : (model.expert_bank_bytes ≡ 0) ⊎ (q.expert_capacity_total ≤ model.expert_bank_bytes)
  pub reachable : q.expert_capacity_total ≤ usable_total q.devices
  pub resident : q.ram_bank_resident ≡ leb model.expert_bank_bytes hw.ram_usable
  pub reserved : (q.warm_bytes ≡ 0) ⊎ (q.warm_bytes + 2147483648 ≤ hw.ram_usable)

module _ (S : Scalar) (laws : Laws S) (model : Model) (hw : Hardware S) where
  frac-Defined :
      (total bank : ℕ)
      → Defined (if bank == 0 then ok (S.nat 0) else quot S (S.nat total) (S.nat bank))
  frac-Defined total bank = elim (Bool-cases (bank == 0)) [
    | inl z ↦ rw z (S.nat 0, refl)
    | inr z ↦ rw z (nat-Defined S laws _ bank (ground arith))
  ]

  pub place-Placed :
      (context concurrency : ℕ) (p : ExecutionPlan S)
      → (q : ExecutionPlan S) × (place S model hw context concurrency p ≡ ok q)
        × Placed model hw q
        × (q.recommended ≡ p.recommended)
  unfolding place
  place-Placed context concurrency p =
      let bank = model.expert_bank_bytes in
      let devices = device_plans model.fixed_bytes (kv_bytes model context concurrency) hw.gpus in
      let total = if bank == 0 then usable_total devices else min (usable_total devices) bank in
      let (frac, e) = frac-Defined total bank in
      rw e (
        _,
        refl,
        record {
          listed = inr (kv_bytes model context concurrency, refl);
          fits = device_plans-Fits model.fixed_bytes (kv_bytes model context concurrency) hw.gpus;
          capped = elim (Bool-cases (bank == 0)) [
            | inl z ↦ inl (ground arith)
            | inr z ↦ inr (ground arith)
          ];
          reachable = ground arith;
          resident = refl;
          reserved = warm_budget-reserved hw.ram_usable bank;
        },
        refl,
      )

  -- What the choice of a class rests on.
  abbrev pub Chosen : ExecutionPlan S → Choice S → Type 0
  Chosen p Choice.no_way = Unit
  Chosen p (Choice.way full_gpu hit floor) =
      (no_gpus hw.gpus ≡ false) × (model.expert_bank_bytes ≤ usable_total p.devices)
  Chosen p (Choice.way gpu_hot_tier hit floor) =
      (no_gpus hw.gpus ≡ false) × (0 < usable_total p.devices) × (p.ram_bank_resident ≡ true)
  Chosen p (Choice.way cpu_expert hit floor) = p.ram_bank_resident ≡ true
  Chosen p (Choice.way storage_backed hit floor) = p.ram_bank_resident ≡ false
  Chosen p (Choice.way reference hit floor) = ⊥

  -- The same before the RAM is asked.
  abbrev First : ExecutionPlan S → Choice S → Type 0
  First p Choice.no_way = Unit
  First p (Choice.way full_gpu hit floor) =
      (no_gpus hw.gpus ≡ false) × (model.expert_bank_bytes ≤ usable_total p.devices)
  First p (Choice.way gpu_hot_tier hit floor) =
      (no_gpus hw.gpus ≡ false) × (0 < usable_total p.devices)
  First p (Choice.way cpu_expert hit floor) = Unit
  First p (Choice.way storage_backed hit floor) = ⊥
  First p (Choice.way reference hit floor) = ⊥

  first_choice-First :
      (specialised allow_cpu : Bool) (p : ExecutionPlan S)
      → (c : Choice S) × (first_choice S model hw specialised allow_cpu p ≡ ok c) × First p c
  unfolding first_choice
  first_choice-First specialised allow_cpu p =
      let usable = usable_total p.devices in
      let (cap, e1) = nat-Defined S laws (S.nat usable) 1000000000 (omega arith) in
      let (base, e2) = interp_hit-Defined S laws lru_curve cap refl in
      let (floor, e3) = interp_hit-Defined S laws static_curve cap refl in
      elim (Bool-cases (leb model.expert_bank_bytes usable && not (no_gpus hw.gpus))) [
        | inl full ↦
            rw full (Choice.way full_gpu (S.nat 1) (S.nat 0), refl, (ground arith, ground arith))
        | inr not_full ↦ elim (Bool-cases (not (no_gpus hw.gpus) && ltb 0 usable)) [
          | inl hot ↦
              rw (not_full, hot, e1, e2, e3)
                (
                  Choice.way gpu_hot_tier (hot_rate S specialised base) floor,
                  refl,
                  (ground arith, ground arith),
                )
          | inr not_hot ↦ elim (Bool-cases (allow_cpu && S.lt (S.nat 0) (cpu_bandwidth S hw))) [
            | inl cpu ↦
                rw (not_full, not_hot, cpu)
                  (
                    Choice.way cpu_expert (if p.ram_bank_resident then S.nat 1 else S.nat 0)
                        (S.nat 0),
                    refl,
                    tt,
                  )
            | inr no_cpu ↦ rw (not_full, not_hot, no_cpu) (Choice.no_way, refl, tt)
          ]
        ]
      ]

  demote-Chosen :
      (p : ExecutionPlan S) (resident : Bool) (c : Choice S)
      → p.ram_bank_resident ≡ resident
      → First p c
      → Chosen p (demote resident c)
  unfolding demote
  demote-Chosen p true Choice.no_way e f = tt
  demote-Chosen p false Choice.no_way e f = tt
  demote-Chosen p true (Choice.way full_gpu hit floor) e f = f
  demote-Chosen p true (Choice.way gpu_hot_tier hit floor) e f = (f.0, f.1, e)
  demote-Chosen p true (Choice.way cpu_expert hit floor) e f = e
  demote-Chosen p true (Choice.way storage_backed hit floor) e f = absurd f
  demote-Chosen p true (Choice.way reference hit floor) e f = absurd f
  demote-Chosen p false (Choice.way full_gpu hit floor) e f = f
  demote-Chosen p false (Choice.way gpu_hot_tier hit floor) e f = e
  demote-Chosen p false (Choice.way cpu_expert hit floor) e f = e
  demote-Chosen p false (Choice.way storage_backed hit floor) e f = absurd f
  demote-Chosen p false (Choice.way reference hit floor) e f = absurd f

  pub choose-Chosen :
      (specialised allow_cpu : Bool) (p : ExecutionPlan S)
      → (c : Choice S) × (choose S model hw specialised allow_cpu p ≡ ok c) × Chosen p c
  unfolding choose
  choose-Chosen specialised allow_cpu p =
      let (c, e, f) = first_choice-First specialised allow_cpu p in
      (demote p.ram_bank_resident c, rw e refl, demote-Chosen p p.ram_bank_resident c refl f)
