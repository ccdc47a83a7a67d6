-- ===== src/Planner/Plan/Capacity.antt =====
-- What each device and the RAM can hold.
use sabah_mo_e_accelerator.Base.{
  ℕ, ◌+◌, ◌-◌, ◌*◌, ◌/◌, max, min, true, List, [], ◌∷◌, ◌++◌, length, leb, ◌==◌, if◌then◌else◌,
  Result, ok, ◌>>=◌,
}
use sabah_mo_e_accelerator.Planner.Types.{
  Scalar, quot, Model, Gpu, Hardware, DevicePlan, ExecutionPlan, Note, starved, bank_off_ram,
  warm_pinned, warm_too_small,
}
use sabah_mo_e_accelerator.Planner.Warm.{select_warm_blocks}

-- `_kv_bytes`: the literals are `192 << 20` and `512 << 20`.
unfoldable pub kv_bytes : Model → ℕ → ℕ → ℕ
kv_bytes model context concurrency =
    let kv_blocks = max 1 (model.n_blocks / 4) in
    let per_tok = kv_blocks * 2 * 256 * 2 * 2 in
    per_tok * context * max 1 concurrency + 201326592 + 536870912

-- The plan of a device: its capacity is what the fixed path and the cache leave.
unfoldable pub device_plan : {S : Scalar} → ℕ → ℕ → Gpu S → DevicePlan
device_plan fixed kvws g = record {
  index = g.index;
  vram_usable = g.vram_usable;
  fixed_bytes = fixed;
  kv_workspace_bytes = kvws;
  expert_capacity = g.vram_usable - fixed - kvws;
}

unfoldable pub device_plans : {S : Scalar} → ℕ → ℕ → List (Gpu S) → List DevicePlan
unfolding device_plan
device_plans fixed kvws [] = []
device_plans fixed kvws (g ∷ gs) = device_plan fixed kvws g ∷ device_plans fixed kvws gs

-- `usable_total`
unfoldable pub usable_total : List DevicePlan → ℕ
usable_total [] = 0
usable_total (d ∷ ds) = d.expert_capacity + usable_total ds

unfoldable pub starved_devices : List DevicePlan → List ℕ
starved_devices [] = []
starved_devices (d ∷ ds) =
    let rest = starved_devices ds in if d.expert_capacity == 0 then d.index ∷ rest else rest

abbrev pub starved_note : List ℕ → List Note
starved_note [] = []
starved_note (i ∷ is) = starved (i ∷ is) ∷ []

abbrev pub warm_note : List ℕ → ℕ → List Note
warm_note (b ∷ bs) warm_bytes = warm_pinned (length (b ∷ bs)) ∷ []
warm_note [] warm_bytes = if warm_bytes == 0 then [] else warm_too_small ∷ []

-- `p.warm_bytes`: what the RAM has beside `2 << 30` for the system, when the bank does not fit it.
unfoldable pub warm_budget : ℕ → ℕ → ℕ
warm_budget ram_usable bank = if leb bank ram_usable then 0 else min (ram_usable - 2147483648) bank

-- The stages before the class is chosen.
unfoldable pub place :
    (S : Scalar) → Model → Hardware S → ℕ → ℕ → ExecutionPlan S → Result (ExecutionPlan S)
unfolding quot kv_bytes device_plans usable_total starved_devices warm_budget select_warm_blocks
place S model hw context concurrency p =
    let bank = model.expert_bank_bytes in
    let devices = device_plans model.fixed_bytes (kv_bytes model context concurrency) hw.gpus in
    let total = if bank == 0 then usable_total devices else min (usable_total devices) bank in
    let resident = leb bank hw.ram_usable in
    let warm_bytes = warm_budget hw.ram_usable bank in
    let warm_blocks = select_warm_blocks model.n_experts model.per_block_expert_bytes warm_bytes in
    (if bank == 0 then ok (S.nat 0) else quot S (S.nat total) (S.nat bank)) >>= λ frac.
    ok (record p {
      devices = devices;
      expert_capacity_total = total;
      expert_capacity_frac_of_bank = frac;
      ram_bank_resident = resident;
      ram_bank_bytes = bank;
      warm_bytes = warm_bytes;
      warm_blocks = warm_blocks;
      fixed_bytes = model.fixed_bytes;
      fixed_resident = true;
      notes =
          p.notes
          ++ starved_note (starved_devices devices)
          ++ (if resident then [] else bank_off_ram ∷ [])
          ++ warm_note warm_blocks warm_bytes;
    })
