-- ===== src/Hardware/Reserved.antt =====
-- A plan for a machine that sabah/hardware/profile.py has qualified leaves the reserves free.
use sabah_mo_e_accelerator.Base.{
  ℕ, zero, suc, ◌+◌, ◌-◌, min, ◌≤◌, ◌<◌, ◌≡◌, sym, subst, ◌⊎◌, inl, inr, Bool, List, [], ◌∷◌, ok,
  lookup, ℕ_discrete, dec_lt, All, arith,
}
use sabah_mo_e_accelerator.Planner.Types.{
  Scalar, Laws, Model, Gpu, Hardware, DevicePlan, ExecutionPlan,
}
use sabah_mo_e_accelerator.Planner.Plan.{plan}
use sabah_mo_e_accelerator.Planner.Plan.Capacity.{device_plan, device_plans}
use sabah_mo_e_accelerator.Planner.Plan.Placed.{Listed}
use sabah_mo_e_accelerator.Planner.Plan.Decided.{plan-IsSuited}
use sabah_mo_e_accelerator.Hardware.{
  Probes, GpuInfo, HardwareProfile, rows_by, devices_by, vram_reserve, ram_reserve, gpu_info,
  gpu_infos, qualified_gpus, qualify, effective_h2d_gbps,
}

module _ (S : Scalar) where
  -- What the planner reads of a profile.
  abbrev pub gpu_of : GpuInfo S → Gpu S
  gpu_of g = record {
    index = g.index;
    vram_usable = g.vram_usable;
    h2d_solo_gbps = g.h2d_solo_gbps;
  }

  abbrev pub gpus_of : List (GpuInfo S) → List (Gpu S)
  gpus_of [] = []
  gpus_of (g ∷ gs) = gpu_of g ∷ gpus_of gs

  abbrev pub machine_of : HardwareProfile S → Hardware S
  machine_of p = record {
    gpus = gpus_of p.gpus;
    ram_usable = p.ram_usable;
    ram_bandwidth_gbps = p.ram_bandwidth_gbps;
    effective_h2d_gbps = effective_h2d_gbps S p;
    h2d_contention_factor = p.h2d_contention_factor;
    storage_read_gbps = p.storage_read_gbps;
  }

  -- The device of an index, as the rows and the report show it.
  abbrev pub device_at : Probes S → ℕ → GpuInfo S
  device_at p i =
      gpu_info S i (lookup ℕ_discrete i (rows_by p.rows []))
        (lookup ℕ_discrete i (devices_by p.devices []))

  abbrev taken : DevicePlan → ℕ
  taken d = d.fixed_bytes + d.kv_workspace_bytes + d.expert_capacity

  -- A device has no capacity for experts, or what is placed on it leaves the reserve of its VRAM.
  abbrev pub Leaves : Probes S → DevicePlan → Type 0
  Leaves p d =
      (d.expert_capacity ≡ 0)
      ⊎ ((taken d + vram_reserve S (device_at p d.index).vram_total
            ≤ (device_at p d.index).vram_free)
          × (taken d + vram_reserve S (device_at p d.index).vram_total
              ≤ (device_at p d.index).vram_total))

  left_over :
      (free total reserve fixed kvws : ℕ)
      → (min free total - reserve - fixed - kvws ≡ 0)
        ⊎ ((fixed + kvws + (min free total - reserve - fixed - kvws) + reserve ≤ free)
            × (fixed + kvws + (min free total - reserve - fixed - kvws) + reserve ≤ total))
  left_over free total reserve fixed kvws =
      elim (dec_lt 0 (min free total - reserve - fixed - kvws)) [
        | yes some_room ↦ inr (omega arith, omega arith)
        | no no_room ↦ inl (omega arith)
      ]

  device_plan-Leaves :
      (p : Probes S) (fixed kvws i : ℕ) → Leaves p (device_plan fixed kvws (gpu_of (device_at p i)))
  unfolding device_plan gpu_info
  device_plan-Leaves p fixed kvws i =
      left_over (device_at p i).vram_free (device_at p i).vram_total
        (vram_reserve S (device_at p i).vram_total) fixed kvws

  device_plans-Leaves :
      (p : Probes S) (fixed kvws i n : ℕ)
      → All (Leaves p) (
          device_plans fixed kvws
            (gpus_of (gpu_infos S (rows_by p.rows []) (devices_by p.devices []) i n)))
  unfolding device_plans gpu_infos
  device_plans-Leaves p fixed kvws i zero = tt
  device_plans-Leaves p fixed kvws i (suc n) =
      (device_plan-Leaves p fixed kvws i, device_plans-Leaves p fixed kvws (suc i) n)

  Listed-Leaves :
      (p : Probes S) (model : Model) (ds : List DevicePlan)
      → Listed model (gpus_of (qualified_gpus S p)) ds
      → All (Leaves p) ds
  unfolding qualified_gpus
  Listed-Leaves p model ds (inl e) = subst (All (Leaves p)) (sym e) tt
  Listed-Leaves p model ds (inr (kvws, e)) =
      subst (All (Leaves p)) (sym e) (device_plans-Leaves p model.fixed_bytes kvws 0 _)

  -- Whatever the probes of a machine show, `plan` returns a plan for the machine that `qualify` makes
  -- of them, for a concurrency of at least one. Each device of the plan has no capacity for experts,
  -- or the fixed path, the cache and the experts on it leave the reserve of its VRAM (6 % of it, and
  -- 512 MiB at least) of what it has and of what is free. There are no pinned bytes, or they leave
  -- 2 GiB and the reserve of the RAM (12 % of it, and 4 GiB at least).
  pub plan-Leaves :
      (laws : Laws S) (p : Probes S) (model : Model) (context concurrency : ℕ)
      (specialised allow_cpu : Bool)
      → 0 < concurrency
      → (q : ExecutionPlan S) × (plan S model
            (machine_of (qualify S p))
            context
            concurrency
            specialised
            allow_cpu
          ≡ ok q)
        × All (Leaves p) q.devices
        × ((q.warm_bytes ≡ 0)
            ⊎ (q.warm_bytes + 2147483648 + ram_reserve S p.ram_total ≤ p.ram_total))
  unfolding qualify
  plan-Leaves laws p model context concurrency specialised allow_cpu some_tokens =
      let hw = machine_of (qualify S p) in
      let (q, planned, suited) =
        plan-IsSuited S laws model hw context concurrency specialised allow_cpu some_tokens in
      (q, planned, Listed-Leaves p model q.devices suited.listed, ram suited.reserved)
    where
      ram :
          {warm : ℕ}
          → (warm ≡ 0) ⊎ (warm + 2147483648 ≤ p.ram_total - ram_reserve S p.ram_total)
          → (warm ≡ 0) ⊎ (warm + 2147483648 + ram_reserve S p.ram_total ≤ p.ram_total)
      ram (inl none_pinned) = inl none_pinned
      ram (inr pinned) = inr (omega arith)
