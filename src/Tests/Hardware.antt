-- ===== src/Tests/Hardware.antt =====
-- The qualification of small machines.
use sabah_mo_e_accelerator.Base.{
  ℕ, ◌+◌, ◌≡◌, ◌≤◌, ◌⊎◌, refl, true, false, List, [], ◌∷◌, ok, All, arith, map,
}
use sabah_mo_e_accelerator.Planner.Types.{ExecutionPlan}
use sabah_mo_e_accelerator.Planner.Plan.{plan}
use sabah_mo_e_accelerator.Hardware.{SmiRow, Probes, ram_reserve, qualify, qualified_gpus}
use sabah_mo_e_accelerator.Hardware.Reserved.{machine_of, Leaves, plan-Leaves}
use sabah_mo_e_accelerator.Tests.Planner.{fixed_point, laws, model}

abbrev row : ℕ → SmiRow
row i = record {
  index = i;
  name = "RTX";
  vram_total = 25000000000;
  vram_free = 24000000000;
  pcie_gen_max = 4;
  pcie_width_max = 16;
  pcie_gen_cur = 1;
  pcie_width_cur = 16;
}

abbrev probes : List SmiRow → Probes fixed_point
probes rows = record {
  rows = rows;
  devices = [];
  h2d_sum_solo_gbps = 250000;
  h2d_simultaneous_gbps = 0;
  h2d_contention_factor = 0;
  ram_total = 64000000000;
  ram_bandwidth_gbps = 600000;
  storage_read_gbps = 30000;
}

-- Six percent are more than 512 MiB.
usable :
    map (λ g. g.vram_usable) (qualified_gpus fixed_point (probes (row 0 ∷ []))) ≡ 22500000000 ∷ []
unfolding qualified_gpus
usable = refl

-- The row of device 0 is skipped: device 1 is lost, and device 0 has no memory.
lost :
    map {B = ℕ × ℕ}
      (λ g. (g.index, g.vram_total))
      (qualified_gpus fixed_point (probes (row 1 ∷ [])))
    ≡ (0, 0) ∷ []
unfolding qualified_gpus
lost = refl

plan-Leaves_example :
    (q : ExecutionPlan fixed_point) × (plan fixed_point model
        (machine_of fixed_point (qualify fixed_point (probes (row 0 ∷ row 1 ∷ []))))
        8192
        1
        false
        true
      ≡ ok q)
    × All (Leaves fixed_point (probes (row 0 ∷ row 1 ∷ []))) q.devices
    × ((q.warm_bytes ≡ 0)
        ⊎ (q.warm_bytes + 2147483648 + ram_reserve fixed_point 64000000000 ≤ 64000000000))
plan-Leaves_example =
    plan-Leaves fixed_point laws (probes (row 0 ∷ row 1 ∷ [])) model 8192 1 false true (omega arith)
