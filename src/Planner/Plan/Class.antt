-- ===== src/Planner/Plan/Class.antt =====
-- The execution class and the hit rate.
use sabah_mo_e_accelerator.Base.{
  ◌&&◌, not, Bool, true, false, [], ◌∷◌, ◌++◌, leb, ltb, if◌then◌else◌, Result, ok, ◌>>=◌,
}
use sabah_mo_e_accelerator.Planner.Types.{
  Scalar, no_gpus, quot, larger, smaller, ExecClass, full_gpu, gpu_hot_tier, cpu_expert,
  storage_backed, reference, Model, Hardware, ExecutionPlan, Note,
}
use sabah_mo_e_accelerator.Planner.Rates.{lru_curve, static_curve, interp_hit}
use sabah_mo_e_accelerator.Planner.Plan.Capacity.{usable_total}
use sabah_mo_e_accelerator.Planner.Plan.Timing.{cpu_bandwidth}

-- The class, the hit rate and its floor, or no way to run the model.
pub data Choice (S : Scalar) : Type 0 where
  no_way : Choice S
  way : ExecClass → S.F → S.F → Choice S

-- A plan for the reference runtime.
unfoldable pub refuse : (S : Scalar) → Note → ExecutionPlan S → ExecutionPlan S
refuse S n p = record p { exec_class = reference; notes = p.notes ++ (n ∷ []) }

-- The hit rate of the hot tier; the bonus is 0.18.
unfoldable pub hot_rate : (S : Scalar) → Bool → S.F → S.F
hot_rate S specialised base =
    let rate = if specialised then smaller S (S.lit 995 3) (S.add base (S.lit 18 2)) else base in
    larger S (S.nat 0) (smaller S (S.nat 1) rate)

-- The branches that choose the class.
unfoldable pub first_choice :
    (S : Scalar) → Model → Hardware S → Bool → Bool → ExecutionPlan S → Result (Choice S)
unfolding quot interp_hit hot_rate usable_total cpu_bandwidth
first_choice S model hw specialised allow_cpu p =
    let usable = usable_total p.devices in
    if leb model.expert_bank_bytes usable && not (no_gpus hw.gpus)
    then ok (Choice.way full_gpu (S.nat 1) (S.nat 0))
    else (if not (no_gpus hw.gpus) && ltb 0 usable
        then (quot S (S.nat usable) (S.nat 1000000000) >>= λ cap_gb.
            interp_hit S lru_curve cap_gb >>= λ base. interp_hit S static_curve cap_gb >>= λ floor.
            ok (Choice.way gpu_hot_tier (hot_rate S specialised base) floor))
        else (if allow_cpu && S.lt (S.nat 0) (cpu_bandwidth S hw)
            then ok
                (Choice.way cpu_expert (if p.ram_bank_resident then S.nat 1 else S.nat 0) (S.nat 0))
            else ok Choice.no_way))

-- A bank that the RAM does not hold makes every class but `FULL_GPU` storage-backed.
unfoldable pub demote : {S : Scalar} → Bool → Choice S → Choice S
demote resident Choice.no_way = Choice.no_way
demote true (Choice.way k hit floor) = Choice.way k hit floor
demote false (Choice.way full_gpu hit floor) = Choice.way full_gpu hit floor
demote false (Choice.way gpu_hot_tier hit floor) = Choice.way storage_backed hit floor
demote false (Choice.way cpu_expert hit floor) = Choice.way storage_backed hit floor
demote false (Choice.way storage_backed hit floor) = Choice.way storage_backed hit floor
demote false (Choice.way reference hit floor) = Choice.way storage_backed hit floor

unfoldable pub choose :
    (S : Scalar) → Model → Hardware S → Bool → Bool → ExecutionPlan S → Result (Choice S)
unfolding first_choice demote
choose S model hw specialised allow_cpu p =
    first_choice S model hw specialised allow_cpu p >>= λ c. ok (demote p.ram_bank_resident c)

unfoldable pub set_choice : (S : Scalar) → ExecClass → S.F → S.F → ExecutionPlan S → ExecutionPlan S
set_choice S k hit floor p = record p { exec_class = k; hit_rate = hit; hit_rate_floor = floor }
