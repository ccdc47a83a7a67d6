-- ===== src/Planner/Plan.antt =====
-- `plan`, in its stages: capacity, pinned blocks, class, time, verdict.
pub mod Capacity
pub mod Class
pub mod Timing
pub mod Verdict
pub mod Placed
pub mod Divisors
pub mod Times
pub mod Decided
use sabah_mo_e_accelerator.Base.{
  ℕ, Bool, true, false, List, [], ◌∷◌, if◌then◌else◌, Result, ok, ◌>>=◌, not,
}
use sabah_mo_e_accelerator.Planner.Types.{
  Scalar, ExecClass, reference, Model, Hardware, ExecutionPlan, Note, not_supported, not_calibrated,
  no_path, Bottleneck, Confidence, low, unknown,
}
use sabah_mo_e_accelerator.Planner.Plan.Capacity.{place}
use sabah_mo_e_accelerator.Planner.Plan.Class.{Choice, choose, set_choice, refuse}
use sabah_mo_e_accelerator.Planner.Plan.Timing.{
  gpu_bandwidth, cpu_bandwidth, batch_bytes, time_for, set_time,
}
use sabah_mo_e_accelerator.Planner.Plan.Verdict.{judge}

-- The plan before anything is known.
abbrev pub empty_plan : (S : Scalar) → ℕ → ℕ → ExecutionPlan S
empty_plan S context concurrency = record {
  exec_class = reference;
  devices = [];
  expert_capacity_total = 0;
  expert_capacity_frac_of_bank = S.nat 0;
  ram_bank_resident = false;
  ram_bank_bytes = 0;
  warm_bytes = 0;
  warm_blocks = [];
  fixed_bytes = 0;
  fixed_resident = false;
  hit_rate = S.nat 0;
  hit_rate_floor = S.nat 0;
  miss_bytes_per_token = 0;
  t_fixed_ms = S.nat 0;
  t_expert_compute_ms = S.nat 0;
  t_expert_fetch_ms = S.nat 0;
  t_token_ms = S.nat 0;
  projected_tok_s_low = S.nat 0;
  projected_tok_s_high = S.nat 0;
  confidence = low;
  bottleneck = unknown;
  reference_tok_s_estimate = S.nat 0;
  projected_speedup_low = S.nat 0;
  projected_speedup_high = S.nat 0;
  recommended = false;
  concurrency = concurrency;
  context = context;
  notes = [];
  limitations = [];
}

-- The rest of `plan` after the choice of a class.
unfoldable pub finish :
    (S : Scalar)
    → Model
    → Hardware S
    → ℕ
    → Bool
    → ExecutionPlan S
    → Choice S
    → Result (ExecutionPlan S)
unfolding refuse set_choice batch_bytes time_for set_time judge
finish S model hw concurrency specialised p Choice.no_way = ok (refuse S no_path p)
finish S model hw concurrency specialised p (Choice.way k hit floor) =
    let q = set_choice S k hit floor p in
    (batch_bytes S model concurrency specialised >>= λ batch.
    time_for S model hw batch q k >>= λ t. set_time S hw batch t q >>= λ u. judge S model hw u)

-- `plan`: `specialised` is `workload not in ("auto", "mixed", "general")`.
unfoldable pub plan :
    (S : Scalar) → Model → Hardware S → ℕ → ℕ → Bool → Bool → Result (ExecutionPlan S)
unfolding refuse place choose finish
plan S model hw context concurrency specialised allow_cpu =
    let p = empty_plan S context concurrency in
    if not model.supported
    then ok (refuse S not_supported p)
    else (if not model.calibrated
        then ok (refuse S not_calibrated p)
        else (place S model hw context concurrency p >>= λ q.
            choose S model hw specialised allow_cpu q >>= λ c.
            finish S model hw concurrency specialised q c))
