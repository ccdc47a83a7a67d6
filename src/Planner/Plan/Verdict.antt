-- ===== src/Planner/Plan/Verdict.antt =====
-- The estimate of the reference runtime, and the recommendation.
use sabah_mo_e_accelerator.Base.{
  ◌&&◌, Bool, true, false, [], ◌∷◌, ◌++◌, length, ltb, ◌==◌, if◌then◌else◌, Result, ok, ◌>>=◌,
}
use sabah_mo_e_accelerator.Planner.Types.{
  Scalar, quot, larger, ExecClass, full_gpu, gpu_hot_tier, cpu_expert, storage_backed, reference,
  Model, Hardware, ExecutionPlan, no_warm_tier, undersized, storage_fallback, below_bar,
  measured_curve, projected, root_complex,
}
use sabah_mo_e_accelerator.Planner.Plan.Timing.{
  ratio, cpu_bandwidth, storage_bandwidth, fixed_time, giga,
}

-- `t_ref`
unfoldable pub reference_time : (S : Scalar) → Model → Hardware S → ExecutionPlan S → Result S.F
unfolding quot cpu_bandwidth storage_bandwidth fixed_time
reference_time S model hw p =
    let cpu = cpu_bandwidth S hw in
    let ref_bw = if S.lt (S.nat 0) cpu then cpu else giga S in
    let token = S.nat model.per_token_expert_bytes in
    (fixed_time S model hw (quot S (S.nat model.fixed_bytes) ref_bw) >>= λ t_fixed.
    quot S token ref_bw >>= λ t_experts.
    (if p.ram_bank_resident
      then ok (S.add t_fixed t_experts)
      else (quot S (S.nat hw.ram_usable) (S.nat model.expert_bank_bytes) >>= λ part.
          quot S (S.mul token (larger S (S.nat 0) (S.sub (S.nat 1) part))) (storage_bandwidth S hw)
          >>= λ t_miss. ok (S.add (S.add t_fixed t_experts) t_miss)))
    >>= λ t. ok (S.mul t (S.add (S.nat 1) (S.lit 12 2))))

abbrev pub is_storage : ExecClass → Bool
is_storage storage_backed = true
is_storage full_gpu = false
is_storage gpu_hot_tier = false
is_storage cpu_expert = false
is_storage reference = false

-- `p.recommended`, and the class after it.
unfoldable pub recommend : (S : Scalar) → ExecutionPlan S → ExecutionPlan S
recommend S p =
    let bare = is_storage p.exec_class && p.warm_bytes == 0 in
    let good = if bare then false else S.le (S.lit 110 2) p.projected_speedup_low in
    let slow = S.lt p.projected_tok_s_high (S.nat 5) in
    let class = if S.lt p.projected_speedup_high (S.nat 1) then reference else p.exec_class in
    record p {
      recommended = good;
      exec_class = if good then p.exec_class else class;
      notes =
          p.notes
          ++ (if bare then no_warm_tier ∷ [] else [])
          ++ (if slow then undersized ∷ [] else [])
          ++ (if good
              then []
              else ((if is_storage p.exec_class then storage_fallback else below_bar) ∷ []));
    }

-- The limitations; the last is for several devices that share a root complex.
unfoldable pub limit : (S : Scalar) → Hardware S → ExecutionPlan S → ExecutionPlan S
limit S hw p = record p {
  limitations =
      p.limitations
      ++ measured_curve
        ∷ projected
        ∷ (if ltb 1 (length hw.gpus) && S.lt hw.h2d_contention_factor (S.lit 8 1)
            then root_complex ∷ []
            else []);
}

-- The rest of `plan`.
unfoldable pub judge :
    (S : Scalar) → Model → Hardware S → ExecutionPlan S → Result (ExecutionPlan S)
unfolding ratio reference_time recommend limit
judge S model hw p = reference_time S model hw p >>= λ t_ref. ratio S (S.nat 1) t_ref >>= λ ref.
    ratio S p.projected_tok_s_low ref >>= λ low. ratio S p.projected_tok_s_high ref >>= λ high. ok (
      limit S hw (
        recommend S (record p {
          reference_tok_s_estimate = ref;
          projected_speedup_low = low;
          projected_speedup_high = high;
        })))
