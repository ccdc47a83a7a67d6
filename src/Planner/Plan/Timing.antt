-- ===== src/Planner/Plan/Timing.antt =====
-- The time of a pass: the fixed path, the experts' arithmetic, and their transfer.
use sabah_mo_e_accelerator.Base.{
  ℕ, ◌*◌, max, ◌&&◌, Bool, true, false, List, [], ◌∷◌, Option, none, some, ◌==◌, if◌then◌else◌,
  Result, ok, ◌>>=◌,
}
use sabah_mo_e_accelerator.Planner.Types.{
  Scalar, no_gpus, quot, larger, smaller, ExecClass, full_gpu, gpu_hot_tier, cpu_expert,
  storage_backed, reference, Model, Gpu, Hardware, ExecutionPlan, Bottleneck, expert_streaming,
  gpu_fixed_path, cpu_expert_bandwidth, storage_reads, Confidence, low, medium, high,
}
use sabah_mo_e_accelerator.Planner.Rates.{reuse_mixed, reuse_same_domain, reuse_of}

abbrev pub giga : (S : Scalar) → S.F
giga S = S.nat 1000000000

-- `gpu_bw`, from what is summed so far; `GPU_BW_EFFICIENCY` is 0.75.
unfoldable pub gpu_bandwidth_from : (S : Scalar) → S.F → List (Gpu S) → S.F
gpu_bandwidth_from S bw [] = bw
gpu_bandwidth_from S bw (g ∷ gs) =
    gpu_bandwidth_from S
      (S.add bw (
        S.mul (S.mul (larger S (S.mul g.h2d_solo_gbps (S.nat 12)) (S.nat 100)) (giga S))
          (S.lit 75 2)))
      gs

unfoldable pub gpu_bandwidth : (S : Scalar) → Hardware S → S.F
unfolding gpu_bandwidth_from
gpu_bandwidth S hw = gpu_bandwidth_from S (S.nat 0) hw.gpus

-- `cpu_expert_bw`; `CPU_EXPERT_BW_FRACTION` is 0.54.
unfoldable pub cpu_bandwidth : (S : Scalar) → Hardware S → S.F
cpu_bandwidth S hw = S.mul (S.mul hw.ram_bandwidth_gbps (giga S)) (S.lit 54 2)

-- `(hw.storage_read_gbps or 0.5) * 1e9`
unfoldable pub storage_bandwidth : (S : Scalar) → Hardware S → S.F
storage_bandwidth S hw =
    S.mul (if S.is_zero hw.storage_read_gbps then S.lit 5 1 else hw.storage_read_gbps) (giga S)

-- `expert_bytes_batch`, and the division by the concurrency, whose result nothing uses.
unfoldable pub batch_bytes : (S : Scalar) → Model → ℕ → Bool → Result S.F
unfolding quot reuse_of
batch_bytes S model concurrency specialised =
    reuse_of S (if specialised then reuse_same_domain else reuse_mixed) concurrency >>= λ r.
    quot S (S.nat (model.per_token_expert_bytes * concurrency)) r >>= λ batch.
    quot S batch (S.nat concurrency) >>= λ tok. ok batch

-- `t_fixed`, `t_comp`, `t_fetch`, `miss` and the bottleneck.
pub record Times (S : Scalar) : Type 0 where
  pub t_fixed : S.F
  pub t_comp : S.F
  pub t_fetch : S.F
  pub miss : S.F
  pub bottleneck : Bottleneck

-- `fixed / gpu_bw if hw.gpus else other`
unfoldable pub fixed_time : (S : Scalar) → Model → Hardware S → Result S.F → Result S.F
unfolding quot gpu_bandwidth
fixed_time S model hw other =
    if no_gpus hw.gpus then other else quot S (S.nat model.fixed_bytes) (gpu_bandwidth S hw)

-- The transfer of missed bytes to the device.
unfoldable pub fetch_time : (S : Scalar) → Hardware S → S.F → Result S.F
unfolding quot
fetch_time S hw miss =
    let h2d = S.mul hw.effective_h2d_gbps (giga S) in
    if S.is_zero h2d then ok S.inf else quot S miss h2d

unfoldable pub gpu_time :
    (S : Scalar) → Model → Hardware S → S.F → ExecutionPlan S → Result (Times S)
unfolding quot gpu_bandwidth fetch_time
gpu_time S model hw batch p = quot S (S.nat model.fixed_bytes) (gpu_bandwidth S hw) >>= λ t_fixed.
    quot S batch (gpu_bandwidth S hw) >>= λ t_comp.
    let miss = S.mul batch (S.sub (S.nat 1) p.hit_rate) in
    (fetch_time S hw miss >>= λ t_fetch. ok (record {
      t_fixed = t_fixed;
      t_comp = t_comp;
      t_fetch = t_fetch;
      miss = miss;
      bottleneck =
          if S.lt (larger S t_fixed t_comp) t_fetch then expert_streaming else gpu_fixed_path;
    }))

unfoldable pub cpu_time : (S : Scalar) → Model → Hardware S → S.F → Result (Times S)
unfolding quot cpu_bandwidth fixed_time
cpu_time S model hw batch =
    let bw = larger S (cpu_bandwidth S hw) (S.nat 1) in
    (fixed_time S model hw (quot S (S.nat model.fixed_bytes) bw) >>= λ t_fixed.
    quot S batch bw >>= λ t_comp. ok (record {
      t_fixed = t_fixed;
      t_comp = t_comp;
      t_fetch = S.nat 0;
      miss = S.nat 0;
      bottleneck = cpu_expert_bandwidth;
    }))

unfoldable pub storage_time : (S : Scalar) → Model → Hardware S → S.F → Result (Times S)
unfolding quot gpu_bandwidth storage_bandwidth fixed_time
storage_time S model hw batch =
    let bank = model.expert_bank_bytes in
    (fixed_time S model hw (ok (S.nat 0)) >>= λ t_fixed.
    quot S batch (larger S (gpu_bandwidth S hw) (S.nat 1)) >>= λ t_comp.
    (if bank == 0 then ok (S.nat 0) else quot S (S.nat hw.ram_usable) (S.nat bank)) >>= λ part.
    let miss = S.mul batch (larger S (S.nat 0) (S.sub (S.nat 1) part)) in
    (quot S miss (storage_bandwidth S hw) >>= λ t_fetch. ok (record {
      t_fixed = t_fixed;
      t_comp = t_comp;
      t_fetch = t_fetch;
      miss = miss;
      bottleneck = storage_reads;
    })))

-- The time model of a class.
unfoldable pub time_for :
    (S : Scalar) → Model → Hardware S → S.F → ExecutionPlan S → ExecClass → Result (Times S)
unfolding gpu_time cpu_time storage_time
time_for S model hw batch p full_gpu = gpu_time S model hw batch p
time_for S model hw batch p gpu_hot_tier = gpu_time S model hw batch p
time_for S model hw batch p cpu_expert = cpu_time S model hw batch
time_for S model hw batch p storage_backed = storage_time S model hw batch
time_for S model hw batch p reference = storage_time S model hw batch

-- `(t_fixed + max(fetch, t_comp)) * (1.0 + OVERHEAD_FRAC)`
abbrev pub pass_time : (S : Scalar) → S.F → S.F → S.F → S.F
pass_time S t_fixed t_fetch t_comp =
    S.mul (S.add t_fixed (larger S t_fetch t_comp)) (S.add (S.nat 1) (S.lit 12 2))

abbrev pub is_hot_tier : ExecClass → Bool
is_hot_tier gpu_hot_tier = true
is_hot_tier full_gpu = false
is_hot_tier cpu_expert = false
is_hot_tier storage_backed = false
is_hot_tier reference = false

-- `t_pass_floor`: the pass at the static hit rate.
unfoldable pub floor_time :
    (S : Scalar) → Hardware S → S.F → Times S → ExecutionPlan S → Result (Option S.F)
unfolding fetch_time
floor_time S hw batch t p =
    if is_hot_tier p.exec_class && S.lt (S.nat 0) p.hit_rate_floor
    then (fetch_time S hw (S.mul batch (S.sub (S.nat 1) p.hit_rate_floor)) >>= λ f.
        ok (some (pass_time S t.t_fixed f t.t_comp)))
    else ok none

abbrev pub spread : (S : Scalar) → ExecClass → S.F
spread S full_gpu = S.lit 10 2
spread S gpu_hot_tier = S.lit 18 2
spread S cpu_expert = S.lit 18 2
spread S storage_backed = S.lit 18 2
spread S reference = S.lit 18 2

abbrev pub confidence_of : ExecClass → Confidence
confidence_of full_gpu = high
confidence_of gpu_hot_tier = medium
confidence_of cpu_expert = low
confidence_of storage_backed = low
confidence_of reference = low

-- `x / y if y > 0 else 0.0`
unfoldable pub ratio : (S : Scalar) → S.F → S.F → Result S.F
unfolding quot
ratio S x y = if S.lt (S.nat 0) y then quot S x y else ok (S.nat 0)

-- `p.projected_tok_s_low`
unfoldable pub low_rate : (S : Scalar) → ℕ → S.F → S.F → Option S.F → Result S.F
unfolding quot
low_rate S concurrency agg s none = ok (S.mul agg (S.sub (S.nat 1) s))
low_rate S concurrency agg s (some floor) =
    if S.lt (S.nat 0) floor
    then (quot S (S.nat concurrency) floor >>= λ f.
        ok (smaller S f (S.mul agg (S.sub (S.nat 1) s))))
    else ok (S.mul agg (S.sub (S.nat 1) s))

-- `1e3 * t / max(1, concurrency)`
unfoldable pub per_token_ms : (S : Scalar) → ℕ → S.F → Result S.F
unfolding quot
per_token_ms S concurrency t = quot S (S.mul (S.nat 1000) t) (S.nat (max 1 concurrency))

-- The fields of the plan that the times give.
unfoldable pub set_time :
    (S : Scalar) → Hardware S → S.F → Times S → ExecutionPlan S → Result (ExecutionPlan S)
unfolding quot ratio floor_time low_rate per_token_ms
set_time S hw batch t p = floor_time S hw batch t p >>= λ floor.
    quot S t.miss (S.nat (max 1 p.concurrency)) >>= λ miss.
    per_token_ms S p.concurrency t.t_fixed >>= λ fixed_ms.
    per_token_ms S p.concurrency t.t_comp >>= λ comp_ms.
    per_token_ms S p.concurrency t.t_fetch >>= λ fetch_ms.
    let t_pass = pass_time S t.t_fixed t.t_fetch t.t_comp in
    (per_token_ms S p.concurrency t_pass >>= λ token_ms.
    ratio S (S.nat p.concurrency) t_pass >>= λ agg.
    low_rate S p.concurrency agg (spread S p.exec_class) floor >>= λ low_tok. ok (record p {
      bottleneck = t.bottleneck;
      miss_bytes_per_token = S.trunc miss;
      t_fixed_ms = fixed_ms;
      t_expert_compute_ms = comp_ms;
      t_expert_fetch_ms = fetch_ms;
      t_token_ms = token_ms;
      projected_tok_s_low = low_tok;
      projected_tok_s_high = S.mul agg (S.add (S.nat 1) (spread S p.exec_class));
      confidence = confidence_of p.exec_class;
    }))
