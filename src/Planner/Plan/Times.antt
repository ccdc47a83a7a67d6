-- ===== src/Planner/Plan/Times.antt =====
-- The times of a plan: they are always found.
use sabah_mo_e_accelerator.Base.{
  ℕ, ◌*◌, inl, inr, ◌<◌, max, ◌≡◌, refl, subst, Bool, true, false, ◌&&◌, Option, none, some, ◌==◌,
  if◌then◌else◌, Result, ok, Defined, Defined-bind, arith, Bool-cases,
}
use sabah_mo_e_accelerator.Planner.Types.{
  Scalar, Laws, no_gpus, quot, larger, Model, Hardware, ExecutionPlan, ExecClass, full_gpu,
  gpu_hot_tier, cpu_expert, storage_backed, reference,
}
use sabah_mo_e_accelerator.Planner.Rates.{reuse_of, reuse_mixed, reuse_same_domain}
use sabah_mo_e_accelerator.Planner.Plan.Divisors.{
  starts, positive, quot-Defined, nat-Defined, reuse_of-Defined, gpu_bandwidth-nonzero,
  storage_bandwidth-nonzero, at_least_one-nonzero,
}
use sabah_mo_e_accelerator.Planner.Plan.Timing.{
  giga, gpu_bandwidth, cpu_bandwidth, storage_bandwidth, batch_bytes, Times, fixed_time, fetch_time,
  gpu_time, cpu_time, storage_time, time_for, is_hot_tier, floor_time, ratio, low_rate,
  per_token_ms, pass_time, set_time, spread,
}

-- The part of a plan that its times leave alone.
pub record Keeps {S : Scalar} (p q : ExecutionPlan S) : Type 0 where
  pub same_class : q.exec_class ≡ p.exec_class
  pub same_devices : q.devices ≡ p.devices
  pub same_total : q.expert_capacity_total ≡ p.expert_capacity_total
  pub same_warm : q.warm_bytes ≡ p.warm_bytes
  pub same_resident : q.ram_bank_resident ≡ p.ram_bank_resident

-- The classes whose time model divides by the bandwidth of the devices.
abbrev pub needs_gpu : ExecClass → Bool
needs_gpu full_gpu = true
needs_gpu gpu_hot_tier = true
needs_gpu cpu_expert = false
needs_gpu storage_backed = false
needs_gpu reference = false

module _ (S : Scalar) (laws : Laws S) (model : Model) (hw : Hardware S) where
  pub batch_bytes-Defined :
      (c : ℕ) (specialised : Bool) → 0 < c → Defined (batch_bytes S model c specialised)
  unfolding batch_bytes
  batch_bytes-Defined c specialised h =
      let table = if specialised then reuse_same_domain else reuse_mixed in
      let (r, e, z) = reuse_of-Defined S laws c table (starting specialised) (rates specialised) in
      Defined-bind (reuse_of S table c) _ (r, e)
        (λ r' q.
          let z' : S.is_zero r' ≡ false =
            subst (λ x. S.is_zero x ≡ false) (let w : r ≡ r' = cc in w) z in
          Defined-bind (quot S (S.nat (model.per_token_expert_bytes * c)) r') _
            (quot-Defined S laws _ r' z')
            (λ batch q.
              Defined-bind (quot S batch (S.nat c)) _ (nat-Defined S laws batch c h)
                (λ t f. (batch, refl))))
    where
      starting : (s : Bool) → starts c (if s then reuse_same_domain else reuse_mixed) ≡ true
      starting true = ground arith
      starting false = ground arith

      rates : (s : Bool) → positive (if s then reuse_same_domain else reuse_mixed) ≡ true
      rates true = refl
      rates false = refl

  pub fixed_time-Defined :
      (other : Result S.F) → Defined other → Defined (fixed_time S model hw other)
  unfolding fixed_time
  fixed_time-Defined other d = elim (Bool-cases (no_gpus hw.gpus)) [
    | inl n ↦ rw n d
    | inr n ↦ rw n (quot-Defined S laws _ _ (gpu_bandwidth-nonzero S laws hw n))
  ]

  fetch_time-Defined : (miss : S.F) → Defined (fetch_time S hw miss)
  unfolding fetch_time
  fetch_time-Defined miss = elim (Bool-cases (S.is_zero (S.mul hw.effective_h2d_gbps (giga S)))) [
    | inl z ↦ rw z (S.inf, refl)
    | inr z ↦ rw z (_, refl)
  ]

  gpu_time-Defined :
      (batch : S.F) (p : ExecutionPlan S)
      → no_gpus hw.gpus ≡ false
      → Defined (gpu_time S model hw batch p)
  unfolding gpu_time
  gpu_time-Defined batch p some_gpu =
      let z = gpu_bandwidth-nonzero S laws hw some_gpu in
      Defined-bind (quot S (S.nat model.fixed_bytes) (gpu_bandwidth S hw)) _
        (quot-Defined S laws _ _ z)
        (λ f q.
          Defined-bind (quot S batch (gpu_bandwidth S hw)) _ (quot-Defined S laws _ _ z) (λ c r.
            Defined-bind (fetch_time S hw (S.mul batch (S.sub (S.nat 1) p.hit_rate))) _
              (fetch_time-Defined _) (λ t e. (_, refl))))

  cpu_time-Defined : (batch : S.F) → Defined (cpu_time S model hw batch)
  unfolding cpu_time
  cpu_time-Defined batch =
      let z = at_least_one-nonzero S laws (cpu_bandwidth S hw) in
      Defined-bind
        (fixed_time S model hw
          (quot S (S.nat model.fixed_bytes) (larger S (cpu_bandwidth S hw) (S.nat 1))))
        _ (fixed_time-Defined _ (quot-Defined S laws _ _ z))
        (λ f q.
          Defined-bind (quot S batch (larger S (cpu_bandwidth S hw) (S.nat 1))) _
            (quot-Defined S laws _ _ z) (λ c r. (_, refl)))

  part-Defined :
      (bank : ℕ)
      → Defined (if bank == 0 then ok (S.nat 0) else quot S (S.nat hw.ram_usable) (S.nat bank))
  part-Defined bank = elim (Bool-cases (bank == 0)) [
    | inl z ↦ rw z (S.nat 0, refl)
    | inr z ↦ rw z (nat-Defined S laws _ bank (ground arith))
  ]

  storage_time-Defined : (batch : S.F) → Defined (storage_time S model hw batch)
  unfolding storage_time
  storage_time-Defined batch =
      Defined-bind (fixed_time S model hw (ok (S.nat 0))) _ (fixed_time-Defined _ (S.nat 0, refl))
        (λ f q.
          Defined-bind (quot S batch (larger S (gpu_bandwidth S hw) (S.nat 1))) _
            (quot-Defined S laws _ _ (at_least_one-nonzero S laws (gpu_bandwidth S hw)))
            (λ c r.
              Defined-bind
                (if model.expert_bank_bytes == 0
                  then ok (S.nat 0)
                  else quot S (S.nat hw.ram_usable) (S.nat model.expert_bank_bytes))
                _ (part-Defined model.expert_bank_bytes)
                (λ a e.
                  Defined-bind
                    (quot S (S.mul batch (larger S (S.nat 0) (S.sub (S.nat 1) a)))
                      (storage_bandwidth S hw))
                    _ (quot-Defined S laws _ _ (storage_bandwidth-nonzero S laws hw))
                    (λ t u. (_, refl)))))

  pub time_for-Defined :
      (batch : S.F) (p : ExecutionPlan S) (k : ExecClass)
      → needs_gpu k && no_gpus hw.gpus ≡ false
      → Defined (time_for S model hw batch p k)
  unfolding time_for
  time_for-Defined batch p full_gpu h = gpu_time-Defined batch p h
  time_for-Defined batch p gpu_hot_tier h = gpu_time-Defined batch p h
  time_for-Defined batch p cpu_expert h = cpu_time-Defined batch
  time_for-Defined batch p storage_backed h = storage_time-Defined batch
  time_for-Defined batch p reference h = storage_time-Defined batch

  floor_time-Defined :
      (batch : S.F) (t : Times S) (p : ExecutionPlan S) → Defined (floor_time S hw batch t p)
  unfolding floor_time
  floor_time-Defined batch t p =
      elim (Bool-cases (is_hot_tier p.exec_class && S.lt (S.nat 0) p.hit_rate_floor)) [
        | inl hot ↦ rw hot (
            Defined-bind (fetch_time S hw (S.mul batch (S.sub (S.nat 1) p.hit_rate_floor))) _
              (fetch_time-Defined _) (λ f q. (_, refl)))
        | inr cold ↦ rw cold (none, refl)
      ]

  pub ratio-Defined : (x y : S.F) → Defined (ratio S x y)
  unfolding ratio
  ratio-Defined x y = elim (Bool-cases (S.lt (S.nat 0) y)) [
    | inl above ↦ rw above (quot-Defined S laws x y (laws.positive_nonzero y above))
    | inr not_above ↦ rw not_above (S.nat 0, refl)
  ]

  low_rate-Defined : (c : ℕ) (agg s : S.F) (floor : Option S.F) → Defined (low_rate S c agg s floor)
  unfolding low_rate
  low_rate-Defined c agg s none = (_, refl)
  low_rate-Defined c agg s (some f) = elim (Bool-cases (S.lt (S.nat 0) f)) [
    | inl above ↦ rw above (
        Defined-bind (quot S (S.nat c) f) _
          (quot-Defined S laws _ f (laws.positive_nonzero f above)) (λ x e. (_, refl)))
    | inr not_above ↦ rw not_above (_, refl)
  ]

  per_token_ms-Defined : (c : ℕ) (t : S.F) → Defined (per_token_ms S c t)
  unfolding per_token_ms
  per_token_ms-Defined c t = nat-Defined S laws _ (max 1 c) (omega arith)

  pub set_time-Defined :
      (batch : S.F) (t : Times S) (p : ExecutionPlan S)
      → (q : ExecutionPlan S) × (set_time S hw batch t p ≡ ok q) × Keeps p q
  unfolding set_time
  set_time-Defined batch t p =
      let (floor, e1) = floor_time-Defined batch t p in
      let (miss, e2) = nat-Defined S laws t.miss (max 1 p.concurrency) (omega arith) in
      let (fixed_ms, e3) = per_token_ms-Defined p.concurrency t.t_fixed in
      let (comp_ms, e4) = per_token_ms-Defined p.concurrency t.t_comp in
      let (fetch_ms, e5) = per_token_ms-Defined p.concurrency t.t_fetch in
      let pass = pass_time S t.t_fixed t.t_fetch t.t_comp in
      let (token_ms, e6) = per_token_ms-Defined p.concurrency pass in
      let (agg, e7) = ratio-Defined (S.nat p.concurrency) pass in
      let (low_tok, e8) = low_rate-Defined p.concurrency agg (spread S p.exec_class) floor in
      rw (e1, e2, e3, e4, e5, e6, e7, e8)
        (
          _,
          refl,
          record {
            same_class = refl;
            same_devices = refl;
            same_total = refl;
            same_warm = refl;
            same_resident = refl;
          },
        )
