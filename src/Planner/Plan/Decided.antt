-- ===== src/Planner/Plan/Decided.antt =====
-- `plan` returns, and its plan is one that the machine can carry out.
use sabah_mo_e_accelerator.Base.{
  ℕ, ◌+◌, ◌≤◌, ◌<◌, ◌≡◌, refl, sym, ap, subst, subst₂, ◌∙◌, ◌⊎◌, inl, inr, Bool, true, false, not,
  ◌&&◌, List, leb, ◌==◌, if◌then◌else◌, ok, ◌>>=◌, Defined, arith, Bool-cases, All,
}
use sabah_mo_e_accelerator.Planner.Types.{
  Scalar, Laws, Note, not_supported, not_calibrated, no_path, no_gpus, quot, larger, Model,
  Hardware, DevicePlan, ExecutionPlan, ExecClass, full_gpu, gpu_hot_tier, cpu_expert,
  storage_backed, reference,
}
use sabah_mo_e_accelerator.Planner.Plan.Capacity.{usable_total, place}
use sabah_mo_e_accelerator.Planner.Plan.Class.{Choice, choose, set_choice, refuse}
use sabah_mo_e_accelerator.Planner.Plan.Timing.{giga, cpu_bandwidth, storage_bandwidth}
use sabah_mo_e_accelerator.Planner.Plan.Verdict.{
  reference_time, is_storage, recommend, limit, judge,
}
use sabah_mo_e_accelerator.Planner.Plan.Divisors.{
  quot-Defined, nat-Defined, storage_bandwidth-nonzero,
}
use sabah_mo_e_accelerator.Planner.Plan.Times.{
  needs_gpu, batch_bytes-Defined, time_for-Defined, set_time-Defined, ratio-Defined,
  fixed_time-Defined,
}
use sabah_mo_e_accelerator.Planner.Plan.Placed.{
  Listed, Fits, Placed, place-Placed, Chosen, choose-Chosen,
}
use sabah_mo_e_accelerator.Planner.Plan.{empty_plan, finish, plan}

-- What the class of a plan says of the machine.
abbrev pub Suits : {S : Scalar} → Model → Hardware S → List DevicePlan → Bool → ExecClass → Type 0
Suits model hw devices recommended full_gpu =
    (no_gpus hw.gpus ≡ false) × (model.expert_bank_bytes ≤ usable_total devices)
Suits model hw devices recommended gpu_hot_tier =
    (no_gpus hw.gpus ≡ false)
    × (0 < usable_total devices)
    × (model.expert_bank_bytes ≤ hw.ram_usable)
Suits model hw devices recommended cpu_expert = model.expert_bank_bytes ≤ hw.ram_usable
Suits model hw devices recommended storage_backed = hw.ram_usable < model.expert_bank_bytes
Suits model hw devices recommended reference = recommended ≡ false

-- A plan that the machine can carry out.
pub record IsSuited {S : Scalar} (model : Model) (hw : Hardware S) (q : ExecutionPlan S)
    : Type 0 where
  pub listed : Listed model hw.gpus q.devices
  pub fits : All Fits q.devices
  pub capped : (model.expert_bank_bytes ≡ 0) ⊎ (q.expert_capacity_total ≤ model.expert_bank_bytes)
  pub reachable : q.expert_capacity_total ≤ usable_total q.devices
  pub reserved : (q.warm_bytes ≡ 0) ⊎ (q.warm_bytes + 2147483648 ≤ hw.ram_usable)
  pub suits : Suits model hw q.devices q.recommended q.exec_class
  pub faster : (q.recommended ≡ false) ⊎ (S.le (S.lit 110 2) q.projected_speedup_low ≡ true)
  pub backed : (q.recommended ≡ false) ⊎ (is_storage q.exec_class ≡ false) ⊎ (0 < q.warm_bytes)

module _ (S : Scalar) (laws : Laws S) (model : Model) (hw : Hardware S) where
  ref_bw-nonzero :
      S.is_zero (if S.lt (S.nat 0) (cpu_bandwidth S hw) then cpu_bandwidth S hw else giga S) ≡ false
  ref_bw-nonzero = elim (Bool-cases (S.lt (S.nat 0) (cpu_bandwidth S hw))) [
    | inl above ↦ rw above (laws.positive_nonzero _ above)
    | inr not_above ↦ rw not_above (laws.nat_nonzero 1000000000 (omega arith))
  ]

  reference_time-Defined :
      (p : ExecutionPlan S)
      → p.ram_bank_resident ≡ leb model.expert_bank_bytes hw.ram_usable
      → Defined (reference_time S model hw p)
  unfolding reference_time
  reference_time-Defined p h =
      let cpu = cpu_bandwidth S hw in
      let ref_bw = if S.lt (S.nat 0) cpu then cpu else giga S in
      let z : S.is_zero ref_bw ≡ false = ref_bw-nonzero in
      let (f, e1) =
        fixed_time-Defined S laws model hw (quot S (S.nat model.fixed_bytes) ref_bw)
          (quot-Defined S laws _ _ z) in
      let (t, e2) = quot-Defined S laws (S.nat model.per_token_expert_bytes) ref_bw z in
      elim (Bool-cases p.ram_bank_resident) [
        | inl held ↦ rw (e1, e2, held) (_, refl)
        | inr away ↦
            let (part, e3) =
              nat-Defined S laws (S.nat hw.ram_usable) model.expert_bank_bytes (ground arith) in
            let (miss, e4) =
              quot-Defined S laws
                (S.mul (S.nat model.per_token_expert_bytes)
                  (larger S (S.nat 0) (S.sub (S.nat 1) part)))
                (storage_bandwidth S hw) (storage_bandwidth-nonzero S laws hw) in
            rw (e1, e2, away, e3, e4) (_, refl)
      ]

  Suits-after :
      (devices : List DevicePlan) (k : ExecClass) (good slow : Bool)
      → ((r : Bool) → Suits model hw devices r k)
      → Suits model hw devices good (if good then k else (if slow then reference else k))
  Suits-after devices k true slow h = h true
  Suits-after devices k false true h = refl
  Suits-after devices k false false h = h false

  backed-after :
      (k : ExecClass) (warm : ℕ) (good slow : Bool)
      → (good ≡ false) ⊎ (is_storage k && warm == 0 ≡ false)
      → (good ≡ false)
        ⊎ (is_storage (if good then k else (if slow then reference else k)) ≡ false)
        ⊎ (0 < warm)
  backed-after k warm false slow h = inl refl
  backed-after k warm true slow (inl z) = absurd (cc)
  backed-after k warm true slow (inr z) =
      inr (elim (Bool-cases (is_storage k)) [ inr n ↦ inl n | inl y ↦ inr (ground arith) ])

  -- The verdict changes neither the places nor, if it recommends the plan, its class.
  recommend-IsSuited :
      (p : ExecutionPlan S)
      → Placed model hw p
      → ((r : Bool) → Suits model hw p.devices r p.exec_class)
      → IsSuited model hw (limit S hw (recommend S p))
  unfolding recommend limit
  recommend-IsSuited p placed suits = record {
    listed = placed.listed;
    fits = placed.fits;
    capped = placed.capped;
    reachable = placed.reachable;
    reserved = placed.reserved;
    suits =
        Suits-after p.devices p.exec_class (good p) (S.lt p.projected_speedup_high (S.nat 1)) suits;
    faster = elim (Bool-cases (bare p)) [
      | inl b ↦ inl (rw b refl)
      | inr b ↦ elim (Bool-cases (S.le (S.lit 110 2) p.projected_speedup_low)) [
        | inl l ↦ inr l
        | inr l ↦ inl (rw (b, l) refl)
      ]
    ];
    backed =
        backed-after p.exec_class p.warm_bytes (good p) (S.lt p.projected_speedup_high (S.nat 1))
          (elim (Bool-cases (bare p)) [ inl b ↦ inl (rw b refl) | inr b ↦ inr b ]);
  }
    where
      bare : ExecutionPlan S → Bool
      bare p = is_storage p.exec_class && p.warm_bytes == 0

      good : ExecutionPlan S → Bool
      good p = if bare p then false else S.le (S.lit 110 2) p.projected_speedup_low

  Chosen-Suits :
      (p : ExecutionPlan S) (k : ExecClass) (hit floor : S.F)
      → p.ram_bank_resident ≡ leb model.expert_bank_bytes hw.ram_usable
      → Chosen S laws model hw p (Choice.way k hit floor)
      → (r : Bool) → Suits model hw p.devices r k
  Chosen-Suits p full_gpu hit floor e c r = c
  Chosen-Suits p gpu_hot_tier hit floor e c r = (c.0, c.1, ground (arith, e, c))
  Chosen-Suits p cpu_expert hit floor e c r = ground (arith, e, c)
  Chosen-Suits p storage_backed hit floor e c r = ground (arith, e, c)
  Chosen-Suits p reference hit floor e c r = absurd c

  Chosen-needs_gpu :
      (p : ExecutionPlan S) (k : ExecClass) (hit floor : S.F)
      → Chosen S laws model hw p (Choice.way k hit floor)
      → needs_gpu k && no_gpus hw.gpus ≡ false
  Chosen-needs_gpu p full_gpu hit floor c = c.0
  Chosen-needs_gpu p gpu_hot_tier hit floor c = c.0
  Chosen-needs_gpu p cpu_expert hit floor c = refl
  Chosen-needs_gpu p storage_backed hit floor c = refl
  Chosen-needs_gpu p reference hit floor c = absurd c

  judge-IsSuited :
      (p : ExecutionPlan S)
      → Placed model hw p
      → ((r : Bool) → Suits model hw p.devices r p.exec_class)
      → (q : ExecutionPlan S) × (judge S model hw p ≡ ok q) × IsSuited model hw q
  unfolding judge
  judge-IsSuited p placed suits =
      let (t, e1) = reference_time-Defined p placed.resident in
      let (ref, e2) = ratio-Defined S laws model hw (S.nat 1) t in
      let (low, e3) = ratio-Defined S laws model hw p.projected_tok_s_low ref in
      let (high, e4) = ratio-Defined S laws model hw p.projected_tok_s_high ref in
      rw (e1, e2, e3, e4)
        (
          _,
          refl,
          recommend-IsSuited
              (record p {
                reference_tok_s_estimate = ref;
                projected_speedup_low = low;
                projected_speedup_high = high;
              })
              (record {
                listed = placed.listed;
                fits = placed.fits;
                capped = placed.capped;
                reachable = placed.reachable;
                resident = placed.resident;
                reserved = placed.reserved;
              })
              suits,
        )

  refuse-IsSuited :
      (n : Note) (p : ExecutionPlan S)
      → Placed model hw p
      → p.recommended ≡ false
      → IsSuited model hw (refuse S n p)
  unfolding refuse
  refuse-IsSuited n p placed no_verdict = record {
    listed = placed.listed;
    fits = placed.fits;
    capped = placed.capped;
    reachable = placed.reachable;
    reserved = placed.reserved;
    suits = no_verdict;
    faster = inl no_verdict;
    backed = inl no_verdict;
  }

  -- The stages after the class is chosen.
  timed-IsSuited :
      (p : ExecutionPlan S) (k : ExecClass) (hit floor : S.F) (concurrency : ℕ) (specialised : Bool)
      → 0 < concurrency
      → Placed model hw p
      → Chosen S laws model hw p (Choice.way k hit floor)
      → (q : ExecutionPlan S) × (finish S model hw concurrency specialised p
            (Choice.way k hit floor)
          ≡ ok q)
        × IsSuited model hw q
  unfolding finish set_choice
  timed-IsSuited p k hit floor concurrency specialised some_tokens placed chosen =
      let r = record p { exec_class = k; hit_rate = hit; hit_rate_floor = floor } in
      let (batch, e1) = batch_bytes-Defined S laws model hw concurrency specialised some_tokens in
      let (t, e2) =
        time_for-Defined S laws model hw batch r k (Chosen-needs_gpu p k hit floor chosen) in
      let (u, e3, keeps) = set_time-Defined S laws model hw batch t r in
      let (q, e4, suited) =
        judge-IsSuited u
          (record {
            listed = subst (Listed model hw.gpus) (sym keeps.same_devices) placed.listed;
            fits = subst (All Fits) (sym keeps.same_devices) placed.fits;
            capped = ground (arith, placed.capped, keeps.same_total);
            reachable =
                omega
                  (arith, placed.reachable, keeps.same_total, ap usable_total keeps.same_devices);
            resident = keeps.same_resident ∙ placed.resident;
            reserved = ground (arith, placed.reserved, keeps.same_warm);
          })
          (λ j.
            subst₂ (λ d c. Suits model hw d j c) (sym keeps.same_devices) (sym keeps.same_class)
              (Chosen-Suits p k hit floor placed.resident chosen j)) in
      (q, rw (e1, e2, e3) e4, suited)

  finish-IsSuited :
      (p : ExecutionPlan S) (c : Choice S) (concurrency : ℕ) (specialised : Bool)
      → 0 < concurrency
      → Placed model hw p
      → p.recommended ≡ false
      → Chosen S laws model hw p c
      → (q : ExecutionPlan S) × (finish S model hw concurrency specialised p c ≡ ok q)
        × IsSuited model hw q
  unfolding finish
  finish-IsSuited p Choice.no_way concurrency specialised some_tokens placed no_verdict chosen =
      (refuse S no_path p, refl, refuse-IsSuited no_path p placed no_verdict)
  finish-IsSuited p (Choice.way k hit floor) concurrency specialised some_tokens placed no_verdict
        chosen =
      timed-IsSuited p k hit floor concurrency specialised some_tokens placed chosen

  refuse_empty-IsSuited :
      (n : Note) (context concurrency : ℕ)
      → IsSuited model hw (refuse S n (empty_plan S context concurrency))
  unfolding refuse usable_total
  refuse_empty-IsSuited n context concurrency = record {
    listed = inl refl;
    fits = tt;
    capped = inr (omega arith);
    reachable = omega arith;
    reserved = inl refl;
    suits = refl;
    faster = inl refl;
    backed = inl refl;
  }

  -- For a concurrency of at least one, `plan` returns a plan, of any model for any machine. Its
  -- devices are none or those of the machine, in its order. In it, a device has no capacity for experts or holds them with the fixed path and the cache; the total is
  -- at most the bank, if there is one, and the sum over the devices; pinned bytes leave 2 GiB of the
  -- usable RAM; the class suits the machine: `FULL_GPU` only with devices that hold the bank,
  -- `GPU_HOT_TIER` only with capacity on a device and the bank in RAM, `CPU_EXPERT` only with the bank
  -- in RAM, and `STORAGE_BACKED` only when the bank does not fit RAM. A recommended plan is not of the
  -- class `REFERENCE`, has a low speedup of 1.10 or more, and has bytes to pin if it is storage-backed.
  pub plan-IsSuited :
      (context concurrency : ℕ) (specialised allow_cpu : Bool)
      → 0 < concurrency
      → (q : ExecutionPlan S) × (plan S model hw context concurrency specialised allow_cpu ≡ ok q)
        × IsSuited model hw q
  unfolding plan
  plan-IsSuited context concurrency specialised allow_cpu some_tokens =
      by_flags model.supported model.calibrated
    where
      planned :
          (q : ExecutionPlan S) × ((place S model hw context concurrency
                (empty_plan S context concurrency)
              >>= λ q. choose S model hw specialised allow_cpu q >>= λ c.
                  finish S model hw concurrency specialised q c)
            ≡ ok q)
          × IsSuited model hw q
      planned =
          let (q, e1, placed, same) =
            place-Placed S laws model hw context concurrency (empty_plan S context concurrency) in
          let (c, e2, chosen) = choose-Chosen S laws model hw specialised allow_cpu q in
          let (r, e3, suited) =
            finish-IsSuited q c concurrency specialised some_tokens placed same chosen in
          (r, rw (e1, e2) e3, suited)

      by_flags :
          (known measured : Bool)
          → (q : ExecutionPlan S) × ((if not known
                then ok (refuse S not_supported (empty_plan S context concurrency))
                else (if not measured
                    then ok (refuse S not_calibrated (empty_plan S context concurrency))
                    else (place S model hw context concurrency (empty_plan S context concurrency)
                        >>= λ q. choose S model hw specialised allow_cpu q >>= λ c.
                            finish S model hw concurrency specialised q c)))
              ≡ ok q)
            × IsSuited model hw q
      by_flags false m = (_, refl, refuse_empty-IsSuited not_supported context concurrency)
      by_flags true false = (_, refl, refuse_empty-IsSuited not_calibrated context concurrency)
      by_flags true true = planned
