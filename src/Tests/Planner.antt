-- ===== src/Tests/Planner.antt =====
-- The planner with numbers in units of 0.0001, rounded up in products.
use sabah_mo_e_accelerator.Base.{
  ℕ, zero, suc, ◌+◌, ◌-◌, ◌*◌, ◌/◌, ◌<◌, ◌≡◌, refl, true, false, List, [], ◌∷◌, ltb, leb, ◌==◌,
  if◌then◌else◌, has, ℕ_discrete, sort, ok, ◌>>=◌, Distinct, keys, arith,
}
use sabah_mo_e_accelerator.Planner.Types.{
  Scalar, Laws, Model, Gpu, Hardware, ExecutionPlan, gpu_hot_tier,
}
use sabah_mo_e_accelerator.Planner.Warm.{select_warm_blocks}
use sabah_mo_e_accelerator.Planner.Warm.Best.{IsBest, select_warm_blocks-IsBest}
use sabah_mo_e_accelerator.Planner.Plan.{plan}
use sabah_mo_e_accelerator.Planner.Plan.Decided.{IsSuited, plan-IsSuited}

abbrev pub literal : ℕ → ℕ → ℕ
literal n zero = n * 10000
literal n (suc zero) = n * 1000
literal n (suc (suc zero)) = n * 100
literal n (suc (suc (suc zero))) = n * 10
literal n (suc (suc (suc (suc k)))) = n

abbrev pub fixed_point : Scalar
fixed_point = record {
  F = ℕ;
  nat = λ n. n * 10000;
  lit = literal;
  inf = 1000000000000000000000000;
  add = λ x y. x + y;
  sub = λ x y. x - y;
  mul = λ x y. (x * y + 9999) / 10000;
  div = λ x y. x * 10000 / y;
  lt = ltb;
  le = leb;
  is_zero = λ x. x == 0;
  trunc = λ x. x / 10000;
}

literal_nonzero : (n k : ℕ) → 0 < n → (literal n k == 0) ≡ false
literal_nonzero n zero h = ground arith
literal_nonzero n (suc zero) h = ground arith
literal_nonzero n (suc (suc zero)) h = ground arith
literal_nonzero n (suc (suc (suc zero))) h = ground arith
literal_nonzero n (suc (suc (suc (suc k)))) h = ground arith

pub laws : Laws fixed_point
laws = record {
  nat_nonzero = λ n h. ground arith;
  lit_nonzero = literal_nonzero;
  positive_nonzero = λ x h. ground arith;
  nat_positive = λ n h. ground arith;
  above_positive = λ x y h l. ground arith;
  giga_positive = λ x h. ground arith;
  giga_nonzero = λ x h. ground arith;
  efficient_positive = λ x h. ground arith;
  zero_add_positive = λ x h. ground arith;
  add_positive = λ x y h l. ground arith;
}

abbrev pub per : List (ℕ × ℕ)
per = (0, 3000000000) ∷ (1, 1000000000) ∷ (2, 2000000000) ∷ []

abbrev pub model : Model
model = record {
  supported = true;
  calibrated = true;
  n_blocks = 3;
  n_experts = 10;
  expert_bank_bytes = 60000000000;
  fixed_bytes = 4000000000;
  per_token_expert_bytes = 12000000000;
  per_block_expert_bytes = per;
}

abbrev gpu : Gpu fixed_point
gpu = record { index = 0; vram_usable = 24000000000; h2d_solo_gbps = 250000 }

abbrev machine : ℕ → Hardware fixed_point
machine ram = record {
  gpus = gpu ∷ [];
  ram_usable = ram;
  ram_bandwidth_gbps = 600000;
  effective_h2d_gbps = 250000;
  h2d_contention_factor = 10000;
  storage_read_gbps = 30000;
}

program : Unit {0}
unfolding plan select_warm_blocks sort has ℕ_discrete
program = tt

-- Thirty-five gigabytes pin the two smaller blocks.
two_blocks : select_warm_blocks 10 per 35000000000 ≡ 1 ∷ 2 ∷ []
unfolding program
two_blocks = refl

in_ram :
    (plan fixed_point model (machine 64000000000) 8192 1 false true >>= λ p. ok p.exec_class)
    ≡ ok gpu_hot_tier
unfolding program
in_ram = refl

off_ram :
    (plan fixed_point model (machine 40000000000) 8192 1 false true >>= λ p. ok p.warm_blocks)
    ≡ ok (1 ∷ 2 ∷ [])
unfolding program
off_ram = refl

-- With bytes to pin that no block fits, the storage-backed plan is judged as if some were pinned.
nothing_pinned :
    (plan fixed_point model (machine 5000000000) 8192 1 false true >>= λ p.
    ok (if ltb 0 p.warm_bytes then p.warm_blocks else 0 ∷ []))
    ≡ ok []
unfolding program
nothing_pinned = refl

plan-IsSuited_example :
    (q : ExecutionPlan fixed_point) × (plan fixed_point model
        (machine 40000000000)
        8192
        1
        false
        true
      ≡ ok q)
    × IsSuited model (machine 40000000000) q
plan-IsSuited_example =
    plan-IsSuited fixed_point laws model (machine 40000000000) 8192 1 false true (omega arith)

per-Distinct : Distinct ℕ_discrete (keys per)
unfolding program
per-Distinct = (refl, (refl, (refl, tt)))

select_warm_blocks-IsBest_example :
    IsBest 10 per 35000000000 (λ b. b == 0) 1 (select_warm_blocks 10 per 35000000000)
select_warm_blocks-IsBest_example =
    select_warm_blocks-IsBest 10 per 35000000000 (λ b. b == 0) 1 per-Distinct (omega arith)
