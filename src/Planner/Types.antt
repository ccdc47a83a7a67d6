-- ===== src/Planner/Types.antt =====
-- The data of sabah/planner/planner.py. Floating-point numbers are an interface, `Scalar`.
use sabah_mo_e_accelerator.Base.{
  ℕ, ◌<◌, ◌≡◌, Bool, true, false, List, [], ◌∷◌, if◌then◌else◌, Result, ok, raise, Error,
}

-- Python's `float`: `lit n k` is the literal that is `n` divided by ten to the power `k`.
pub record Scalar : Type 1 where
  pub F : Type 0
  pub nat : ℕ → F
  pub lit : ℕ → ℕ → F
  pub inf : F
  pub add : F → F → F
  pub sub : F → F → F
  pub mul : F → F → F
  pub div : F → F → F
  pub lt : F → F → Bool
  pub le : F → F → Bool
  pub is_zero : F → Bool
  pub trunc : F → ℕ

-- `x / y`
unfoldable pub quot : (S : Scalar) → S.F → S.F → Result S.F
quot S x y = if S.is_zero y then raise Error.zero_division_error else ok (S.div x y)

-- `max(x, y)` and `min(x, y)`
abbrev pub larger : (S : Scalar) → S.F → S.F → S.F
larger S x y = if S.lt x y then y else x

abbrev pub smaller : (S : Scalar) → S.F → S.F → S.F
smaller S x y = if S.lt y x then y else x

-- What the planner relies on so that no division is by zero: numbers above zero and literals are not
-- zero, and sums and the scalings by `1e9` and `0.75` keep them so.
pub record Laws (S : Scalar) : Type 0 where
  pub nat_nonzero : (n : ℕ) → 0 < n → S.is_zero (S.nat n) ≡ false
  pub lit_nonzero : (n k : ℕ) → 0 < n → S.is_zero (S.lit n k) ≡ false
  pub positive_nonzero : (x : S.F) → S.lt (S.nat 0) x ≡ true → S.is_zero x ≡ false
  pub nat_positive : (n : ℕ) → 0 < n → S.lt (S.nat 0) (S.nat n) ≡ true
  pub above_positive :
      (x y : S.F) → S.lt x y ≡ false → S.lt (S.nat 0) y ≡ true → S.lt (S.nat 0) x ≡ true
  pub giga_positive :
      (x : S.F) → S.lt (S.nat 0) x ≡ true → S.lt (S.nat 0) (S.mul x (S.nat 1000000000)) ≡ true
  pub giga_nonzero :
      (x : S.F) → S.is_zero x ≡ false → S.is_zero (S.mul x (S.nat 1000000000)) ≡ false
  pub efficient_positive :
      (x : S.F) → S.lt (S.nat 0) x ≡ true → S.lt (S.nat 0) (S.mul x (S.lit 75 2)) ≡ true
  pub zero_add_positive :
      (x : S.F) → S.lt (S.nat 0) x ≡ true → S.lt (S.nat 0) (S.add (S.nat 0) x) ≡ true
  pub add_positive :
      (x y : S.F)
      → S.lt (S.nat 0) x ≡ true
      → S.lt (S.nat 0) y ≡ true
      → S.lt (S.nat 0) (S.add x y) ≡ true

-- `ExecClass`
pub data ExecClass : Type 0 where
  full_gpu gpu_hot_tier cpu_expert storage_backed reference : ExecClass

-- What the planner reads of a model profile. The dictionary of block sizes has its insertion order.
pub record Model : Type 0 where
  pub supported : Bool
  pub calibrated : Bool
  pub n_blocks : ℕ
  pub n_experts : ℕ
  pub expert_bank_bytes : ℕ
  pub fixed_bytes : ℕ
  pub per_token_expert_bytes : ℕ
  pub per_block_expert_bytes : List (ℕ × ℕ)

-- What the planner reads of a device and of a machine. A missing storage rate is zero.
pub record Gpu (S : Scalar) : Type 0 where
  pub index : ℕ
  pub vram_usable : ℕ
  pub h2d_solo_gbps : S.F

pub record Hardware (S : Scalar) : Type 0 where
  pub gpus : List (Gpu S)
  pub ram_usable : ℕ
  pub ram_bandwidth_gbps : S.F
  pub effective_h2d_gbps : S.F
  pub h2d_contention_factor : S.F
  pub storage_read_gbps : S.F

-- `not hw.gpus`
abbrev pub no_gpus : {S : Scalar} → List (Gpu S) → Bool
no_gpus [] = true
no_gpus (g ∷ gs) = false

-- `DevicePlan`
pub record DevicePlan : Type 0 where
  pub index : ℕ
  pub vram_usable : ℕ
  pub fixed_bytes : ℕ
  pub kv_workspace_bytes : ℕ
  pub expert_capacity : ℕ

pub data Bottleneck : Type 0 where
  unknown expert_streaming gpu_fixed_path cpu_expert_bandwidth storage_reads : Bottleneck

pub data Confidence : Type 0 where
  low medium high : Confidence

-- The notes, by what they say.
pub data Note : Type 0 where
  not_supported not_calibrated bank_off_ram warm_too_small no_path no_warm_tier undersized
        storage_fallback below_bar :
      Note
  starved : List ℕ → Note
  warm_pinned : ℕ → Note

-- The limitations.
pub data Limitation : Type 0 where
  measured_curve projected root_complex : Limitation

-- `ExecutionPlan`, without the texts.
pub record ExecutionPlan (S : Scalar) : Type 0 where
  pub exec_class : ExecClass
  pub devices : List DevicePlan
  pub expert_capacity_total : ℕ
  pub expert_capacity_frac_of_bank : S.F
  pub ram_bank_resident : Bool
  pub ram_bank_bytes : ℕ
  pub warm_bytes : ℕ
  pub warm_blocks : List ℕ
  pub fixed_bytes : ℕ
  pub fixed_resident : Bool
  pub hit_rate : S.F
  pub hit_rate_floor : S.F
  pub miss_bytes_per_token : ℕ
  pub t_fixed_ms : S.F
  pub t_expert_compute_ms : S.F
  pub t_expert_fetch_ms : S.F
  pub t_token_ms : S.F
  pub projected_tok_s_low : S.F
  pub projected_tok_s_high : S.F
  pub confidence : Confidence
  pub bottleneck : Bottleneck
  pub reference_tok_s_estimate : S.F
  pub projected_speedup_low : S.F
  pub projected_speedup_high : S.F
  pub recommended : Bool
  pub concurrency : ℕ
  pub context : ℕ
  pub notes : List Note
  pub limitations : List Limitation
