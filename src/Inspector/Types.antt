-- ===== src/Inspector/Types.antt =====
-- The data of sabah/core/model_inspector.py. Tensor names are numbers; the regular expressions and the
-- tests of prefixes on them are `Patterns`.
use sabah_mo_e_accelerator.Base.{ℕ, Bool, true, false, List, Option, none, some}
use sabah_mo_e_accelerator.Tier.Types.{Role}

-- `tensor_type.name`: the names of `QUANT_BLOCK`, or another.
pub data Quant : Type 0 where
  f32 f16 bf16 q4_0 q4_1 q5_0 q5_1 q8_0 iq4_nl q2_k q3_k q4_k q5_k q6_k q8_k iq3_xxs iq3_s iq2_s
        iq4_xs q2_0 other_quant :
      Quant

-- `QUANT_BLOCK.get`: the elements and the bytes of a block.
abbrev pub quant_block : Quant → Option (ℕ × ℕ)
quant_block f32 = some (1, 4)
quant_block f16 = some (1, 2)
quant_block bf16 = some (1, 2)
quant_block q4_0 = some (32, 18)
quant_block q4_1 = some (32, 20)
quant_block q5_0 = some (32, 22)
quant_block q5_1 = some (32, 24)
quant_block q8_0 = some (32, 34)
quant_block iq4_nl = some (32, 18)
quant_block q2_k = some (256, 84)
quant_block q3_k = some (256, 110)
quant_block q4_k = some (256, 144)
quant_block q5_k = some (256, 176)
quant_block q6_k = some (256, 210)
quant_block q8_k = some (256, 292)
quant_block iq3_xxs = some (256, 98)
quant_block iq3_s = some (256, 110)
quant_block iq2_s = some (256, 82)
quant_block iq4_xs = some (256, 136)
quant_block q2_0 = some (64, 18)
quant_block other_quant = none

-- `RUNTIME_QUANTS`
abbrev pub is_runtime : Quant → Bool
is_runtime f32 = false
is_runtime f16 = false
is_runtime bf16 = false
is_runtime q4_0 = false
is_runtime q4_1 = false
is_runtime q5_0 = false
is_runtime q5_1 = true
is_runtime q8_0 = true
is_runtime iq4_nl = true
is_runtime q2_k = false
is_runtime q3_k = false
is_runtime q4_k = true
is_runtime q5_k = true
is_runtime q6_k = false
is_runtime q8_k = false
is_runtime iq3_xxs = true
is_runtime iq3_s = true
is_runtime iq2_s = true
is_runtime iq4_xs = true
is_runtime q2_0 = true
is_runtime other_quant = false

-- The three patterns of an architecture, which no name fits twice: the block and the role of a name
-- that fits one. The test for a name of a lookup table.
pub record Patterns : Type 0 where
  pub expert_name : ℕ → Option (ℕ × Role)
  pub lookup_name : ℕ → Bool

-- An entry of `tensors`.
pub record Tensor : Type 0 where
  pub shard : ℕ
  pub offset : ℕ
  pub bytes : ℕ
  pub qtype : Quant
  pub shape : List ℕ

-- What the reader gives of the first shard. `registered` is `spec is not None`.
pub record Header : Type 0 where
  pub registered : Bool
  pub block_count : ℕ
  pub embedding_length : ℕ
  pub expert_count : ℕ
  pub expert_used_count : ℕ
  pub expert_feed_forward_length : ℕ
  pub context_length : ℕ

-- `ExpertTensorInfo`
pub record ExpertTensorInfo : Type 0 where
  pub name : ℕ
  pub block : ℕ
  pub role : Role
  pub qtype : Quant
  pub shape : List ℕ
  pub tensor_bytes : ℕ
  pub per_expert_bytes : ℕ
  pub shard : ℕ
  pub offset : ℕ
  pub contiguous : Bool

-- The notes, by what they say.
pub data Note : Type 0 where
  not_registered not_moe not_contiguous : Note
  not_slowest unknown_quant not_decodable not_aligned : ℕ → Note
  verified : ℕ → Note

-- `ModelProfile`, without the texts.
pub record ModelProfile : Type 0 where
  pub n_tensors : ℕ
  pub tensor_bytes : ℕ
  pub n_blocks : ℕ
  pub d_model : ℕ
  pub n_experts : ℕ
  pub n_experts_used : ℕ
  pub expert_ff : ℕ
  pub context_length : ℕ
  pub expert_bank_bytes : ℕ
  pub fixed_bytes : ℕ
  pub lookup_bytes : ℕ
  pub routed_bytes : ℕ
  pub per_block_expert_bytes : List (ℕ × ℕ)
  pub per_token_expert_bytes : ℕ
  pub fixed_tensors : List (ℕ × Tensor)
  pub lookup_tensors : List (ℕ × Tensor)
  pub experts_contiguous : Bool
  pub expert_tensors : List ExpertTensorInfo
  pub supported : Bool
  pub notes : List Note
