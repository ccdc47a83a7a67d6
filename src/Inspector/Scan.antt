-- ===== src/Inspector/Scan.antt =====
-- The table of the tensors of all shards, and the loop over the expert tensors.
pub mod Sliced
use sabah_mo_e_accelerator.Base.{
  ℕ, zero, suc, ◌+◌, ◌*◌, ◌/◌, ◌%◌, ◌&&◌, Bool, true, false, List, [], ◌∷◌, Option, none, some,
  lookup, insert, ◌==◌, if◌then◌else◌, ℕ_discrete,
}
use sabah_mo_e_accelerator.Tier.Types.{Role}
use sabah_mo_e_accelerator.Inspector.Types.{
  Quant, quant_block, is_runtime, Patterns, Tensor, ExpertTensorInfo, Note, not_slowest,
  unknown_quant, not_decodable, not_aligned,
}

-- The tensors of a shard, and those of all shards from shard `si` on.
unfoldable pub add_tensors : ℕ → List (ℕ × Tensor) → List (ℕ × Tensor) → List (ℕ × Tensor)
add_tensors si [] tensors = tensors
add_tensors si (t ∷ ts) tensors =
    add_tensors si ts (insert ℕ_discrete t.0 (record t.1 { shard = si }) tensors)

unfoldable pub add_shards : ℕ → List (List (ℕ × Tensor)) → List (ℕ × Tensor) → List (ℕ × Tensor)
unfolding add_tensors
add_shards si [] tensors = tensors
add_shards si (s ∷ ss) tensors = add_shards (si + 1) ss (add_tensors si s tensors)

-- A tensor that no pattern fits, one that is left out with a note, or an entry of `exp_info`, with a
-- note if it is not contiguous.
pub data Finding : Type 0 where
  no_expert : Finding
  left_out : Note → Finding
  listed : ExpertTensorInfo → Finding

-- The slice of a tensor whose quantization is known.
unfoldable pub slice_info : ℕ → ℕ → ℕ → Role → Tensor → ℕ → ℕ → ℕ × ℕ → ExpertTensorInfo
slice_info n_experts name block role t s0 s1 ebk =
    let elems = s0 * s1 in
    let per_expert = elems / ebk.0 * ebk.1 in
    record {
      name = name;
      block = block;
      role = role;
      qtype = t.qtype;
      shape = t.shape;
      tensor_bytes = t.bytes;
      per_expert_bytes = per_expert;
      shard = t.shard;
      offset = t.offset;
      contiguous = elems % ebk.0 == 0 && s0 % ebk.0 == 0 && per_expert * n_experts == t.bytes;
    }

-- The quantization of a tensor whose third axis is that of the experts.
unfoldable pub examine_quant : ℕ → ℕ → ℕ → Role → Tensor → ℕ → ℕ → Option (ℕ × ℕ) → Finding
unfolding slice_info
examine_quant n_experts name block role t s0 s1 none = left_out (unknown_quant name)
examine_quant n_experts name block role t s0 s1 (some ebk) =
    if is_runtime t.qtype
    then listed (slice_info n_experts name block role t s0 s1 ebk)
    else left_out (not_decodable name)

-- The body of the loop for a name that fits a pattern.
unfoldable pub examine_shape : ℕ → ℕ → ℕ → Role → Tensor → List ℕ → Finding
unfolding examine_quant
examine_shape n_experts name block role t (s0 ∷ s1 ∷ s2 ∷ ss) =
    if s2 == n_experts
    then examine_quant n_experts name block role t s0 s1 (quant_block t.qtype)
    else left_out (not_slowest name)
examine_shape n_experts name block role t (s0 ∷ s1 ∷ []) = left_out (not_slowest name)
examine_shape n_experts name block role t (s0 ∷ []) = left_out (not_slowest name)
examine_shape n_experts name block role t [] = left_out (not_slowest name)

unfoldable pub examine_name : ℕ → ℕ → Tensor → Option (ℕ × Role) → Finding
unfolding examine_shape
examine_name n_experts name t none = no_expert
examine_name n_experts name t (some k) = examine_shape n_experts name k.0 k.1 t t.shape

-- `exp_info`, `all_contig` and the notes.
pub record Scanned : Type 0 where
  pub exp_info : List ExpertTensorInfo
  pub all_contig : Bool
  pub notes : List Note

abbrev pub add_finding : Finding → Scanned → Scanned
add_finding no_expert s = s
add_finding (left_out n) s = record s { all_contig = false; notes = n ∷ s.notes }
add_finding (listed i) s = record {
  exp_info = i ∷ s.exp_info;
  all_contig = i.contiguous && s.all_contig;
  notes = if i.contiguous then s.notes else not_aligned i.name ∷ s.notes;
}

-- The loop, with what the tensors to come give added behind.
unfoldable pub scan : Patterns → ℕ → List (ℕ × Tensor) → Scanned
unfolding examine_name
scan pats n_experts [] = record { exp_info = []; all_contig = true; notes = [] }
scan pats n_experts (t ∷ ts) =
    add_finding (examine_name n_experts t.0 t.1 (pats.expert_name t.0)) (scan pats n_experts ts)

-- `blk_cost`: the bytes of an expert of each block.
abbrev pub or_none : Option ℕ → ℕ
or_none none = 0
or_none (some n) = n

unfoldable pub block_costs : List ExpertTensorInfo → List (ℕ × ℕ) → List (ℕ × ℕ)
block_costs [] costs = costs
block_costs (i ∷ is) costs = block_costs is (
    insert ℕ_discrete i.block (or_none (lookup ℕ_discrete i.block costs) + i.per_expert_bytes)
      costs)

-- `sum(e.tensor_bytes for e in exp_info)` and `exp_names`
abbrev pub info_bytes : List ExpertTensorInfo → ℕ
info_bytes [] = 0
info_bytes (i ∷ is) = i.tensor_bytes + info_bytes is

abbrev pub info_names : List ExpertTensorInfo → List ℕ
info_names [] = []
info_names (i ∷ is) = i.name ∷ info_names is

-- `sum(blk_cost.values())`
abbrev pub total_cost : List (ℕ × ℕ) → ℕ
total_cost [] = 0
total_cost (c ∷ cs) = c.1 + total_cost cs
