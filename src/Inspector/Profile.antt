-- ===== src/Inspector/Profile.antt =====
-- `inspect_model`, of what the reader gives.
pub mod Partition
pub mod Supported
use sabah_mo_e_accelerator.Base.{
  ℕ, ◌+◌, ◌*◌, ◌&&◌, ◌||◌, not, Bool, true, false, List, [], ◌∷◌, ◌++◌, length, has, ◌==◌,
  if◌then◌else◌, ℕ_discrete,
}
use sabah_mo_e_accelerator.Inspector.Types.{
  Patterns, Tensor, Header, ExpertTensorInfo, ModelProfile, Note, not_registered, not_moe,
  not_contiguous, verified,
}
use sabah_mo_e_accelerator.Inspector.Scan.{
  add_shards, info_bytes, info_names, total_cost, Scanned, scan, block_costs,
}

-- `sum(t["bytes"] for t in tensors.values())`
abbrev pub total_bytes : List (ℕ × Tensor) → ℕ
total_bytes [] = 0
total_bytes (t ∷ ts) = t.1.bytes + total_bytes ts

-- The classes of bytes, with the tensors of two of them.
pub record Split : Type 0 where
  pub routed : ℕ
  pub lookup_bytes : ℕ
  pub fixed_bytes : ℕ
  pub lookup_tensors : List (ℕ × Tensor)
  pub fixed_tensors : List (ℕ × Tensor)

-- The loop over all tensors, with what the tensors to come give added.
unfoldable pub split : Patterns → List ℕ → List (ℕ × Tensor) → Split
split pats exp_names [] = record {
  routed = 0;
  lookup_bytes = 0;
  fixed_bytes = 0;
  lookup_tensors = [];
  fixed_tensors = [];
}
split pats exp_names (t ∷ ts) =
    let s = split pats exp_names ts in
    if has ℕ_discrete t.0 exp_names
    then record s { routed = t.1.bytes + s.routed }
    else (if pats.lookup_name t.0
        then record s {
          lookup_bytes = t.1.bytes + s.lookup_bytes;
          lookup_tensors = t ∷ s.lookup_tensors;
        }
        else record s {
          fixed_bytes = t.1.bytes + s.fixed_bytes;
          fixed_tensors = t ∷ s.fixed_tensors;
        })

-- The profile before the geometry is read.
abbrev pub bare_profile : List (ℕ × Tensor) → ModelProfile
bare_profile tensors = record {
  n_tensors = length tensors;
  tensor_bytes = total_bytes tensors;
  n_blocks = 0;
  d_model = 0;
  n_experts = 0;
  n_experts_used = 0;
  expert_ff = 0;
  context_length = 0;
  expert_bank_bytes = 0;
  fixed_bytes = 0;
  lookup_bytes = 0;
  routed_bytes = 0;
  per_block_expert_bytes = [];
  per_token_expert_bytes = 0;
  fixed_tensors = [];
  lookup_tensors = [];
  experts_contiguous = false;
  expert_tensors = [];
  supported = false;
  notes = [];
}

abbrev pub read_geometry : Header → ModelProfile → ModelProfile
read_geometry h p = record p {
  n_blocks = h.block_count;
  d_model = h.embedding_length;
  n_experts = h.expert_count;
  n_experts_used = h.expert_used_count;
  expert_ff = h.expert_feed_forward_length;
  context_length = h.context_length;
}

abbrev pub any_info : List ExpertTensorInfo → Bool
any_info [] = false
any_info (i ∷ is) = true

-- The profile of a model with experts.
unfoldable pub profile_experts : Patterns → List (ℕ × Tensor) → ModelProfile → ModelProfile
unfolding scan block_costs split
profile_experts pats tensors p =
    let s = scan pats p.n_experts tensors in
    let costs = block_costs s.exp_info [] in
    let parts = split pats (info_names s.exp_info) tensors in
    let contiguous = s.all_contig && any_info s.exp_info in
    record p {
      expert_tensors = s.exp_info;
      experts_contiguous = contiguous;
      per_block_expert_bytes = costs;
      expert_bank_bytes = info_bytes s.exp_info;
      per_token_expert_bytes = total_cost costs * p.n_experts_used;
      fixed_bytes = parts.fixed_bytes;
      lookup_bytes = parts.lookup_bytes;
      routed_bytes = parts.routed;
      fixed_tensors = parts.fixed_tensors;
      lookup_tensors = parts.lookup_tensors;
      supported = contiguous;
      notes = s.notes ++ (if contiguous then verified (length s.exp_info) else not_contiguous) ∷ [];
    }

-- `inspect_model`
unfoldable pub inspect_model : Patterns → Header → List (List (ℕ × Tensor)) → ModelProfile
unfolding add_shards profile_experts
inspect_model pats h shards =
    let tensors = add_shards 0 shards [] in
    let bare = bare_profile tensors in
    let p = read_geometry h bare in
    if h.registered
    then (if h.expert_count == 0 || h.expert_used_count == 0 || h.block_count == 0
        then record p { notes = not_moe ∷ [] }
        else profile_experts pats tensors p)
    else record bare { notes = not_registered ∷ [] }
