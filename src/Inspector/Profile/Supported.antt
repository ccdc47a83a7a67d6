-- ===== src/Inspector/Profile/Supported.antt =====
-- What it means that a profile is supported.
use sabah_mo_e_accelerator.Base.{
  ℕ, ◌*◌, ◌<◌, ◌≡◌, refl, ◌⊎◌, ◌||◌, Bool, true, false, List, [], ◌∷◌, none, ◌==◌, has, keys,
  if◌then◌else◌, ℕ_discrete, All, arith,
}
use sabah_mo_e_accelerator.Inspector.Types.{
  Patterns, Tensor, Header, ModelProfile, not_moe, not_registered,
}
use sabah_mo_e_accelerator.Inspector.Scan.{scan, add_shards, info_names, total_cost}
use sabah_mo_e_accelerator.Inspector.Scan.Sliced.{
  IsSliced, scan-IsSliced, scan_complete, block_costs-whole,
}
use sabah_mo_e_accelerator.Inspector.Profile.{
  any_info, bare_profile, read_geometry, profile_experts, inspect_model,
}

-- What a supported profile says of the model.
pub record IsSupported (pats : Patterns) (p : ModelProfile) (name : ℕ) : Type 0 where
  pub some_experts : 0 < p.n_experts
  pub some_used : 0 < p.n_experts_used
  pub some_blocks : 0 < p.n_blocks
  pub some_tensors : any_info p.expert_tensors ≡ true
  pub sliced : All (IsSliced p.n_experts) p.expert_tensors
  pub complete :
      (pats.expert_name name ≡ none) ⊎ (has ℕ_discrete name (info_names p.expert_tensors) ≡ true)
  pub whole : total_cost p.per_block_expert_bytes * p.n_experts ≡ p.expert_bank_bytes

-- The profile of a model with experts, when its proof of contiguity succeeds.
profile_experts-IsSupported :
    (pats : Patterns) (tensors : List (ℕ × Tensor)) (p : ModelProfile) (name : ℕ)
    → 0 < p.n_experts
    → 0 < p.n_experts_used
    → 0 < p.n_blocks
    → (profile_experts pats tensors p).supported ≡ true
    → has ℕ_discrete name (keys tensors) ≡ true
    → IsSupported pats (profile_experts pats tensors p) name
unfolding profile_experts
profile_experts-IsSupported pats tensors p name e u b supported present =
    let s = scan pats p.n_experts tensors in
    let contiguous : s.all_contig ≡ true = ground arith in
    let sliced = scan-IsSliced pats p.n_experts tensors contiguous in
    record {
      some_experts = e;
      some_used = u;
      some_blocks = b;
      some_tensors = ground arith;
      sliced = sliced;
      complete = scan_complete pats p.n_experts tensors name contiguous present;
      whole = block_costs-whole p.n_experts s.exp_info sliced;
    }

-- If a profile is supported, its model has blocks, experts and experts used, and some expert tensor;
-- in every listed tensor the slices of the experts fill the tensor, in a quantization that the
-- runtime decodes; every tensor of the table whose name fits a pattern is listed; and the bytes of an
-- expert of every block, times the experts, are the bytes of the bank.
pub inspect_model-IsSupported :
    (pats : Patterns) (h : Header) (shards : List (List (ℕ × Tensor))) (name : ℕ)
    → (inspect_model pats h shards).supported ≡ true
    → has ℕ_discrete name (keys (add_shards 0 shards [])) ≡ true
    → IsSupported pats (inspect_model pats h shards) name
unfolding inspect_model
inspect_model-IsSupported pats h shards name =
    by_flags h.registered (h.expert_count == 0 || h.expert_used_count == 0 || h.block_count == 0)
      refl
  where
    tensors : List (ℕ × Tensor)
    tensors = add_shards 0 shards []

    bare : ModelProfile
    bare = bare_profile tensors

    by_flags :
        (known unusable : Bool)
        → (h.expert_count == 0 || h.expert_used_count == 0 || h.block_count == 0) ≡ unusable
        → (if known
            then (if unusable
                then record (read_geometry h bare) { notes = not_moe ∷ [] }
                else profile_experts pats tensors (read_geometry h bare))
            else record bare { notes = not_registered ∷ [] }).supported
          ≡ true
        → has ℕ_discrete name (keys tensors) ≡ true
        → IsSupported pats
            (if known
              then (if unusable
                  then record (read_geometry h bare) { notes = not_moe ∷ [] }
                  else profile_experts pats tensors (read_geometry h bare))
              else record bare { notes = not_registered ∷ [] })
            name
    by_flags false unusable q supported present = absurd (cc)
    by_flags true true q supported present = absurd (cc)
    by_flags true false q supported present =
        profile_experts-IsSupported pats tensors (read_geometry h bare) name (ground (arith, q))
          (ground (arith, q)) (ground (arith, q)) supported present
