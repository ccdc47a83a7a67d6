-- ===== src/Inspector/Profile/Partition.antt =====
-- What `inspect_model` says of the bytes of a model.
use sabah_mo_e_accelerator.Base.{
  ℕ, ◌+◌, ◌≡◌, refl, ◌||◌, true, false, List, [], ◌∷◌, ◌==◌, has, keys, ℕ_discrete, Distinct,
  Distinct-insert, arith,
}
use sabah_mo_e_accelerator.Inspector.Types.{Patterns, Tensor, Header}
use sabah_mo_e_accelerator.Inspector.Scan.{
  Finding, no_expert, left_out, listed, examine_name, add_finding, scan, add_tensors, add_shards,
  info_bytes, info_names,
}
use sabah_mo_e_accelerator.Inspector.Scan.Sliced.{Sound, examine_name-Sound}
use sabah_mo_e_accelerator.Inspector.Profile.{total_bytes, split, profile_experts, inspect_model}

split-total :
    (pats : Patterns) (names : List ℕ) (ts : List (ℕ × Tensor))
    → (split pats names ts).routed
        + (split pats names ts).lookup_bytes
        + (split pats names ts).fixed_bytes
      ≡ total_bytes ts
unfolding split
split-total pats names [] = refl
split-total pats names (t ∷ ts) = ground (arith, split-total pats names ts)

-- Only the membership of the tensors' own names counts.
split-ext :
    (pats : Patterns) (names names' : List ℕ) (ts : List (ℕ × Tensor))
    → ((n : ℕ)
        → has ℕ_discrete n (keys ts) ≡ true
        → has ℕ_discrete n names ≡ has ℕ_discrete n names')
    → (split pats names ts).routed ≡ (split pats names' ts).routed
unfolding split has
split-ext pats names names' [] h = refl
split-ext pats names names' (t ∷ ts) h =
    ground (arith, h t.0, split-ext pats names names' ts (λ n p. h n (ground arith)))

scan-names :
    (pats : Patterns) (n_experts : ℕ) (ts : List (ℕ × Tensor)) (name : ℕ)
    → has ℕ_discrete name (keys ts) ≡ false
    → has ℕ_discrete name (info_names (scan pats n_experts ts).exp_info) ≡ false
unfolding scan has
scan-names pats n_experts [] name h = refl
scan-names pats n_experts (t ∷ ts) name h =
    by_finding (examine_name n_experts t.0 t.1 (pats.expert_name t.0))
      (examine_name-Sound n_experts t.0 t.1 (pats.expert_name t.0))
      (scan-names pats n_experts ts name (ground arith))
  where
    by_finding :
        (f : Finding)
        → Sound n_experts t.0 t.1 (pats.expert_name t.0) f
        → has ℕ_discrete name (info_names (scan pats n_experts ts).exp_info) ≡ false
        → has ℕ_discrete name (info_names (add_finding f (scan pats n_experts ts)).exp_info) ≡ false
    by_finding no_expert d rest = rest
    by_finding (left_out n) d rest = rest
    by_finding (listed i) d rest = ground (arith, d.same_name)

-- The routed bytes are those of the listed tensors.
split-routed :
    (pats : Patterns) (n_experts : ℕ) (ts : List (ℕ × Tensor))
    → Distinct ℕ_discrete (keys ts)
    → (split pats (info_names (scan pats n_experts ts).exp_info) ts).routed
      ≡ info_bytes (scan pats n_experts ts).exp_info
unfolding scan split has
split-routed pats n_experts [] d = refl
split-routed pats n_experts (t ∷ ts) d =
    by_finding (examine_name n_experts t.0 t.1 (pats.expert_name t.0))
      (examine_name-Sound n_experts t.0 t.1 (pats.expert_name t.0))
      (split-routed pats n_experts ts d.1) (scan-names pats n_experts ts t.0 d.0)
  where
    by_finding :
        (f : Finding)
        → Sound n_experts t.0 t.1 (pats.expert_name t.0) f
        → (split pats (info_names (scan pats n_experts ts).exp_info) ts).routed
          ≡ info_bytes (scan pats n_experts ts).exp_info
        → has ℕ_discrete t.0 (info_names (scan pats n_experts ts).exp_info) ≡ false
        → (split pats
            (info_names (add_finding f (scan pats n_experts ts)).exp_info)
            (t ∷ ts)).routed
          ≡ info_bytes (add_finding f (scan pats n_experts ts)).exp_info
    by_finding no_expert s rest new = ground arith
    by_finding (left_out n) s rest new = ground arith
    by_finding (listed i) s rest new =
        let same =
          split-ext pats (i.name ∷ info_names (scan pats n_experts ts).exp_info)
            (info_names (scan pats n_experts ts).exp_info) ts
            (λ n p. ground (arith, s.same_name, d)) in
        ground (arith, same, s.same_name, s.same_bytes)

add_tensors-Distinct :
    (si : ℕ) (ts tensors : List (ℕ × Tensor))
    → Distinct ℕ_discrete (keys tensors)
    → Distinct ℕ_discrete (keys (add_tensors si ts tensors))
unfolding add_tensors
add_tensors-Distinct si [] tensors d = d
add_tensors-Distinct si (t ∷ ts) tensors d =
    add_tensors-Distinct si ts _
      (Distinct-insert ℕ_discrete t.0 (record t.1 { shard = si }) tensors d)

add_shards-Distinct :
    (si : ℕ) (ss : List (List (ℕ × Tensor))) (tensors : List (ℕ × Tensor))
    → Distinct ℕ_discrete (keys tensors)
    → Distinct ℕ_discrete (keys (add_shards si ss tensors))
unfolding add_shards
add_shards-Distinct si [] tensors d = d
add_shards-Distinct si (s ∷ ss) tensors d =
    add_shards-Distinct (si + 1) ss (add_tensors si s tensors) (add_tensors-Distinct si s tensors d)

-- For a registered architecture whose header declares blocks, experts and experts used, the bytes of
-- the bank, of the lookup tables and of the fixed path are together those of all tensors, and the
-- bytes of the class of routed experts are those of the bank.
pub inspect_model-total :
    (pats : Patterns) (h : Header) (shards : List (List (ℕ × Tensor)))
    → h.registered ≡ true
    → (h.expert_count == 0 || h.expert_used_count == 0 || h.block_count == 0) ≡ false
    → ((inspect_model pats h shards).expert_bank_bytes
          + (inspect_model pats h shards).lookup_bytes
          + (inspect_model pats h shards).fixed_bytes
        ≡ (inspect_model pats h shards).tensor_bytes)
      × ((inspect_model pats h shards).routed_bytes
          ≡ (inspect_model pats h shards).expert_bank_bytes)
unfolding inspect_model profile_experts
inspect_model-total pats h shards known counted =
    let tensors = add_shards 0 shards [] in
    let names = info_names (scan pats h.expert_count tensors).exp_info in
    let routed = split-routed pats h.expert_count tensors (add_shards-Distinct 0 shards [] tt) in
    rw (known, counted) (omega (arith, routed, split-total pats names tensors), routed)
