-- ===== src/Inspector/Scan/Sliced.antt =====
-- What the loop over the expert tensors lists.
use sabah_mo_e_accelerator.Base.{
  ℕ, ◌+◌, ◌*◌, ◌/◌, ◌%◌, ◌≡◌, refl, ap, subst, ◌∙◌, ◌⊎◌, inl, inr, ◌&&◌, Bool, true, false, List,
  [], ◌∷◌, Option, none, some, ◌==◌, ==→eq, has, keys, lookup, insert, ℕ_discrete, Bool-cases, All,
  arith,
}
use sabah_mo_e_accelerator.Tier.Types.{Role}
use sabah_mo_e_accelerator.Inspector.Types.{
  quant_block, is_runtime, Patterns, Tensor, ExpertTensorInfo, not_decodable,
}
use sabah_mo_e_accelerator.Inspector.Scan.{
  Finding, no_expert, left_out, listed, slice_info, examine_quant, examine_shape, examine_name,
  add_finding, scan, or_none, block_costs, info_names, info_bytes, total_cost,
}

-- An entry describes its tensor, and if it is contiguous the slices of its experts fill it.
pub record Describes (n_experts name : ℕ) (t : Tensor) (i : ExpertTensorInfo) : Type 0 where
  pub same_name : i.name ≡ name
  pub same_bytes : i.tensor_bytes ≡ t.bytes
  pub same_place : (i.shard ≡ t.shard) × (i.offset ≡ t.offset)
  pub decodable : is_runtime i.qtype ≡ true
  pub filled : (i.contiguous ≡ false) ⊎ (i.per_expert_bytes * n_experts ≡ i.tensor_bytes)

-- What is listed describes the tensor, and only a name that no pattern fits is passed over.
abbrev pub Sound : ℕ → ℕ → Tensor → Option (ℕ × Role) → Finding → Type 0
Sound n_experts name t k no_expert = k ≡ none
Sound n_experts name t k (left_out n) = Unit
Sound n_experts name t k (listed i) = Describes n_experts name t i

and-eq : (a b : Bool) (m n : ℕ) → (a && b && m == n ≡ false) ⊎ (m ≡ n)
and-eq a b m n = elim (Bool-cases (m == n)) [
  | inl e ↦ inr (==→eq m n e)
  | inr e ↦ inl (ground arith)
]

examine_quant-Sound :
    (n_experts name block : ℕ) (role : Role) (t : Tensor) (s0 s1 : ℕ) (q : Option (ℕ × ℕ))
    (k : Option (ℕ × Role))
    → Sound n_experts name t k (examine_quant n_experts name block role t s0 s1 q)
unfolding examine_quant slice_info
examine_quant-Sound n_experts name block role t s0 s1 none k = tt
examine_quant-Sound n_experts name block role t s0 s1 (some ebk) k =
    elim (Bool-cases (is_runtime t.qtype)) [
      | inr unknown ↦
          subst (Sound n_experts name t k)
            (let e : left_out (not_decodable name)
                  ≡ examine_quant n_experts name block role t s0 s1 (some ebk) =
                ground arith in
              e)
            tt
      | inl known ↦
          subst (Sound n_experts name t k)
            (let e : listed (slice_info n_experts name block role t s0 s1 ebk)
                  ≡ examine_quant n_experts name block role t s0 s1 (some ebk) =
                ground arith in
              e)
            (record {
              same_name = refl;
              same_bytes = refl;
              same_place = (refl, refl);
              decodable = known;
              filled =
                  and-eq (s0 * s1 % ebk.0 == 0) (s0 % ebk.0 == 0)
                    (s0 * s1 / ebk.0 * ebk.1 * n_experts) t.bytes;
            })
    ]

examine_shape-Sound :
    (n_experts name block : ℕ) (role : Role) (t : Tensor) (shape : List ℕ) (k : Option (ℕ × Role))
    → Sound n_experts name t k (examine_shape n_experts name block role t shape)
unfolding examine_shape
examine_shape-Sound n_experts name block role t [] k = tt
examine_shape-Sound n_experts name block role t (s0 ∷ []) k = tt
examine_shape-Sound n_experts name block role t (s0 ∷ s1 ∷ []) k = tt
examine_shape-Sound n_experts name block role t (s0 ∷ s1 ∷ s2 ∷ ss) k =
    elim (Bool-cases (s2 == n_experts)) [
      | inl slowest ↦
          rw slowest (examine_quant-Sound n_experts name block role t s0 s1 (quant_block t.qtype) k)
      | inr other ↦ rw other tt
    ]

pub examine_name-Sound :
    (n_experts name : ℕ) (t : Tensor) (k : Option (ℕ × Role))
    → Sound n_experts name t k (examine_name n_experts name t k)
unfolding examine_name
examine_name-Sound n_experts name t none = refl
examine_name-Sound n_experts name t (some k) =
    examine_shape-Sound n_experts name k.0 k.1 t t.shape (some k)

-- The slices of the experts fill the tensor, with a quantization that the runtime decodes.
pub record IsSliced (n_experts : ℕ) (i : ExpertTensorInfo) : Type 0 where
  pub whole : i.per_expert_bytes * n_experts ≡ i.tensor_bytes
  pub decodable : is_runtime i.qtype ≡ true

pub scan-IsSliced :
    (pats : Patterns) (n_experts : ℕ) (ts : List (ℕ × Tensor))
    → (scan pats n_experts ts).all_contig ≡ true
    → All (IsSliced n_experts) (scan pats n_experts ts).exp_info
unfolding scan
scan-IsSliced pats n_experts [] h = tt
scan-IsSliced pats n_experts (t ∷ ts) h =
    by_finding (examine_name n_experts t.0 t.1 (pats.expert_name t.0))
      (examine_name-Sound n_experts t.0 t.1 (pats.expert_name t.0))
      (scan-IsSliced pats n_experts ts) h
  where
    by_finding :
        (f : Finding)
        → Sound n_experts t.0 t.1 (pats.expert_name t.0) f
        → ((scan pats n_experts ts).all_contig ≡ true
            → All (IsSliced n_experts) (scan pats n_experts ts).exp_info)
        → (add_finding f (scan pats n_experts ts)).all_contig ≡ true
        → All (IsSliced n_experts) (add_finding f (scan pats n_experts ts)).exp_info
    by_finding no_expert d rest c = rest c
    by_finding (left_out n) d rest c = absurd (cc)
    by_finding (listed i) d rest c =
        (record { whole = ground (arith, d.filled); decodable = d.decodable }, rest (ground arith))

-- Every tensor whose name fits a pattern is listed, if the loop finds nothing wrong.
pub scan_complete :
    (pats : Patterns) (n_experts : ℕ) (ts : List (ℕ × Tensor)) (name : ℕ)
    → (scan pats n_experts ts).all_contig ≡ true
    → has ℕ_discrete name (keys ts) ≡ true
    → (pats.expert_name name ≡ none)
      ⊎ (has ℕ_discrete name (info_names (scan pats n_experts ts).exp_info) ≡ true)
unfolding scan has
scan_complete pats n_experts [] name h p = absurd (cc)
scan_complete pats n_experts (t ∷ ts) name h p =
    by_finding (examine_name n_experts t.0 t.1 (pats.expert_name t.0))
      (examine_name-Sound n_experts t.0 t.1 (pats.expert_name t.0))
      (scan_complete pats n_experts ts name) h p
  where
    by_finding :
        (f : Finding)
        → Sound n_experts t.0 t.1 (pats.expert_name t.0) f
        → ((scan pats n_experts ts).all_contig ≡ true
            → has ℕ_discrete name (keys ts) ≡ true
            → (pats.expert_name name ≡ none)
              ⊎ (has ℕ_discrete name (info_names (scan pats n_experts ts).exp_info) ≡ true))
        → (add_finding f (scan pats n_experts ts)).all_contig ≡ true
        → has ℕ_discrete name (keys (t ∷ ts)) ≡ true
        → (pats.expert_name name ≡ none)
          ⊎ (has ℕ_discrete name (info_names (add_finding f (scan pats n_experts ts)).exp_info)
              ≡ true)
    by_finding no_expert d rest c q = elim (ℕ_discrete name t.0) [
      | yes e ↦ inl (ap pats.expert_name e ∙ d)
      | no n ↦ rest c (ground arith)
    ]
    by_finding (left_out n) d rest c q = absurd (cc)
    by_finding (listed i) d rest c q = elim (ℕ_discrete name t.0) [
      | yes e ↦ inr (ground (arith, d.same_name))
      | no n ↦ elim (rest (ground arith) (ground arith)) [
        | inl z ↦ inl z
        | inr z ↦ inr (ground arith)
      ]
    ]

-- The bytes of one expert of each tensor.
abbrev pub expert_bytes : List ExpertTensorInfo → ℕ
expert_bytes [] = 0
expert_bytes (i ∷ is) = i.per_expert_bytes + expert_bytes is

total_cost-insert :
    (b v : ℕ) (costs : List (ℕ × ℕ))
    → total_cost (insert ℕ_discrete b (or_none (lookup ℕ_discrete b costs) + v) costs)
      ≡ total_cost costs + v
unfolding insert lookup
total_cost-insert b v [] = omega arith
total_cost-insert b v (c ∷ cs) = ground (arith, total_cost-insert b v cs)

total_cost-block_costs :
    (is : List ExpertTensorInfo) (costs : List (ℕ × ℕ))
    → total_cost (block_costs is costs) ≡ total_cost costs + expert_bytes is
unfolding block_costs
total_cost-block_costs [] costs = omega arith
total_cost-block_costs (i ∷ is) costs = omega (
  arith,
  total_cost-insert i.block i.per_expert_bytes costs,
  total_cost-block_costs is (
      insert ℕ_discrete i.block (or_none (lookup ℕ_discrete i.block costs) + i.per_expert_bytes)
        costs),
)

expert_bytes-info_bytes :
    (n_experts : ℕ) (is : List ExpertTensorInfo)
    → All (IsSliced n_experts) is
    → expert_bytes is * n_experts ≡ info_bytes is
expert_bytes-info_bytes n_experts [] h = omega arith
expert_bytes-info_bytes n_experts (i ∷ is) h =
    let w = h.0.whole in omega (arith, w, expert_bytes-info_bytes n_experts is h.1)

-- The costs of all blocks, times the experts, are the bytes of the listed tensors.
pub block_costs-whole :
    (n_experts : ℕ) (is : List ExpertTensorInfo)
    → All (IsSliced n_experts) is
    → total_cost (block_costs is []) * n_experts ≡ info_bytes is
block_costs-whole n_experts is h =
    let e : total_cost (block_costs is []) ≡ expert_bytes is =
      omega (arith, total_cost-block_costs is []) in
    rw e (expert_bytes-info_bytes n_experts is h)
