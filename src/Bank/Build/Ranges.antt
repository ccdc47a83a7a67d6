-- ===== src/Bank/Build/Ranges.antt =====
-- The ranges that `__init__` makes.
use sabah_mo_e_accelerator.Base.{
  ℕ, zero, suc, ◌+◌, ◌<◌, ◌≤◌, ◌≡◌, refl, sym, ap, subst, ◌∙◌, inl, inr, true, List, [], ◌∷◌, some,
  has, lookup, insert, lookup-insert, ◌==◌, ℕ_discrete, ok, bind-ok, arith, Bool-cases,
  Option-cases,
}
use sabah_mo_e_accelerator.Tier.Types.{Role}
use sabah_mo_e_accelerator.Bank.Types.{
  Descriptor, ExpertId, ExpertRange, ExpertBank, Role-discrete, make_range, range_of, expert_key,
  key_discrete, range_discrete,
}
use sabah_mo_e_accelerator.Bank.Warm.{roles}
use sabah_mo_e_accelerator.Bank.Warm.Loads.{any_role}
use sabah_mo_e_accelerator.Bank.Build.{add_range, add_roles, add_experts, add_blocks}

-- The expert has the range that its tensor gives it.
pub record IsRanged (s : ExpertBank) (b e : ℕ) (r : Role) : Type 0 where
  pub tensor : Descriptor
  pub described : lookup key_discrete (b, r) s.desc ≡ some tensor
  pub ranged : lookup range_discrete (expert_key b e r) s.ranges ≡ some (range_of tensor b e r)

-- Only ranges are added, and those that are there stay.
pub record Adds (s t : ExpertBank) : Type 0 where
  pub same : record s { ranges = t.ranges } ≡ t
  pub kept : (b e : ℕ) (r : Role) → IsRanged s b e r → IsRanged t b e r

Adds-refl : (s : ExpertBank) → Adds s s
Adds-refl s = record { same = refl; kept = λ b e r h. h }

Adds-trans : (s t u : ExpertBank) → Adds s t → Adds t u → Adds s u
Adds-trans s t u a c = record {
  same = ap (λ (x : ExpertBank). record x { ranges = u.ranges }) a.same ∙ c.same;
  kept = λ b e r h. c.kept b e r (a.kept b e r h);
}

make_range-ok : (g h : ExpertRange) → make_range g ≡ ok h → g ≡ h
unfolding make_range
make_range-ok g h q = elim (Bool-cases (g.size == 0)) [
  | inl z ↦ absurd (ground arith)
  | inr z ↦ ground arith
]

id-eq :
    (b e b' e' : ℕ) (r r' : Role)
    → ◌≡◌ {A = ExpertId × Role} (expert_key b e r) (expert_key b' e' r')
    → (b ≡ b') × (e ≡ e') × (r ≡ r')
id-eq b e b' e' r r' h = (
  ap (λ (k : ExpertId × Role). k.0.block) h,
  ap (λ (k : ExpertId × Role). k.0.expert) h,
  ap (λ (k : ExpertId × Role). k.1) h,
)

abbrev with_range : ℕ → ℕ → Role → Descriptor → ExpertBank → ExpertBank
with_range b e r d s = record s {
  ranges = insert range_discrete (expert_key b e r) (range_of d b e r) s.ranges;
}

with_range-IsRanged :
    (b e : ℕ) (r : Role) (d : Descriptor) (s : ExpertBank)
    → lookup key_discrete (b, r) s.desc ≡ some d
    → IsRanged (with_range b e r d s) b e r
with_range-IsRanged b e r d s h = record {
  tensor = d;
  described = h;
  ranged = ground (
    arith,
    lookup-insert range_discrete (expert_key b e r) (expert_key b e r) (range_of d b e r) s.ranges,
  );
}

with_range-Adds :
    (b e : ℕ) (r : Role) (d : Descriptor) (s : ExpertBank)
    → lookup key_discrete (b, r) s.desc ≡ some d
    → Adds s (with_range b e r d s)
with_range-Adds b e r d s h = record {
  same = refl;
  kept = λ b' e' r' k. elim (range_discrete (expert_key b e r) (expert_key b' e' r')) [
    | yes q ↦
        let (p, p', p'') = id-eq b e b' e' r r' q in
        subst (λ x. IsRanged (with_range b e r d s) x e' r') p
          (subst (λ x. IsRanged (with_range b e r d s) b x r') p'
            (subst (λ x. IsRanged (with_range b e r d s) b e x) p''
              (with_range-IsRanged b e r d s h)))
    | no q ↦ record {
      tensor = k.tensor;
      described = k.described;
      ranged = ground (
        arith,
        k.ranged,
        lookup-insert range_discrete (expert_key b e r) (expert_key b' e' r') (range_of d b e r)
            s.ranges,
      );
    }
  ];
}

add_range-Adds :
    (b e : ℕ) (r : Role) (s t : ExpertBank) → add_range b e r s ≡ ok t → Adds s t × IsRanged t b e r
unfolding add_range
add_range-Adds b e r s t h = elim (Option-cases (lookup key_discrete (b, r) s.desc)) [
  | inl n ↦ absurd (ground arith)
  | inr (d, q) ↦
      let (g, made, rest) =
        bind-ok (make_range (range_of d b e r))
          (λ g. ok (record s { ranges = insert range_discrete (expert_key b e r) g s.ranges })) t
          (ground arith) in
      let w = make_range-ok (range_of d b e r) g made in
      let v : with_range b e r d s ≡ t = ground arith in
      subst (λ x. Adds s x × IsRanged x b e r) v
        (with_range-Adds b e r d s q, with_range-IsRanged b e r d s q)
]

add_roles-Adds :
    (b e : ℕ) (rs : List Role) (s t : ExpertBank)
    → add_roles b e rs s ≡ ok t
    → Adds s t × ((r : Role) → has Role-discrete r rs ≡ true → IsRanged t b e r)
unfolding add_roles has
add_roles-Adds b e [] s t h =
    subst (λ x. Adds s x × ((r : Role) → has Role-discrete r [] ≡ true → IsRanged x b e r))
      (let q : s ≡ t = cc in q) (Adds-refl s, λ r p. absurd (cc))
add_roles-Adds b e (r ∷ rs) s t h =
    let (u, first, rest) = bind-ok (add_range b e r s) _ t h in
    let (a, here) = add_range-Adds b e r s u first in
    let (c, there) = add_roles-Adds b e rs u t rest in
    (
      Adds-trans s u t a c,
      λ r' p. elim (Role-discrete r' r) [
        | yes q ↦ c.kept b e r' (subst (λ x. IsRanged u b e x) (sym q) here)
        | no q ↦ there r' (ground arith)
      ],
    )

add_experts-Adds :
    (b e n : ℕ) (s t : ExpertBank)
    → add_experts b e n s ≡ ok t
    → Adds s t × ((j : ℕ) (r : Role) → e ≤ j → j < e + n → IsRanged t b j r)
unfolding add_experts
add_experts-Adds b e zero s t h =
    subst (λ x. Adds s x × ((j : ℕ) (r : Role) → e ≤ j → j < e + 0 → IsRanged x b j r))
      (let q : s ≡ t = cc in q) (Adds-refl s, λ j r p q. absurd (omega arith))
add_experts-Adds b e (suc n) s t h =
    let (u, first, rest) = bind-ok (add_roles b e roles s) _ t h in
    let (a, here) = add_roles-Adds b e roles s u first in
    let (c, there) = add_experts-Adds b (e + 1) n u t rest in
    (
      Adds-trans s u t a c,
      λ j r p q. elim (ℕ_discrete e j) [
        | yes z ↦ c.kept b j r (subst (λ x. IsRanged u b x r) z (here r (any_role r)))
        | no z ↦ there j r (omega arith) (omega arith)
      ],
    )

same-n : (s t : ExpertBank) → Adds s t → t.n_experts ≡ s.n_experts
same-n s t a = ap (λ (x : ExpertBank). x.n_experts) (sym a.same)

pub add_blocks-Adds :
    (bs : List ℕ) (s t : ExpertBank)
    → add_blocks bs s ≡ ok t
    → Adds s t
      × ((b e : ℕ) (r : Role) → has ℕ_discrete b bs ≡ true → e < s.n_experts → IsRanged t b e r)
unfolding add_blocks has
add_blocks-Adds [] s t h =
    subst
      (λ x.
        Adds s x
        × ((b e : ℕ) (r : Role) → has ℕ_discrete b [] ≡ true → e < s.n_experts → IsRanged x b e r))
      (let q : s ≡ t = cc in q) (Adds-refl s, λ b e r p q. absurd (cc))
add_blocks-Adds (b ∷ bs) s t h =
    let (u, first, rest) = bind-ok (add_experts b 0 s.n_experts s) _ t h in
    let (a, here) = add_experts-Adds b 0 s.n_experts s u first in
    let (c, there) = add_blocks-Adds bs u t rest in
    (
      Adds-trans s u t a c,
      λ j e r p l. elim (ℕ_discrete j b) [
        | yes z ↦
            c.kept j e r
              (subst (λ x. IsRanged u x e r) (sym z) (here e r (omega arith) (omega arith)))
        | no z ↦ there j e r (ground arith) (subst (λ n. e < n) (sym (same-n s u a)) l)
      ],
    )
