-- ===== src/Bank/Build/Built.antt =====
-- What the bank it returns is like.
use sabah_mo_e_accelerator.Base.{
  ℕ, ◌≡◌, refl, sym, ap, subst, ◌∙◌, inl, inr, Bool, List, [], ◌∷◌, Option, none, some, has, lookup,
  ℕ_discrete, ok, raise, Error, ◌>>=◌, bind-ok, arith, Bool-cases, sorted_set,
}
use sabah_mo_e_accelerator.Tier.Types.{Role, Bytes}
use sabah_mo_e_accelerator.Bank.Types.{Mode, Descriptor, Profile, ExpertBank, key_discrete}
use sabah_mo_e_accelerator.Bank.Slice.Exact.{IsIndexed, IsExact}
use sabah_mo_e_accelerator.Bank.Warm.{load_ram, load_warm}
use sabah_mo_e_accelerator.Bank.Warm.Loads.{Grows, stays, load_ram-Grows}
use sabah_mo_e_accelerator.Bank.Warm.Pins.{load_warm-IsPinned}
use sabah_mo_e_accelerator.Bank.Build.Ranges.{IsRanged, add_blocks-Adds}
use sabah_mo_e_accelerator.Bank.Build.{
  index_tensors, blocks_of, choose_blocks, add_blocks, empty_bank, load_mode, load_chosen,
  build_bank,
}

none-some : {V : Type 0} (v : V) → ◌≡◌ {A = Option V} none (some v) → ⊥
none-some v h = cc

-- The bank that the ranges are added to.
ranged-IsIndexed :
    (bs : List ℕ) (s t : ExpertBank)
    → s.ram_of ≡ []
    → s.warm_of ≡ []
    → s.blocks ≡ bs
    → add_blocks bs s ≡ ok t
    → IsIndexed t
unfolding lookup
ranged-IsIndexed bs s t m w k h =
    let (a, all) = add_blocks-Adds bs s t h in
    subst IsIndexed a.same record {
      ranges = λ b e r p l.
          let g : IsRanged (record s { ranges = t.ranges }) b e r =
            subst (λ x. IsRanged x b e r) (sym a.same)
              (all b e r (ap (has ℕ_discrete b) (sym k) ∙ p) l) in
          (g.tensor, g.described, g.ranged);
      warm = λ b r bufs p.
          absurd (none-some bufs (subst (λ d. lookup key_discrete (b, r) d ≡ some bufs) w p));
      copied = λ b r buf p.
          absurd (none-some buf (subst (λ d. lookup key_discrete (b, r) d ≡ some buf) m p));
    }

load_mode-IsExact : (s t : ExpertBank) → IsIndexed s → load_mode s ≡ ok t → IsExact t × Grows s t
unfolding load_mode
load_mode-IsExact s t i h = by_mode s.mode refl h
  where
    by_mode :
        (m : Mode)
        → s.mode ≡ m
        → (elim m [
          | Mode.mmap ↦ ok s
          | Mode.ram ↦ load_ram s.blocks s
          | Mode.other_mode ↦ raise Error.value_error
        ])
          ≡ ok t
        → IsExact t × Grows s t
    by_mode Mode.mmap q l =
        subst (λ x. IsExact x × Grows s x) (let e : s ≡ t = cc in e)
          (
            record {
              indexed = i;
              all_ram = λ b r m p. absurd (let no_ram : Mode.mmap ≡ Mode.ram = sym q ∙ m in cc);
            },
            stays s i,
          )
    by_mode Mode.ram q l =
        let (g, all) = load_ram-Grows s.blocks s t i l in
        (
          record {
            indexed = g.indexed;
            all_ram = λ b r m p. all b r (ap (has ℕ_discrete b) (sym g.same_blocks) ∙ p);
          },
          g,
        )
    by_mode Mode.other_mode q l = absurd (ground arith)

load_chosen-IsExact :
    (ws : List ℕ) (s t : ExpertBank) → IsExact s → load_chosen ws s ≡ ok t → IsExact t
load_chosen-IsExact [] s t x h = subst IsExact (let q : s ≡ t = cc in q) x
load_chosen-IsExact (w ∷ ws) s t x h =
    let (u, loaded, rest) = bind-ok (load_warm [] s) _ t h in
    let k = load_warm-IsPinned [] s u x loaded in subst IsExact (let q : u.0 ≡ t = cc in q) k.exact

-- A bank that `__init__` returns, in either mode, with any blocks chosen and any pinned, is exact:
-- every expert of its blocks has the range that its tensor gives it, what is pinned or copied is
-- what the shards have, and in the mode that copies all blocks they are all copied.
pub build_bank-IsExact :
    (model : Profile) (mode : Mode) (blocks : Option (List ℕ)) (pinned : Bool) (warm : List ℕ)
    (shards : List Bytes) (s : ExpertBank)
    → build_bank model mode blocks pinned warm shards ≡ ok s
    → IsExact s
unfolding build_bank empty_bank
build_bank-IsExact model mode blocks pinned warm shards s h = elim (Bool-cases model.supported) [
  | inr no_support ↦ absurd (ground arith)
  | inl supported ↦ elim (Bool-cases model.experts_contiguous) [
    | inr apart ↦ absurd (ground arith)
    | inl contiguous ↦ built (ground arith)
  ]
]
  where
    desc : List ((ℕ × Role) × Descriptor)
    desc = index_tensors model.expert_tensors []

    built :
        (choose_blocks blocks (sorted_set (blocks_of desc)) >>= λ bs.
        add_blocks bs (empty_bank model mode pinned warm desc bs shards) >>= λ b.
        load_mode b >>= λ c. load_chosen c.warm_blocks c)
          ≡ ok s
        → IsExact s
    built q =
        let (bs, chosen, h1) = bind-ok (choose_blocks blocks (sorted_set (blocks_of desc))) _ s q in
        let (t, ranged, h2) =
          bind-ok (add_blocks bs (empty_bank model mode pinned warm desc bs shards)) _ s h1 in
        let (u, moded, h3) = bind-ok (load_mode t) _ s h2 in
        let i =
          ranged-IsIndexed bs (empty_bank model mode pinned warm desc bs shards) t refl refl refl
            ranged in
        let (x, g) = load_mode-IsExact t u i moded in load_chosen-IsExact u.warm_blocks u s x h3
