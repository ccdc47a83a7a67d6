-- ===== src/Bank/Warm/Pins.antt =====
-- `load_warm`: what it pins, and that a second call has nothing to do.
use sabah_mo_e_accelerator.Base.{
  ℕ, ◌+◌, ◌≡◌, refl, sym, ap, subst, ◌∙◌, inl, inr, true, List, [], ◌∷◌, has, ℕ_discrete, sort,
  has-sort, ok, bind-ok, arith, Bool-cases,
}
use sabah_mo_e_accelerator.Tier.Types.{Role, Bytes}
use sabah_mo_e_accelerator.Bank.Types.{ExpertBank}
use sabah_mo_e_accelerator.Bank.Slice.Exact.{IsLoaded, IsIndexed, IsExact}
use sabah_mo_e_accelerator.Bank.Warm.{roles, warm_role, warm_roles, warm_all, or_else, load_warm}
use sabah_mo_e_accelerator.Bank.Warm.Loads.{Grows, held, warm_all-Grows}

warm_roles-again :
    (b : ℕ) (rs : List Role) (s : ExpertBank)
    → ((r : Role) → held s b r ≡ true)
    → warm_roles b rs s ≡ ok (s, 0)
unfolding warm_roles warm_role
warm_roles-again b [] s h = refl
warm_roles-again b (r ∷ rs) s h = rw (h r, warm_roles-again b rs s h)

warm_all-again :
    (bs : List ℕ) (s : ExpertBank)
    → ((b : ℕ) (r : Role)
        → has ℕ_discrete b bs ≡ true
        → has ℕ_discrete b s.blocks ≡ true
        → held s b r ≡ true)
    → warm_all bs s ≡ ok (s, 0)
unfolding warm_all has
warm_all-again [] s h = refl
warm_all-again (b ∷ bs) s h =
    let rest = warm_all-again bs s (λ j r p z. h j r (ground arith) z) in
    elim (Bool-cases (has ℕ_discrete b s.blocks)) [
      | inl known ↦ rw (known, warm_roles-again b roles s (λ r. h b r (ground arith) known), rest)
      | inr unknown ↦ rw (unknown, rest)
    ]

-- The blocks that a call of `load_warm` is about.
abbrev pub asked : List ℕ → ExpertBank → List ℕ
asked blocks bank = or_else blocks (or_else bank.warm_blocks bank.blocks)

-- The total is not part of what the invariant speaks of.
counted : (s : ExpertBank) (n : ℕ) → IsIndexed s → IsIndexed (record s { warm_loaded_bytes = n })
counted s n i = record {
  ranges = i.ranges;
  warm = λ b r bufs h. copy (i.warm b r bufs h);
  copied = λ b r buf h. let (bufs, l, q) = i.copied b r buf h in (bufs, copy l, q);
}
  where
    copy :
        {b : ℕ} {r : Role} {c : List Bytes}
        → IsLoaded s b r c
        → IsLoaded (record s { warm_loaded_bytes = n }) b r c
    copy l = record {
      tensor = l.tensor;
      file = l.file;
      described = l.described;
      opened = l.opened;
      chunks = l.chunks;
    }

Grows-IsExact :
    (s t : ExpertBank) (n : ℕ)
    → IsExact s
    → Grows s t
    → IsExact (record t { warm_loaded_bytes = n })
Grows-IsExact s t n x g = record {
  indexed = counted t n g.indexed;
  all_ram = λ b r m h.
      g.ram b r
        (x.all_ram b r (sym g.same_mode ∙ m) (ap (has ℕ_discrete b) (sym g.same_blocks) ∙ h));
}

-- What a call of `load_warm` has done.
pub record IsPinned (blocks : List ℕ) (s t : ExpertBank) (added : ℕ) : Type 0 where
  pub exact : IsExact t
  pub pinned :
      (b : ℕ) (r : Role)
      → has ℕ_discrete b (asked blocks s) ≡ true
      → has ℕ_discrete b s.blocks ≡ true
      → held t b r ≡ true
  pub total : t.warm_loaded_bytes ≡ s.warm_loaded_bytes + added
  pub again : load_warm blocks t ≡ ok (t, 0)

-- A second call finds all that it asks for.
done :
    (blocks : List ℕ) (s t : ExpertBank) (n : ℕ)
    → Grows s t
    → ((b : ℕ) (r : Role)
        → has ℕ_discrete b (sort (asked blocks s)) ≡ true
        → has ℕ_discrete b s.blocks ≡ true
        → held t b r ≡ true)
    → load_warm blocks (record t { warm_loaded_bytes = n })
      ≡ ok (record t { warm_loaded_bytes = n }, 0)
unfolding load_warm
done blocks s t n g h =
    let v : ExpertBank = record t { warm_loaded_bytes = n } in
    let same : asked blocks v ≡ asked blocks s =
      ap (λ (c : List ℕ × List ℕ). or_else blocks (or_else c.0 c.1))
        (let e : ◌≡◌ {A = List ℕ × List ℕ} (v.warm_blocks, v.blocks) (s.warm_blocks, s.blocks) =
            ground (arith, g.same_chosen, g.same_blocks) in
          e) in
    let all : warm_all (sort (asked blocks v)) v ≡ ok (v, 0) =
      warm_all-again (sort (asked blocks v)) v (λ b r p z.
        h b r (ap (λ l. has ℕ_discrete b (sort l)) (sym same) ∙ p)
          (ap (has ℕ_discrete b) (sym g.same_blocks) ∙ z)) in
    rw all (ap (λ k. ok (record t { warm_loaded_bytes = k }, 0)) (omega arith))

-- When `load_warm` returns, each known block that it was asked for has all its roles pinned or copied,
-- the total has grown by the bytes it reports, the bank is still exact, and a second call with the
-- same argument pins nothing and reports 0 bytes.
pub load_warm-IsPinned :
    (blocks : List ℕ) (s : ExpertBank) (t : ExpertBank × ℕ)
    → IsExact s
    → load_warm blocks s ≡ ok t
    → IsPinned blocks s t.0 t.1
unfolding load_warm
load_warm-IsPinned blocks s t x h =
    let (u, loaded, rest) = bind-ok (warm_all (sort (asked blocks s)) s) _ t h in
    let n = u.0.warm_loaded_bytes + u.1 in
    let v : ExpertBank = record u.0 { warm_loaded_bytes = n } in
    let e : ◌≡◌ {A = ExpertBank × ℕ} (v, u.1) t = ground arith in
    let (g, there) = warm_all-Grows (sort (asked blocks s)) s u x.indexed loaded in
    subst (λ y. IsPinned blocks s y.0 y.1) e
      record {
        exact = Grows-IsExact s u.0 n x g;
        pinned = λ b r p z. there b r (has-sort b (asked blocks s) ∙ p) z;
        total = ap (λ k. k + u.1) g.same_total;
        again = done blocks s u.0 n g there;
      }
