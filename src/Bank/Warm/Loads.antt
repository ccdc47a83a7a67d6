-- ===== src/Bank/Warm/Loads.antt =====
-- What is copied into RAM or pinned is what the shards have.
use sabah_mo_e_accelerator.Base.{
  ℕ, ◌*◌, ◌≡◌, refl, sym, ap, subst, ◌∙◌, inl, inr, Bool, true, ◌||◌, List, [], ◌∷◌, has, lookup,
  insert, lookup-insert, has-keys-insert, if◌then◌else◌, ℕ_discrete, ok, bind-ok, arith, Bool-cases,
  Option-cases,
}
use sabah_mo_e_accelerator.Tier.Types.{Role, gate, up, down, Bytes}
use sabah_mo_e_accelerator.Bank.Types.{ExpertBank, Role-discrete, key_discrete}
use sabah_mo_e_accelerator.Bank.Files.{read_chunks, concat}
use sabah_mo_e_accelerator.Bank.Slice.{in_ram, in_warm}
use sabah_mo_e_accelerator.Bank.Slice.Exact.{IsLoaded, IsIndexed}
use sabah_mo_e_accelerator.Bank.Warm.{
  roles, read_role, load_role, load_roles, load_ram, warm_role, warm_roles, warm_all,
}

-- More is copied or pinned, and nothing else changes.
pub record Grows (s t : ExpertBank) : Type 0 where
  pub same_mode : t.mode ≡ s.mode
  pub same_n : t.n_experts ≡ s.n_experts
  pub same_blocks : t.blocks ≡ s.blocks
  pub same_chosen : t.warm_blocks ≡ s.warm_blocks
  pub same_desc : t.desc ≡ s.desc
  pub same_files : t.file_handles ≡ s.file_handles
  pub same_ranges : t.ranges ≡ s.ranges
  pub same_total : t.warm_loaded_bytes ≡ s.warm_loaded_bytes
  pub indexed : IsIndexed t
  pub ram : (b : ℕ) (r : Role) → in_ram s b r ≡ true → in_ram t b r ≡ true
  pub warm : (b : ℕ) (r : Role) → in_warm s b r ≡ true → in_warm t b r ≡ true

pub stays : (s : ExpertBank) → IsIndexed s → Grows s s
stays s i = record {
  same_mode = refl;
  same_n = refl;
  same_blocks = refl;
  same_chosen = refl;
  same_desc = refl;
  same_files = refl;
  same_ranges = refl;
  same_total = refl;
  indexed = i;
  ram = λ b r h. h;
  warm = λ b r h. h;
}

Grows-trans : (s t u : ExpertBank) → Grows s t → Grows t u → Grows s u
Grows-trans s t u g h = record {
  same_mode = h.same_mode ∙ g.same_mode;
  same_n = h.same_n ∙ g.same_n;
  same_blocks = h.same_blocks ∙ g.same_blocks;
  same_chosen = h.same_chosen ∙ g.same_chosen;
  same_desc = h.same_desc ∙ g.same_desc;
  same_files = h.same_files ∙ g.same_files;
  same_ranges = h.same_ranges ∙ g.same_ranges;
  same_total = h.same_total ∙ g.same_total;
  indexed = h.indexed;
  ram = λ b r p. h.ram b r (g.ram b r p);
  warm = λ b r p. h.warm b r (g.warm b r p);
}

read_role-IsLoaded :
    (bank : ExpertBank) (b : ℕ) (r : Role) (c : List Bytes × ℕ)
    → read_role bank b r ≡ ok c
    → IsLoaded bank b r c.0
unfolding read_role
read_role-IsLoaded bank b r c h = elim (Option-cases (lookup key_discrete (b, r) bank.desc)) [
  | inl n ↦ absurd (ground arith)
  | inr (t, d) ↦ elim (Option-cases (lookup ℕ_discrete t.shard bank.file_handles)) [
    | inl n ↦ absurd (ground arith)
    | inr (f, o) ↦
        let (cs, read, q) =
          bind-ok (read_chunks f t.offset t.per_expert_bytes bank.n_experts)
            (λ cs. ok (cs, bank.n_experts * t.per_expert_bytes)) c (ground arith) in
        let same : c.0 ≡ cs = ground arith in
        record { tensor = t; file = f; described = d; opened = o; chunks = read ∙ ap ok (sym same) }
  ]
]

-- The part of `IsIndexed` that a copy keeps.
IsLoaded-ram :
    (s : ExpertBank) (m : List ((ℕ × Role) × Bytes)) (b : ℕ) (r : Role) (c : List Bytes)
    → IsLoaded s b r c
    → IsLoaded (record s { ram_of = m }) b r c
IsLoaded-ram s m b r c l = record {
  tensor = l.tensor;
  file = l.file;
  described = l.described;
  opened = l.opened;
  chunks = l.chunks;
}

IsLoaded-warm :
    (s : ExpertBank) (m : List ((ℕ × Role) × List Bytes)) (b : ℕ) (r : Role) (c : List Bytes)
    → IsLoaded s b r c
    → IsLoaded (record s { warm_of = m }) b r c
IsLoaded-warm s m b r c l = record {
  tensor = l.tensor;
  file = l.file;
  described = l.described;
  opened = l.opened;
  chunks = l.chunks;
}

key-eq : (b b' : ℕ) (r r' : Role) → ◌≡◌ {A = ℕ × Role} (b, r) (b', r') → (b ≡ b') × (r ≡ r')
key-eq b b' r r' h = (ap (λ (k : ℕ × Role). k.0) h, ap (λ (k : ℕ × Role). k.1) h)

load_role-Grows :
    (b : ℕ) (r : Role) (s t : ExpertBank)
    → IsIndexed s
    → load_role b r s ≡ ok t
    → Grows s t × (in_ram t b r ≡ true)
unfolding load_role
load_role-Grows b r s t i h =
    let (c, read, q) = bind-ok (read_role s b r) _ t h in
    let m = insert key_discrete (b, r) (concat c.0) s.ram_of in
    let u : ExpertBank = record s { ram_of = m } in
    let l = read_role-IsLoaded s b r c read in
    subst (λ x. Grows s x × (in_ram x b r ≡ true)) (let e : u ≡ t = cc in e)
      (
        record {
          same_mode = refl;
          same_n = refl;
          same_blocks = refl;
          same_chosen = refl;
          same_desc = refl;
          same_files = refl;
          same_ranges = refl;
          same_total = refl;
          indexed = record {
            ranges = i.ranges;
            warm = λ b' r' bufs p. IsLoaded-ram s m b' r' bufs (i.warm b' r' bufs p);
            copied = λ b' r' buf p. elim (key_discrete (b, r) (b', r')) [
              | yes k ↦
                  let (e, f) = key-eq b b' r r' k in
                  (
                    c.0,
                    subst (λ x. IsLoaded u x r' c.0) e
                        (subst (λ x. IsLoaded u b x c.0) f (IsLoaded-ram s m b r c.0 l)),
                    ground
                        (arith, lookup-insert key_discrete (b, r) (b', r') (concat c.0) s.ram_of),
                  )
              | no k ↦
                  let (bufs, old, joined) = i.copied b' r' buf (
                    ground
                      (arith, lookup-insert key_discrete (b, r) (b', r') (concat c.0) s.ram_of)) in
                  (bufs, IsLoaded-ram s m b' r' bufs old, joined)
            ];
          };
          ram = λ b' r' p.
              ground (arith, has-keys-insert key_discrete (b, r) (b', r') (concat c.0) s.ram_of);
          warm = λ b' r' p. p;
        },
        ground (arith, has-keys-insert key_discrete (b, r) (b, r) (concat c.0) s.ram_of),
      )

load_roles-Grows :
    (b : ℕ) (rs : List Role) (s t : ExpertBank)
    → IsIndexed s
    → load_roles b rs s ≡ ok t
    → Grows s t × ((r : Role) → has Role-discrete r rs ≡ true → in_ram t b r ≡ true)
unfolding load_roles has
load_roles-Grows b [] s t i h =
    subst (λ x. Grows s x × ((r : Role) → has Role-discrete r [] ≡ true → in_ram x b r ≡ true))
      (let e : s ≡ t = cc in e) (stays s i, λ r p. absurd (cc))
load_roles-Grows b (r ∷ rs) s t i h =
    let (u, loaded, rest) = bind-ok (load_role b r s) _ t h in
    let (g, here) = load_role-Grows b r s u i loaded in
    let (k, there) = load_roles-Grows b rs u t g.indexed rest in
    (
      Grows-trans s u t g k,
      λ r' p. elim (Role-discrete r' r) [
        | yes e ↦ k.ram b r' (subst (λ x. in_ram u b x ≡ true) (sym e) here)
        | no n ↦ there r' (ground arith)
      ],
    )

pub any_role : (r : Role) → has Role-discrete r roles ≡ true
unfolding has Role-discrete
any_role gate = refl
any_role up = refl
any_role down = refl

pub load_ram-Grows :
    (bs : List ℕ) (s t : ExpertBank)
    → IsIndexed s
    → load_ram bs s ≡ ok t
    → Grows s t × ((b : ℕ) (r : Role) → has ℕ_discrete b bs ≡ true → in_ram t b r ≡ true)
unfolding load_ram has
load_ram-Grows [] s t i h =
    subst (λ x. Grows s x × ((b : ℕ) (r : Role) → has ℕ_discrete b [] ≡ true → in_ram x b r ≡ true))
      (let e : s ≡ t = cc in e) (stays s i, λ b r p. absurd (cc))
load_ram-Grows (b ∷ bs) s t i h =
    let (u, loaded, rest) = bind-ok (load_roles b roles s) _ t h in
    let (g, here) = load_roles-Grows b roles s u i loaded in
    let (k, there) = load_ram-Grows bs u t g.indexed rest in
    (
      Grows-trans s u t g k,
      λ b' r p. elim (ℕ_discrete b' b) [
        | yes e ↦ k.ram b' r (subst (λ x. in_ram u x r ≡ true) (sym e) (here r (any_role r)))
        | no n ↦ there b' r (ground arith)
      ],
    )

-- The key is copied or pinned.
abbrev pub held : ExpertBank → ℕ → Role → Bool
held bank b r = in_warm bank b r || in_ram bank b r

Grows-held :
    (s t : ExpertBank) (b : ℕ) (r : Role) → Grows s t → held s b r ≡ true → held t b r ≡ true
Grows-held s t b r g h = ground (arith, g.ram b r, g.warm b r)

warm_role-Grows :
    (b : ℕ) (r : Role) (s : ExpertBank) (t : ExpertBank × ℕ)
    → IsIndexed s
    → warm_role b r s ≡ ok t
    → Grows s t.0 × (held t.0 b r ≡ true)
unfolding warm_role
warm_role-Grows b r s t i h = elim (Bool-cases (held s b r)) [
  | inl old ↦
      subst (λ x. Grows s x × (held x b r ≡ true)) (let e : s ≡ t.0 = ground arith in e)
        (stays s i, old)
  | inr new ↦
      let m = λ (c : List Bytes × ℕ). insert key_discrete (b, r) c.0 s.warm_of in
      let (c, read, q) =
        bind-ok (read_role s b r) (λ c. ok (record s { warm_of = m c }, c.1)) t (ground arith) in
      let u : ExpertBank = record s { warm_of = m c } in
      let l = read_role-IsLoaded s b r c read in
      subst (λ x. Grows s x × (held x b r ≡ true)) (let e : u ≡ t.0 = ground arith in e)
        (warmed c l)
]
  where
    warmed :
        (c : List Bytes × ℕ)
        → IsLoaded s b r c.0
        → Grows s (record s { warm_of = insert key_discrete (b, r) c.0 s.warm_of })
          × (held (record s { warm_of = insert key_discrete (b, r) c.0 s.warm_of }) b r ≡ true)
    warmed c l =
        let m = insert key_discrete (b, r) c.0 s.warm_of in
        (
          record {
            same_mode = refl;
            same_n = refl;
            same_blocks = refl;
            same_chosen = refl;
            same_desc = refl;
            same_files = refl;
            same_ranges = refl;
            same_total = refl;
            indexed = record {
              ranges = i.ranges;
              copied = λ b' r' buf p.
                  let (bufs, old, joined) = i.copied b' r' buf p in
                  (bufs, IsLoaded-warm s m b' r' bufs old, joined);
              warm = λ b' r' bufs p. elim (key_discrete (b, r) (b', r')) [
                | yes k ↦
                    let (e, f) = key-eq b b' r r' k in
                    let v : c.0 ≡ bufs =
                      ground (arith, lookup-insert key_discrete (b, r) (b', r') c.0 s.warm_of) in
                    subst (λ x. IsLoaded (record s { warm_of = m }) b' r' x) v
                      (subst (λ x. IsLoaded (record s { warm_of = m }) x r' c.0) e
                        (subst (λ x. IsLoaded (record s { warm_of = m }) b x c.0) f
                          (IsLoaded-warm s m b r c.0 l)))
                | no k ↦ IsLoaded-warm s m b' r' bufs (
                    i.warm b' r' bufs
                      (ground (arith, lookup-insert key_discrete (b, r) (b', r') c.0 s.warm_of)))
              ];
            };
            ram = λ b' r' p. p;
            warm = λ b' r' p.
                ground (arith, has-keys-insert key_discrete (b, r) (b', r') c.0 s.warm_of);
          },
          ground (arith, has-keys-insert key_discrete (b, r) (b, r) c.0 s.warm_of),
        )

warm_roles-Grows :
    (b : ℕ) (rs : List Role) (s : ExpertBank) (t : ExpertBank × ℕ)
    → IsIndexed s
    → warm_roles b rs s ≡ ok t
    → Grows s t.0 × ((r : Role) → has Role-discrete r rs ≡ true → held t.0 b r ≡ true)
unfolding warm_roles has
warm_roles-Grows b [] s t i h =
    subst (λ x. Grows s x × ((r : Role) → has Role-discrete r [] ≡ true → held x b r ≡ true))
      (let e : s ≡ t.0 = ground arith in e) (stays s i, λ r p. absurd (cc))
warm_roles-Grows b (r ∷ rs) s t i h =
    let (u, loaded, rest) = bind-ok (warm_role b r s) _ t h in
    let (v, more, q) = bind-ok (warm_roles b rs u.0) _ t rest in
    let (g, here) = warm_role-Grows b r s u i loaded in
    let (k, there) = warm_roles-Grows b rs u.0 v g.indexed more in
    let e : v.0 ≡ t.0 = ground arith in
    subst (λ x. Grows s x × ((j : Role) → has Role-discrete j (r ∷ rs) ≡ true → held x b j ≡ true))
      e
      (
        Grows-trans s u.0 v.0 g k,
        λ r' p. elim (Role-discrete r' r) [
          | yes f ↦ Grows-held u.0 v.0 b r' k (subst (λ x. held u.0 b x ≡ true) (sym f) here)
          | no n ↦ there r' (ground arith)
        ],
      )

warm_block-Grows :
    (b : ℕ) (s : ExpertBank) (t : ExpertBank × ℕ)
    → IsIndexed s
    → (if has ℕ_discrete b s.blocks then warm_roles b roles s else ok (s, 0)) ≡ ok t
    → Grows s t.0 × ((r : Role) → has ℕ_discrete b s.blocks ≡ true → held t.0 b r ≡ true)
warm_block-Grows b s t i h = elim (Bool-cases (has ℕ_discrete b s.blocks)) [
  | inl known ↦
      let (g, here) = warm_roles-Grows b roles s t i (ground arith) in
      (g, λ r p. here r (any_role r))
  | inr unknown ↦
      subst (λ x. Grows s x × ((r : Role) → has ℕ_discrete b s.blocks ≡ true → held x b r ≡ true))
        (let e : s ≡ t.0 = ground arith in e) (stays s i, λ r p. absurd (cc))
]

pub warm_all-Grows :
    (bs : List ℕ) (s : ExpertBank) (t : ExpertBank × ℕ)
    → IsIndexed s
    → warm_all bs s ≡ ok t
    → Grows s t.0
      × ((b : ℕ) (r : Role)
          → has ℕ_discrete b bs ≡ true
          → has ℕ_discrete b s.blocks ≡ true
          → held t.0 b r ≡ true)
unfolding warm_all has
warm_all-Grows [] s t i h =
    subst
      (λ x.
        Grows s x
        × ((b : ℕ) (r : Role)
            → has ℕ_discrete b [] ≡ true
            → has ℕ_discrete b s.blocks ≡ true
            → held x b r ≡ true))
      (let e : s ≡ t.0 = ground arith in e) (stays s i, λ b r p k. absurd (cc))
warm_all-Grows (b ∷ bs) s t i h =
    let (u, loaded, rest) =
      bind-ok (if has ℕ_discrete b s.blocks then warm_roles b roles s else ok (s, 0)) _ t h in
    let (v, more, q) = bind-ok (warm_all bs u.0) _ t rest in
    let (g, here) = warm_block-Grows b s u i loaded in
    let (k, there) = warm_all-Grows bs u.0 v g.indexed more in
    let e : v.0 ≡ t.0 = ground arith in
    subst
      (λ x.
        Grows s x
        × ((j : ℕ) (r : Role)
            → has ℕ_discrete j (b ∷ bs) ≡ true
            → has ℕ_discrete j s.blocks ≡ true
            → held x j r ≡ true))
      e
      (
        Grows-trans s u.0 v.0 g k,
        λ j r p z. elim (ℕ_discrete j b) [
          | yes f ↦ Grows-held u.0 v.0 j r k (
              subst (λ x. held u.0 x r ≡ true) (sym f)
                (here r (subst (λ x. has ℕ_discrete x s.blocks ≡ true) f z)))
          | no n ↦ there j r (ground arith) (ap (has ℕ_discrete j) g.same_blocks ∙ z)
        ],
      )
