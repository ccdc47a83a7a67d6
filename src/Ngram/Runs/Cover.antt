-- ===== src/Ngram/Runs/Cover.antt =====
-- The runs of `_runs` cover the requested rows, start at page boundaries and stop at the limit.
use sabah_mo_e_accelerator.Base.{
  sorted_set, has-sorted_set, ℕ, suc, ◌+◌, ◌-◌, ◌*◌, ◌/◌, ◌%◌, ◌≤◌, ◌<◌, ◌≡◌, refl, ap, ◌∙◌, inl,
  inr, Bool, true, false, ◌&&◌, ◌||◌, List, [], ◌∷◌, Option, none, some, ltb, leb, ◌==◌, has,
  ℕ_discrete, arith, Bool-cases, All, leb→gt, ==→eq,
}
use native.Mathlib.Nat.{mul-mod_right, div-add-mod, lt-div-mul-add, mul-le-mul_right}
use sabah_mo_e_accelerator.Ngram.Runs.{group, groups, low, high, add_run, spans, runs}

-- The address is in one of the runs.
abbrev pub covered : ℕ → List (ℕ × ℕ) → Bool
covered a [] = false
covered a (r ∷ rs) = (leb r.0 a && ltb a (r.0 + r.1)) || covered a rs

-- No limit, or one above the address.
abbrev pub below : ℕ → Option ℕ → Bool
below a none = true
below a (some limit) = ltb a limit

-- A row is in a group exactly if the group's bounds or the rest of the list have it.
group-covered :
    (start prev j : ℕ) (is : List ℕ)
    → start ≤ prev
    → covered j (group start prev is) ≡ ((leb start j && leb j prev) || has ℕ_discrete j is)
unfolding has group
group-covered start prev j [] h = ground arith
group-covered start prev j (i ∷ is) h = elim (Bool-cases (i == prev + 1)) [
  | inl e ↦ let q = ==→eq _ _ e in let r = group-covered start i j is (omega arith) in ground arith
  | inr e ↦ let r = group-covered i i j is (omega arith) in ground arith
]

-- The groups hold exactly the requested rows.
pub groups-covered :
    (j : ℕ) (is : List ℕ) → covered j (groups (sorted_set is)) ≡ has ℕ_discrete j is
unfolding groups has
groups-covered j is = start (sorted_set is) ∙ has-sorted_set j is
  where
    start : (xs : List ℕ) → covered j (groups xs) ≡ has ℕ_discrete j xs
    start [] = refl
    start (x ∷ xs) = ground (arith, group-covered x x j xs)

module _ (page row_bytes base : ℕ) (paged : 0 < page) where
  low-le : (s : ℕ) → low page row_bytes base s ≤ base + s * row_bytes
  unfolding low
  low-le s = omega arith

  high-le : (e : ℕ) → base + e * row_bytes ≤ high page row_bytes base e
  unfolding high
  high-le e =
      let d = lt-div-mul-add {a = base + e * row_bytes + page - 1} {b = page} paged in
      omega (arith, d)

  spans-covered :
      (a j : ℕ) (limit : Option ℕ) (gs : List (ℕ × ℕ))
      → covered j gs ≡ true
      → base + j * row_bytes ≤ a
      → a < base + suc j * row_bytes
      → below a limit ≡ true
      → covered a (spans page row_bytes base limit gs) ≡ true
  unfolding spans add_run
  spans-covered a j limit [] h l u b = absurd (cc)
  spans-covered a j limit ((s, n) ∷ gs) h l u b = elim (Bool-cases (leb s j && ltb j (s + n))) [
    | inl here ↦
        let p = low-le s in
        let q = high-le (s + n) in
        let m = mul-le-mul_right {m = s} {n = j} row_bytes (ground arith) in
        let o = mul-le-mul_right {m = suc j} {n = s + n} row_bytes (ground arith) in
        within limit b (omega arith) (omega arith)
    | inr away ↦ passed limit (spans-covered a j limit gs (ground arith) l u b)
  ]
    where
      within :
          (limit : Option ℕ)
          → below a limit ≡ true
          → low page row_bytes base s ≤ a
          → a < high page row_bytes base (s + n)
          → covered a (
              add_run limit
                (low page row_bytes base s)
                (high page row_bytes base (s + n))
                (spans page row_bytes base limit gs))
            ≡ true
      within none b p q = ground arith
      within (some limit) b p q = ground arith

      passed :
          (limit : Option ℕ)
          → covered a (spans page row_bytes base limit gs) ≡ true
          → covered a (
              add_run limit
                (low page row_bytes base s)
                (high page row_bytes base (s + n))
                (spans page row_bytes base limit gs))
            ≡ true
      passed none c = ground arith
      passed (some limit) c = ground arith

  -- For a positive page size, each byte of a requested row is in one of the runs, if it is below the
  -- limit or there is none.
  pub runs-covered :
      (indices : List ℕ) (limit : Option ℕ) (i a : ℕ)
      → has ℕ_discrete i indices ≡ true
      → base + i * row_bytes ≤ a
      → a < base + suc i * row_bytes
      → below a limit ≡ true
      → covered a (runs page indices row_bytes base limit) ≡ true
  unfolding runs
  runs-covered indices limit i a h l u b =
      spans-covered a i limit (groups (sorted_set indices)) (groups-covered i indices ∙ h) l u b

-- A run starts at a page boundary and ends at the limit at most.
abbrev pub IsBounded : ℕ → Option ℕ → ℕ × ℕ → Type 0
IsBounded page none r = r.0 % page ≡ 0
IsBounded page (some limit) r = (r.0 % page ≡ 0) × (r.0 + r.1 ≤ limit)

module _ (page row_bytes base : ℕ) where
  low-aligned : (s : ℕ) → low page row_bytes base s % page ≡ 0
  unfolding low
  low-aligned s =
      let x = base + s * row_bytes in
      let e : x - x % page ≡ page * (x / page) = omega (arith, div-add-mod x page) in
      ap (λ y. y % page) e ∙ mul-mod_right page (x / page)

  spans-IsBounded :
      (limit : Option ℕ) (gs : List (ℕ × ℕ))
      → All (IsBounded page limit) (spans page row_bytes base limit gs)
  unfolding spans add_run
  spans-IsBounded limit [] = tt
  spans-IsBounded none (g ∷ gs) = (low-aligned g.0, spans-IsBounded none gs)
  spans-IsBounded (some limit) (g ∷ gs) =
      elim (Bool-cases (leb limit (low page row_bytes base g.0))) [
        | inl past ↦ rw past (spans-IsBounded (some limit) gs)
        | inr inside ↦
            let l = leb→gt _ _ inside in
            rw inside ((low-aligned g.0, omega arith), spans-IsBounded (some limit) gs)
      ]

  -- Every run starts at a page boundary, and none ends past the limit.
  pub runs-IsBounded :
      (indices : List ℕ) (limit : Option ℕ)
      → All (IsBounded page limit) (runs page indices row_bytes base limit)
  unfolding runs
  runs-IsBounded indices limit = spans-IsBounded limit (groups (sorted_set indices))
