-- ===== src/Planner/Warm/Best.antt =====
-- `_select_warm_blocks` picks as many blocks as the budget can cover.
use sabah_mo_e_accelerator.Base.{
  ℕ, zero, suc, ◌+◌, ◌*◌, ◌≤◌, ◌<◌, ◌≡◌, sym, subst, ◌∙◌, ◌⊎◌, Bool, true, false, List, [], ◌∷◌,
  keys, length-keys, has, has-sort, sort, length, length-sort, leb, ◌==◌, ℕ_discrete, Distinct,
  arith, Bool-cases, inl, inr,
}
use native.Mathlib.Nat.{mul-le-mul_right}
use sabah_mo_e_accelerator.Planner.Warm.{insert_smallest, by_size, pick, select_warm_blocks}
use sabah_mo_e_accelerator.Planner.Warm.Greedy.{
  kept_bytes, kept_count, kept_bytes-ext, by_size-kept_bytes, by_size-kept_count, by_size-Distinct,
  has-by_size, has-pick, picked-fits,
}

abbrev Above : ℕ → List (ℕ × ℕ) → Type 0
Above n [] = Unit
Above n (x ∷ xs) = n ≤ x.1

abbrev Ascending : List (ℕ × ℕ) → Type 0
Ascending [] = Unit
Ascending (x ∷ xs) = Above x.1 xs × Ascending xs

insert_smallest-Above :
    (n : ℕ) (x : ℕ × ℕ) (xs : List (ℕ × ℕ)) → n ≤ x.1 → Above n xs → Above n (insert_smallest x xs)
unfolding insert_smallest
insert_smallest-Above n x [] l a = l
insert_smallest-Above n x (y ∷ ys) l a = ground arith

insert_smallest-Ascending :
    (x : ℕ × ℕ) (xs : List (ℕ × ℕ)) → Ascending xs → Ascending (insert_smallest x xs)
unfolding insert_smallest
insert_smallest-Ascending x [] a = (tt, tt)
insert_smallest-Ascending x (y ∷ ys) a = elim (Bool-cases (leb x.1 y.1)) [
  | inl low ↦
      subst Ascending (let e : x ∷ y ∷ ys ≡ insert_smallest x (y ∷ ys) = ground arith in e)
        (ground arith, a)
  | inr high ↦
      subst Ascending
        (let e : y ∷ insert_smallest x ys ≡ insert_smallest x (y ∷ ys) = ground arith in e)
        (insert_smallest-Above y.1 x ys (ground arith) a.0, insert_smallest-Ascending x ys a.1)
]

by_size-Ascending : (xs : List (ℕ × ℕ)) → Ascending (by_size xs)
unfolding by_size
by_size-Ascending [] = tt
by_size-Ascending (x ∷ xs) = insert_smallest-Ascending x (by_size xs) (by_size-Ascending xs)

module _ (n_experts : ℕ) where
  -- The bytes of the first blocks.
  abbrev first_bytes : ℕ → List (ℕ × ℕ) → ℕ
  first_bytes zero xs = 0
  first_bytes (suc k) [] = 0
  first_bytes (suc k) (x ∷ xs) = x.1 * n_experts + first_bytes k xs

  first_bytes-skip :
      (k : ℕ) (x : ℕ × ℕ) (xs : List (ℕ × ℕ))
      → Ascending (x ∷ xs)
      → k ≤ length xs
      → first_bytes k (x ∷ xs) ≤ first_bytes k xs
  first_bytes-skip zero x xs a l = omega arith
  first_bytes-skip (suc k) x [] a l = absurd (omega arith)
  first_bytes-skip (suc k) x (y ∷ ys) a l =
      omega (arith, mul-le-mul_right n_experts a.0, first_bytes-skip k y ys a.1 (omega arith))

  kept_count-length : (keep : ℕ → Bool) (xs : List (ℕ × ℕ)) → kept_count keep xs ≤ length xs
  kept_count-length keep [] = omega arith
  kept_count-length keep (x ∷ xs) = ground (arith, kept_count-length keep xs)

  -- The smallest blocks are no larger than any others, as many.
  first_bytes-least :
      (keep : ℕ → Bool) (xs : List (ℕ × ℕ))
      → Ascending xs
      → first_bytes (kept_count keep xs) xs ≤ kept_bytes keep n_experts xs
  first_bytes-least keep [] a = omega arith
  first_bytes-least keep (x ∷ xs) a = elim (Bool-cases (keep x.0)) [
    | inl kept ↦
        let c : kept_count keep (x ∷ xs) ≡ suc (kept_count keep xs) = ground arith in
        let v : kept_bytes keep n_experts (x ∷ xs)
            ≡ x.1 * n_experts + kept_bytes keep n_experts xs =
          ground arith in
        subst (λ k. first_bytes k (x ∷ xs) ≤ kept_bytes keep n_experts (x ∷ xs)) (sym c)
          (omega (arith, v, first_bytes-least keep xs a.1))
    | inr left ↦
        let c : kept_count keep (x ∷ xs) ≡ kept_count keep xs = ground arith in
        let v : kept_bytes keep n_experts (x ∷ xs) ≡ kept_bytes keep n_experts xs = ground arith in
        subst (λ k. first_bytes k (x ∷ xs) ≤ kept_bytes keep n_experts (x ∷ xs)) (sym c)
          (omega (
            arith,
            v,
            first_bytes-least keep xs a.1,
            first_bytes-skip (kept_count keep xs) x xs a (kept_count-length keep xs),
          ))
  ]

  -- The greedy choice takes the first blocks as long as they fit.
  pick-longest :
      (warm_bytes used k : ℕ) (xs : List (ℕ × ℕ))
      → k ≤ length xs
      → used + first_bytes k xs ≤ warm_bytes
      → k ≤ length (pick n_experts warm_bytes used xs)
  unfolding pick
  pick-longest warm_bytes used zero xs l h = omega arith
  pick-longest warm_bytes used (suc k) [] l h = absurd (omega arith)
  pick-longest warm_bytes used (suc k) (x ∷ xs) l h =
      ground
        (arith, pick-longest warm_bytes (used + x.1 * n_experts) k xs (omega arith) (omega arith))

-- What `_select_warm_blocks` promises: blocks of the model, within the budget, and no other choice
-- within the budget has more of them.
pub record IsBest (n_experts : ℕ) (per : List (ℕ × ℕ)) (warm_bytes : ℕ) (keep : ℕ → Bool) (b : ℕ)
    (out : List ℕ) : Type 0 where
  pub known : (has ℕ_discrete b out ≡ false) ⊎ (has ℕ_discrete b (keys per) ≡ true)
  pub fits : kept_bytes (λ j. has ℕ_discrete j out) n_experts per ≤ warm_bytes
  pub most : (kept_count keep per ≤ length out) ⊎ (warm_bytes < kept_bytes keep n_experts per)

pick-IsBest :
    (n_experts : ℕ) (per : List (ℕ × ℕ)) (warm_bytes : ℕ) (keep : ℕ → Bool) (b : ℕ)
    → Distinct ℕ_discrete (keys per)
    → IsBest n_experts per warm_bytes keep b
        (sort (keys (pick n_experts warm_bytes 0 (by_size per))))
pick-IsBest n_experts per warm_bytes keep b d =
    let xs = by_size per in
    let taken = keys (pick n_experts warm_bytes 0 xs) in
    let same =
      kept_bytes-ext (λ j. has ℕ_discrete j (sort taken)) n_experts (λ j. has ℕ_discrete j taken) xs
        (λ j p. has-sort j taken) in
    let moved = by_size-kept_bytes (λ j. has ℕ_discrete j (sort taken)) n_experts per in
    record {
      known = elim (Bool-cases (has ℕ_discrete b (sort taken))) [
        | inr out ↦ inl out
        | inl chosen ↦ inr (
            sym (has-by_size b per)
            ∙ has-pick n_experts warm_bytes 0 b xs (sym (has-sort b taken) ∙ chosen))
      ];
      fits = omega (
        arith,
        same,
        moved,
        picked-fits n_experts warm_bytes 0 xs (by_size-Distinct per d) (omega arith),
      );
      most = elim (Bool-cases (leb (kept_bytes keep n_experts per) warm_bytes)) [
        | inr over ↦ inr (ground arith)
        | inl within ↦ inl (
            omega (
              arith,
              length-sort taken,
              length-keys (pick n_experts warm_bytes 0 xs),
              by_size-kept_count keep n_experts per,
              pick-longest n_experts warm_bytes 0 (kept_count keep xs) xs
                  (kept_count-length n_experts keep xs)
                  (let l : kept_bytes keep n_experts per ≤ warm_bytes = ground arith in
                    omega (
                      arith,
                      l,
                      by_size-kept_bytes keep n_experts per,
                      first_bytes-least n_experts keep xs (by_size-Ascending per),
                    )),
            ))
      ];
    }

-- For a model whose blocks are distinct and a positive budget, the blocks picked to be pinned are
-- blocks of the model, the bytes of their experts fit the budget, and no other choice of blocks whose
-- bytes fit it has more blocks.
pub select_warm_blocks-IsBest :
    (n_experts : ℕ) (per : List (ℕ × ℕ)) (warm_bytes : ℕ) (keep : ℕ → Bool) (b : ℕ)
    → Distinct ℕ_discrete (keys per)
    → 0 < warm_bytes
    → IsBest n_experts per warm_bytes keep b (select_warm_blocks n_experts per warm_bytes)
unfolding select_warm_blocks
select_warm_blocks-IsBest n_experts per warm_bytes keep b d positive =
    let z : (warm_bytes == 0) ≡ false = ground arith in
    rw z (pick-IsBest n_experts per warm_bytes keep b d)
