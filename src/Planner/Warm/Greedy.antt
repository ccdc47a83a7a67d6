-- ===== src/Planner/Warm/Greedy.antt =====
-- The bytes of the blocks that `_select_warm_blocks` picks.
use sabah_mo_e_accelerator.Base.{
  ℕ, ◌+◌, ◌*◌, ◌≤◌, ◌≡◌, refl, ap, ◌∙◌, Bool, true, false, List, [], ◌∷◌, keys, has, leb,
  if◌then◌else◌, ℕ_discrete, Distinct, arith, Bool-cases, inl, inr,
}
use sabah_mo_e_accelerator.Planner.Warm.{insert_smallest, by_size, pick}

-- The bytes of the experts of the blocks that are kept, and their number.
abbrev pub kept_bytes : (ℕ → Bool) → ℕ → List (ℕ × ℕ) → ℕ
kept_bytes keep n_experts [] = 0
kept_bytes keep n_experts (x ∷ xs) =
    (if keep x.0 then x.1 * n_experts else 0) + kept_bytes keep n_experts xs

abbrev pub kept_count : (ℕ → Bool) → List (ℕ × ℕ) → ℕ
kept_count keep [] = 0
kept_count keep (x ∷ xs) = (if keep x.0 then 1 else 0) + kept_count keep xs

module _ (keep : ℕ → Bool) (n_experts : ℕ) where
  insert-kept_bytes :
      (x : ℕ × ℕ) (xs : List (ℕ × ℕ))
      → kept_bytes keep n_experts (insert_smallest x xs) ≡ kept_bytes keep n_experts (x ∷ xs)
  unfolding insert_smallest
  insert-kept_bytes x [] = refl
  insert-kept_bytes x (y ∷ ys) = ground (arith, insert-kept_bytes x ys)

  pub by_size-kept_bytes :
      (xs : List (ℕ × ℕ)) → kept_bytes keep n_experts (by_size xs) ≡ kept_bytes keep n_experts xs
  unfolding by_size
  by_size-kept_bytes [] = refl
  by_size-kept_bytes (x ∷ xs) =
      omega (arith, insert-kept_bytes x (by_size xs), by_size-kept_bytes xs)

  insert-kept_count :
      (x : ℕ × ℕ) (xs : List (ℕ × ℕ))
      → kept_count keep (insert_smallest x xs) ≡ kept_count keep (x ∷ xs)
  unfolding insert_smallest
  insert-kept_count x [] = refl
  insert-kept_count x (y ∷ ys) = ground (arith, insert-kept_count x ys)

  pub by_size-kept_count : (xs : List (ℕ × ℕ)) → kept_count keep (by_size xs) ≡ kept_count keep xs
  unfolding by_size
  by_size-kept_count [] = refl
  by_size-kept_count (x ∷ xs) =
      omega (arith, insert-kept_count x (by_size xs), by_size-kept_count xs)

  -- Two choices that agree on the blocks keep the same bytes.
  pub kept_bytes-ext :
      (other : ℕ → Bool) (xs : List (ℕ × ℕ))
      → ((b : ℕ) → has ℕ_discrete b (keys xs) ≡ true → keep b ≡ other b)
      → kept_bytes keep n_experts xs ≡ kept_bytes other n_experts xs
  unfolding has
  kept_bytes-ext other [] h = refl
  kept_bytes-ext other (x ∷ xs) h =
      ground (arith, h x.0, kept_bytes-ext other xs (λ b p. h b (ground arith)))

has-insert_smallest :
    (b : ℕ) (x : ℕ × ℕ) (xs : List (ℕ × ℕ))
    → has ℕ_discrete b (keys (insert_smallest x xs)) ≡ has ℕ_discrete b (keys (x ∷ xs))
unfolding has insert_smallest
has-insert_smallest b x [] = refl
has-insert_smallest b x (y ∷ ys) = ground (arith, has-insert_smallest b x ys)

pub has-by_size :
    (b : ℕ) (xs : List (ℕ × ℕ)) → has ℕ_discrete b (keys (by_size xs)) ≡ has ℕ_discrete b (keys xs)
unfolding has by_size
has-by_size b [] = refl
has-by_size b (x ∷ xs) = ground (arith, has-insert_smallest b x (by_size xs), has-by_size b xs)

insert_smallest-Distinct :
    (x : ℕ × ℕ) (xs : List (ℕ × ℕ))
    → Distinct ℕ_discrete (keys (x ∷ xs))
    → Distinct ℕ_discrete (keys (insert_smallest x xs))
unfolding has insert_smallest
insert_smallest-Distinct x [] d = d
insert_smallest-Distinct x (y ∷ ys) d =
    ground (arith, has-insert_smallest y.0 x ys, insert_smallest-Distinct x ys)

pub by_size-Distinct :
    (xs : List (ℕ × ℕ)) → Distinct ℕ_discrete (keys xs) → Distinct ℕ_discrete (keys (by_size xs))
unfolding by_size
by_size-Distinct [] d = tt
by_size-Distinct (x ∷ xs) d =
    insert_smallest-Distinct x (by_size xs) (has-by_size x.0 xs ∙ d.0, by_size-Distinct xs d.1)

module _ (n_experts warm_bytes : ℕ) where
  -- What is picked is among the items.
  pub has-pick :
      (used b : ℕ) (xs : List (ℕ × ℕ))
      → has ℕ_discrete b (keys (pick n_experts warm_bytes used xs)) ≡ true
      → has ℕ_discrete b (keys xs) ≡ true
  unfolding has pick
  has-pick used b [] h = h
  has-pick used b (x ∷ xs) h =
      ground (arith, has-pick (used + x.1 * n_experts) b xs, has-pick used b xs)

  abbrev picked : ℕ → List (ℕ × ℕ) → ℕ → Bool
  picked used xs b = has ℕ_discrete b (keys (pick n_experts warm_bytes used xs))

  -- The picked blocks fit the budget with what is used already.
  pub picked-fits :
      (used : ℕ) (xs : List (ℕ × ℕ))
      → Distinct ℕ_discrete (keys xs)
      → used ≤ warm_bytes
      → used + kept_bytes (picked used xs) n_experts xs ≤ warm_bytes
  unfolding has pick
  picked-fits used [] d h = omega arith
  picked-fits used (x ∷ xs) d h = elim (Bool-cases (leb (used + x.1 * n_experts) warm_bytes)) [
    | inl fits ↦
        let e : pick n_experts warm_bytes used (x ∷ xs)
            ≡ x ∷ pick n_experts warm_bytes (used + x.1 * n_experts) xs =
          ground arith in
        let same =
          kept_bytes-ext (picked used (x ∷ xs)) n_experts (picked (used + x.1 * n_experts) xs) xs
            (λ b p. ap (λ l. has ℕ_discrete b (keys l)) e ∙ ground arith) in
        let here : picked used (x ∷ xs) x.0 ≡ true =
          ap (λ l. has ℕ_discrete x.0 (keys l)) e ∙ ground arith in
        let rest = picked-fits (used + x.1 * n_experts) xs d.1 (ground arith) in ground arith
    | inr over ↦
        let e : pick n_experts warm_bytes used (x ∷ xs) ≡ pick n_experts warm_bytes used xs =
          ground arith in
        let same =
          kept_bytes-ext (picked used (x ∷ xs)) n_experts (picked used xs) xs
            (λ b p. ap (λ l. has ℕ_discrete b (keys l)) e) in
        let here : picked used (x ∷ xs) x.0 ≡ false =
          ap (λ l. has ℕ_discrete x.0 (keys l)) e ∙ ground (arith, has-pick used x.0 xs) in
        let rest = picked-fits used xs d.1 h in ground arith
  ]
