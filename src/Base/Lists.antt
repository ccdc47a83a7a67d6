-- ===== src/Base/Lists.antt =====
-- Lists measured by native numbers, and Python's `sum`, `in` and slices.
use Prim.Native.Nat.{ℕ, zero, suc, ◌+◌, ◌-◌, ◌≤◌, min}
use mathlib.Core.Bool.{Bool, true, false, ◌||◌}
use mathlib.Core.List.{List, [], ◌∷◌, ◌++◌}
use mathlib.Core.Option.{Option, none, some}
use mathlib.Core.Path.{◌≡◌, refl, sym, subst}
use native.Mathlib.Omega.{arith}
use sabah_mo_e_accelerator.Base.Tests.{is_yes}

module _ {ℓ} {A : Type ℓ} where
  abbrev pub length : List A → ℕ
  length [] = 0
  length (x ∷ xs) = suc (length xs)

  unfoldable pub take : ℕ → List A → List A
  take zero xs = []
  take (suc n) [] = []
  take (suc n) (x ∷ xs) = x ∷ take n xs

  -- `xs[i]`
  abbrev pub nth : List A → ℕ → Option A
  nth [] i = none
  nth (x ∷ xs) zero = some x
  nth (x ∷ xs) (suc i) = nth xs i

  abbrev pub drop : ℕ → List A → List A
  drop zero xs = xs
  drop (suc n) [] = []
  drop (suc n) (x ∷ xs) = drop n xs

  -- `xs[o:o + n]`
  unfoldable pub slice : ℕ → ℕ → List A → List A
  unfolding take
  slice o n xs = take n (drop o xs)

  length-drop : (n : ℕ) (xs : List A) → length (drop n xs) ≡ length xs - n
  length-drop zero xs = omega arith
  length-drop (suc n) [] = omega arith
  length-drop (suc n) (x ∷ xs) = omega (arith, length-drop n xs)

  length-take : (n : ℕ) (xs : List A) → length (take n xs) ≡ min n (length xs)
  unfolding take
  length-take zero xs = omega arith
  length-take (suc n) [] = omega arith
  length-take (suc n) (x ∷ xs) = omega (arith, length-take n xs)

  -- A slice inside the list has all its elements.
  pub length-slice : (o n : ℕ) (xs : List A) → o + n ≤ length xs → length (slice o n xs) ≡ n
  unfolding slice
  length-slice o n xs h = omega (arith, length-take n (drop o xs), length-drop o xs)

  pub length-append : (xs ys : List A) → length (xs ++ ys) ≡ length xs + length ys
  length-append [] ys = omega arith
  length-append (x ∷ xs) ys = omega (arith, length-append xs ys)

  abbrev pub replicate : ℕ → A → List A
  replicate zero a = []
  replicate (suc n) a = a ∷ replicate n a

  abbrev pub get_or : List A → ℕ → A → A
  get_or [] i d = d
  get_or (x ∷ xs) zero d = x
  get_or (x ∷ xs) (suc i) d = get_or xs i d

  -- A write out of bounds changes nothing.
  abbrev pub set : List A → ℕ → A → List A
  set [] i v = []
  set (x ∷ xs) zero v = v ∷ xs
  set (x ∷ xs) (suc i) v = x ∷ set xs i v

  -- A predicate on every element, as a tuple.
  abbrev pub All {κ} : (A → Type κ) → List A → Type κ
  All P [] = Unit
  All P (x ∷ xs) = P x × All P xs

  pub length-take-le : (n : ℕ) (xs : List A) → length (take n xs) ≤ n
  unfolding take
  length-take-le (suc n) (x ∷ xs) = omega (arith, length-take-le n xs)
  length-take-le _ _ = omega arith

abbrev pub sum : List ℕ → ℕ
sum [] = 0
sum (x ∷ xs) = x + sum xs

pub sum-append : (xs ys : List ℕ) → sum (xs ++ ys) ≡ sum xs + sum ys
sum-append [] ys = omega arith
sum-append (x ∷ xs) ys = omega (arith, sum-append xs ys)

module _ {ℓ} {A : Type ℓ} (dec : Discrete A) where
  -- `a in xs`
  unfoldable pub has : A → List A → Bool
  has a [] = false
  has a (x ∷ xs) = is_yes (dec a x) || has a xs

  pub has-append : (a : A) (xs ys : List A) → has a xs ≡ true → has a (xs ++ ys) ≡ true
  unfolding has
  has-append a [] ys h = cc
  has-append a (x ∷ xs) ys h = ground (arith, has-append a xs ys)

  pub has-append_right : (a : A) (xs ys : List A) → has a xs ≡ false → has a (xs ++ ys) ≡ has a ys
  unfolding has
  has-append_right a [] ys h = refl
  has-append_right a (x ∷ xs) ys h = ground (arith, has-append_right a xs ys)

  -- A list without repetitions.
  abbrev pub Distinct : List A → Type 0
  Distinct [] = Unit
  Distinct (x ∷ xs) = (has x xs ≡ false) × Distinct xs

  -- What holds of every element, and what holds of each `a in xs`.
  pub All-has {κ} : (P : A → Type κ) (xs : List A) → All P xs → (a : A) → has a xs ≡ true → P a
  unfolding has
  All-has P [] h a q = absurd (cc)
  All-has P (x ∷ xs) h a q = elim (dec a x) [
    | yes e ↦ subst P (sym e) h.0
    | no n ↦ All-has P xs h.1 a (ground arith)
  ]

  pub has-All {κ} : (P : A → Type κ) (xs : List A) → ((a : A) → has a xs ≡ true → P a) → All P xs
  unfolding has
  has-All P [] h = tt
  has-All P (x ∷ xs) h = (h x (ground arith), has-All P xs (λ a q. h a (ground arith)))
