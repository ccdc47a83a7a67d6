-- ===== src/Base/Keys.antt =====
-- The keys of a Python `OrderedDict` whose values do not matter, and a `set`: the oldest first.
use mathlib.Core.Bool.{true, false, not, ◌||◌, ◌&&◌}
use mathlib.Core.List.{List, [], ◌∷◌, ◌++◌}
use mathlib.Core.Logic.{ite}
use mathlib.Core.Path.{◌≡◌, refl}
use native.Mathlib.Omega.{arith}
use sabah_mo_e_accelerator.Base.Tests.{is_yes}
use sabah_mo_e_accelerator.Base.Errors.{Result, ok, raise, key_error}
use Prim.Native.Nat.{suc, ◌≤◌, ◌<◌}
use sabah_mo_e_accelerator.Base.Lists.{length, has, Distinct}

-- `d.popitem(last=False)`
unfoldable pub popitem {ℓ} : {K : Type ℓ} → List K → Result (K × List K)
popitem [] = raise key_error
popitem (x ∷ xs) = ok (x, xs)

-- A non-empty dictionary has an oldest key.
pub popitem-oldest {ℓ} :
    {K : Type ℓ} (xs : List K)
    → 0 < length xs
    → (x : K) × (r : List K) × (xs ≡ x ∷ r) × (popitem xs ≡ ok (x, r))
unfolding popitem
popitem-oldest [] h = absurd (omega arith)
popitem-oldest (x ∷ r) h = (x, r, refl, refl)

module _ {ℓ} {K : Type ℓ} (dec : Discrete K) where
  -- `d[k] = True`: a new key goes to the end, a present one keeps its place.
  unfoldable pub push : K → List K → List K
  push k [] = k ∷ []
  push k (x ∷ xs) = x ∷ ite (dec k x) xs (push k xs)

  -- `del d[k]`
  unfoldable pub delete : K → List K → List K
  delete k [] = []
  delete k (x ∷ xs) = ite (dec k x) xs (x ∷ delete k xs)

  -- `d.move_to_end(k)` of a present key.
  unfoldable pub move_to_end : K → List K → List K
  unfolding delete
  move_to_end k xs = delete k xs ++ k ∷ []

  -- The distinct elements in the order of their first occurrence, `list(dict.fromkeys(xs))`.
  unfoldable pub fromkeys_from : List K → List K → List K
  unfolding push
  fromkeys_from d [] = d
  fromkeys_from d (x ∷ xs) = fromkeys_from (push x d) xs

  abbrev pub fromkeys : List K → List K
  fromkeys xs = fromkeys_from [] xs

  pub has-push :
      (k j : K) (xs : List K) → has dec j (push k xs) ≡ (is_yes (dec k j) || has dec j xs)
  unfolding has push
  has-push k j [] = ground arith
  has-push k j (x ∷ xs) = ground (arith, has-push k j xs)

  pub length-push :
      (k : K) (xs : List K) → has dec k xs ≡ false → length (push k xs) ≡ suc (length xs)
  unfolding has push
  length-push k [] h = refl
  length-push k (x ∷ xs) h = ground (arith, length-push k xs)

  pub length-push-le : (k : K) (xs : List K) → length (push k xs) ≤ suc (length xs)
  unfolding has push
  length-push-le k [] = omega arith
  length-push-le k (x ∷ xs) = ground (arith, length-push-le k xs)

  pub push-absent : (k : K) (xs : List K) → has dec k xs ≡ false → push k xs ≡ xs ++ k ∷ []
  unfolding has push
  push-absent k [] h = refl
  push-absent k (x ∷ xs) h = ground (arith, push-absent k xs)

  pub push_present : (k : K) (xs : List K) → has dec k xs ≡ true → push k xs ≡ xs
  unfolding has push
  push_present k [] h = cc
  push_present k (x ∷ xs) h = ground (arith, push_present k xs)

  pub Distinct-push : (k : K) (xs : List K) → Distinct dec xs → Distinct dec (push k xs)
  unfolding has push
  Distinct-push k [] d = (refl, tt)
  Distinct-push k (x ∷ xs) d = ground (arith, has-push k x xs, Distinct-push k xs d.1)

  pub has-delete_ne : (k j : K) (xs : List K) → ¬ (k ≡ j) → has dec j (delete k xs) ≡ has dec j xs
  unfolding has delete
  has-delete_ne k j [] h = refl
  has-delete_ne k j (x ∷ xs) h = ground (arith, has-delete_ne k j xs)

  pub has-delete_self : (k : K) (xs : List K) → Distinct dec xs → has dec k (delete k xs) ≡ false
  unfolding has delete
  has-delete_self k [] d = refl
  has-delete_self k (x ∷ xs) d = ground (arith, has-delete_self k xs d.1)

  pub has-delete :
      (k j : K) (xs : List K)
      → Distinct dec xs
      → has dec j (delete k xs) ≡ (not (is_yes (dec k j)) && has dec j xs)
  has-delete k j xs d = ground (arith, has-delete_ne k j xs, has-delete_self k xs d)

  pub length-delete :
      (k : K) (xs : List K) → has dec k xs ≡ true → suc (length (delete k xs)) ≡ length xs
  unfolding has delete
  length-delete k [] h = cc
  length-delete k (x ∷ xs) h = ground (arith, length-delete k xs)

  pub Distinct-delete : (k : K) (xs : List K) → Distinct dec xs → Distinct dec (delete k xs)
  unfolding has delete
  Distinct-delete k [] d = tt
  Distinct-delete k (x ∷ xs) d = ground (arith, has-delete k x xs d.1, Distinct-delete k xs d.1)

  has-snoc : (k j : K) (xs : List K) → has dec j (xs ++ k ∷ []) ≡ (is_yes (dec k j) || has dec j xs)
  unfolding has
  has-snoc k j [] = ground arith
  has-snoc k j (x ∷ xs) = ground (arith, has-snoc k j xs)

  Distinct-snoc :
      (k : K) (xs : List K) → has dec k xs ≡ false → Distinct dec xs → Distinct dec (xs ++ k ∷ [])
  unfolding has
  Distinct-snoc k [] h d = (refl, tt)
  Distinct-snoc k (x ∷ xs) h d = ground (arith, has-snoc k x xs, Distinct-snoc k xs)

  pub has-move_to_end :
      (k j : K) (xs : List K)
      → Distinct dec xs
      → has dec j (move_to_end k xs) ≡ (is_yes (dec k j) || has dec j xs)
  unfolding move_to_end
  has-move_to_end k j xs d = ground (arith, has-snoc k j (delete k xs), has-delete k j xs d)

  pub length-move_to_end :
      (k : K) (xs : List K) → has dec k xs ≡ true → length (move_to_end k xs) ≡ length xs
  unfolding move_to_end
  length-move_to_end k xs h = ground (arith, length-snoc (delete k xs), length-delete k xs)
    where
      length-snoc : (ys : List K) → length (ys ++ k ∷ []) ≡ suc (length ys)
      length-snoc [] = refl
      length-snoc (y ∷ ys) = omega (arith, length-snoc ys)

  pub Distinct-move_to_end :
      (k : K) (xs : List K) → Distinct dec xs → Distinct dec (move_to_end k xs)
  unfolding move_to_end
  Distinct-move_to_end k xs d =
      Distinct-snoc k (delete k xs) (has-delete_self k xs d) (Distinct-delete k xs d)

  has-fromkeys_from :
      (j : K) (d xs : List K) → has dec j (fromkeys_from d xs) ≡ (has dec j d || has dec j xs)
  unfolding has fromkeys_from
  has-fromkeys_from j d [] = ground arith
  has-fromkeys_from j d (x ∷ xs) = ground (arith, has-fromkeys_from j (push x d) xs, has-push x j d)

  pub has-fromkeys : (j : K) (xs : List K) → has dec j (fromkeys xs) ≡ has dec j xs
  unfolding has
  has-fromkeys j xs = has-fromkeys_from j [] xs

  Distinct-fromkeys_from : (d xs : List K) → Distinct dec d → Distinct dec (fromkeys_from d xs)
  unfolding fromkeys_from
  Distinct-fromkeys_from d [] h = h
  Distinct-fromkeys_from d (x ∷ xs) h = Distinct-fromkeys_from (push x d) xs (Distinct-push x d h)

  pub Distinct-fromkeys : (xs : List K) → Distinct dec (fromkeys xs)
  Distinct-fromkeys xs = Distinct-fromkeys_from [] xs tt

  pub has-last : (k : K) (xs : List K) → has dec k (xs ++ k ∷ []) ≡ true
  unfolding has
  has-last k [] = ground arith
  has-last k (x ∷ xs) = ground (arith, has-last k xs)

  -- Keys without repetition that all occur in another list are no more than it has.
  pub length-le-of_subset :
      (xs ys : List K)
      → Distinct dec xs
      → ((j : K) → has dec j xs ≡ true → has dec j ys ≡ true)
      → length xs ≤ length ys
  unfolding has
  length-le-of_subset [] ys d h = omega arith
  length-le-of_subset (x ∷ xs) ys d h =
      let there = h x (ground arith) in
      omega (
        arith,
        length-delete x ys there,
        length-le-of_subset xs (delete x ys) d.1 λ j q. ground (arith, has-delete_ne x j ys, h j),
      )

-- The equality of pairs, part by part.
abbrev both {ℓ ℓ'} :
    {A : Type ℓ} {B : Type ℓ'} (p q : A × B) → Dec (p.0 ≡ q.0) → Dec (p.1 ≡ q.1) → Dec (p ≡ q)
both p q (yes e) (yes f) = yes (λ i. (e i, f i))
both p q (yes e) (no n) = no (λ r. n (λ i. (r i).1))
both p q (no n) d = no (λ r. n (λ i. (r i).0))

unfoldable pub pair_discrete {ℓ ℓ'} :
    {A : Type ℓ} {B : Type ℓ'} → Discrete A → Discrete B → Discrete (A × B)
pair_discrete d e p q = both p q (d p.0 q.0) (e p.1 q.1)
