-- ===== src/Base/Dict.antt =====
-- Python's `dict` as its entries in insertion order; `d.get(k)` is the library's `lookup`.
use mathlib.Core.Bool.{false, ◌||◌}
use mathlib.Core.List.{List, [], ◌∷◌, lookup}
use mathlib.Core.Logic.{ite}
use mathlib.Core.Option.{none, some}
use mathlib.Core.Path.{◌≡◌, refl}
use native.Mathlib.Omega.{arith}
use sabah_mo_e_accelerator.Base.Tests.{is_yes, is_some}
use Prim.Native.Nat.{suc}
use sabah_mo_e_accelerator.Base.Lists.{length, has, Distinct}

module _ {ℓ} {K V : Type ℓ} where
  abbrev pub keys : List (K × V) → List K
  keys [] = []
  keys (e ∷ d) = e.0 ∷ keys d

  pub length-keys : (d : List (K × V)) → length (keys d) ≡ length d
  length-keys [] = refl
  length-keys (e ∷ d) = omega (arith, length-keys d)

module _ {ℓ} {K V : Type ℓ} (dec : Discrete K) where
  -- `d[k] = v`
  unfoldable pub insert : K → V → List (K × V) → List (K × V)
  insert k v [] = (k, v) ∷ []
  insert k v (e ∷ d) = ite (dec k e.0) ((e.0, v) ∷ d) (e ∷ insert k v d)

  -- `del d[k]`, `d.pop(k, None)`
  unfoldable pub remove : K → List (K × V) → List (K × V)
  remove k [] = []
  remove k (e ∷ d) = ite (dec k e.0) d (e ∷ remove k d)

  pub lookup-insert :
      (k j : K) (v : V) (d : List (K × V))
      → lookup dec j (insert k v d) ≡ ite (dec k j) (some v) (lookup dec j d)
  unfolding lookup insert
  lookup-insert k j v [] = ground arith
  lookup-insert k j v (e ∷ d) = ground (arith, lookup-insert k j v d)

  -- `k in d`
  pub has-keys-lookup :
      (k : K) (d : List (K × V)) → lookup dec k d ≡ none → has dec k (keys d) ≡ false
  unfolding lookup has
  has-keys-lookup k [] h = refl
  has-keys-lookup k (e ∷ d) h = ground (arith, has-keys-lookup k d)

  pub lookup-has-keys :
      (k : K) (d : List (K × V)) → has dec k (keys d) ≡ false → lookup dec k d ≡ none
  unfolding lookup has
  lookup-has-keys k [] h = refl
  lookup-has-keys k (e ∷ d) h = ground (arith, lookup-has-keys k d)

  pub lookup-remove_ne :
      (k j : K) (d : List (K × V)) → ¬ (k ≡ j) → lookup dec j (remove k d) ≡ lookup dec j d
  unfolding lookup remove
  lookup-remove_ne k j [] h = refl
  lookup-remove_ne k j (e ∷ d) h = ground (arith, lookup-remove_ne k j d)

  pub lookup-remove_self :
      (k : K) (d : List (K × V)) → Distinct dec (keys d) → lookup dec k (remove k d) ≡ none
  unfolding lookup remove
  lookup-remove_self k [] h = refl
  lookup-remove_self k (e ∷ d) h = ground (arith, lookup-remove_self k d h.1, lookup-has-keys k d)

  pub lookup-remove :
      (k j : K) (d : List (K × V))
      → Distinct dec (keys d)
      → lookup dec j (remove k d) ≡ ite (dec k j) none (lookup dec j d)
  lookup-remove k j d h = ground (arith, lookup-remove_ne k j d, lookup-remove_self k d h)

  pub has-keys : (k : K) (d : List (K × V)) → has dec k (keys d) ≡ is_some (lookup dec k d)
  unfolding lookup has
  has-keys k [] = refl
  has-keys k (e ∷ d) = ground (arith, has-keys k d)

  pub length-insert :
      (k : K) (v : V) (d : List (K × V))
      → lookup dec k d ≡ none
      → length (insert k v d) ≡ suc (length d)
  unfolding lookup insert
  length-insert k v [] h = refl
  length-insert k v (e ∷ d) h = ground (arith, length-insert k v d)

  pub length-remove :
      (k : K) (v : V) (d : List (K × V))
      → lookup dec k d ≡ some v
      → suc (length (remove k d)) ≡ length d
  unfolding lookup remove
  length-remove k v [] h = cc
  length-remove k v (e ∷ d) h = ground (arith, length-remove k v d)

  pub has-keys-insert :
      (k j : K) (v : V) (d : List (K × V))
      → has dec j (keys (insert k v d)) ≡ (is_yes (dec k j) || has dec j (keys d))
  unfolding has insert
  has-keys-insert k j v [] = ground arith
  has-keys-insert k j v (e ∷ d) = ground (arith, has-keys-insert k j v d)

  pub Distinct-insert :
      (k : K) (v : V) (d : List (K × V))
      → Distinct dec (keys d)
      → Distinct dec (keys (insert k v d))
  unfolding has insert
  Distinct-insert k v [] h = (refl, tt)
  Distinct-insert k v (e ∷ d) h =
      ground (arith, has-keys-insert k e.0 v d, Distinct-insert k v d h.1)

  has-keys-remove :
      (k j : K) (d : List (K × V))
      → has dec j (keys d) ≡ false
      → has dec j (keys (remove k d)) ≡ false
  unfolding has remove
  has-keys-remove k j [] h = refl
  has-keys-remove k j (e ∷ d) h = ground (arith, has-keys-remove k j d)

  pub Distinct-remove :
      (k : K) (d : List (K × V)) → Distinct dec (keys d) → Distinct dec (keys (remove k d))
  unfolding has remove
  Distinct-remove k [] h = tt
  Distinct-remove k (e ∷ d) h = ground (arith, has-keys-remove k e.0 d, Distinct-remove k d h.1)
