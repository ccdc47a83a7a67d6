-- ===== src/Base/Sorted.antt =====
-- `sorted` of numbers, and of a set of numbers.
use Prim.Native.Nat.{ℕ, suc}
use mathlib.Core.Bool.{◌||◌}
use mathlib.Core.List.{List, [], ◌∷◌}
use mathlib.Core.Path.{◌≡◌, refl}
use native.Mathlib.Decide.{ℕ_discrete}
use native.Mathlib.Omega.{arith}
use sabah_mo_e_accelerator.Base.Tests.{◌==◌, ltb, leb, if◌then◌else◌}
use sabah_mo_e_accelerator.Base.Lists.{has, length}

unfoldable pub insert_sorted : ℕ → List ℕ → List ℕ
insert_sorted i [] = i ∷ []
insert_sorted i (j ∷ js) =
    let rest = insert_sorted i js in
    if i == j then j ∷ js else (if ltb i j then i ∷ j ∷ js else j ∷ rest)

-- `sorted(set(is))`
unfoldable pub sorted_set : List ℕ → List ℕ
unfolding insert_sorted
sorted_set [] = []
sorted_set (i ∷ is) = insert_sorted i (sorted_set is)

unfoldable pub insert_least : ℕ → List ℕ → List ℕ
insert_least i [] = i ∷ []
insert_least i (j ∷ js) = let rest = insert_least i js in if leb i j then i ∷ j ∷ js else j ∷ rest

-- `sorted(is)`
unfoldable pub sort : List ℕ → List ℕ
unfolding insert_least
sort [] = []
sort (i ∷ is) = insert_least i (sort is)

has-insert_sorted :
    (i j : ℕ) (is : List ℕ)
    → has ℕ_discrete j (insert_sorted i is) ≡ ((j == i) || has ℕ_discrete j is)
unfolding has insert_sorted
has-insert_sorted i j [] = ground arith
has-insert_sorted i j (x ∷ is) = ground (arith, has-insert_sorted i j is)

pub has-sorted_set : (j : ℕ) (is : List ℕ) → has ℕ_discrete j (sorted_set is) ≡ has ℕ_discrete j is
unfolding has sorted_set
has-sorted_set j [] = refl
has-sorted_set j (i ∷ is) =
    ground (arith, has-insert_sorted i j (sorted_set is), has-sorted_set j is)

has-insert_least :
    (i j : ℕ) (is : List ℕ)
    → has ℕ_discrete j (insert_least i is) ≡ ((j == i) || has ℕ_discrete j is)
unfolding has insert_least
has-insert_least i j [] = ground arith
has-insert_least i j (x ∷ is) = ground (arith, has-insert_least i j is)

pub has-sort : (j : ℕ) (is : List ℕ) → has ℕ_discrete j (sort is) ≡ has ℕ_discrete j is
unfolding has sort
has-sort j [] = refl
has-sort j (i ∷ is) = ground (arith, has-insert_least i j (sort is), has-sort j is)

length-insert_least : (i : ℕ) (is : List ℕ) → length (insert_least i is) ≡ suc (length is)
unfolding insert_least
length-insert_least i [] = refl
length-insert_least i (j ∷ js) = ground (arith, length-insert_least i js)

pub length-sort : (is : List ℕ) → length (sort is) ≡ length is
unfolding sort
length-sort [] = refl
length-sort (i ∷ is) = omega (arith, length-insert_least i (sort is), length-sort is)
