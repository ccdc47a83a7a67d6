-- ===== src/Slab/Lfu.antt =====
-- The class `LFU` of tools/slab_replay.py: the resident keys, and how often each was used. `lt` is
-- the order of the keys, which decides between equal counts.
pub mod Least
use sabah_mo_e_accelerator.Base.{
  ℕ, ◌+◌, Bool, true, false, ◌&&◌, ◌||◌, List, [], ◌∷◌, Option, none, some, ltb, leb, ◌==◌,
  if◌then◌else◌, length, has, push, delete, lookup, insert, remove, Result, ok, raise, Error, ◌>>=◌,
}

pub record Lfu (K : Type 0) : Type 0 where
  pub cap : ℕ
  pub d : List K
  pub f : List (K × ℕ)

-- `__init__`
abbrev pub init : {K : Type 0} → ℕ → Lfu K
init cap = record { cap = cap; d = []; f = [] }

abbrev pub or_zero : Option ℕ → ℕ
or_zero none = 0
or_zero (some n) = n

module _ {K : Type 0} (dec : Discrete K) (lt : K → K → Bool) where
  -- `self.f[k]`, a `defaultdict(int)`.
  abbrev pub freq : List (K × ℕ) → K → ℕ
  freq f k = or_zero (lookup dec k f)

  -- The order of the pairs `(self.f[x], x)`.
  unfoldable pub before : List (K × ℕ) → K → K → Bool
  before f x y = ltb (freq f x) (freq f y) || (freq f x == freq f y && lt x y)

  unfoldable pub least_from : List (K × ℕ) → K → List K → K
  unfolding before
  least_from f best [] = best
  least_from f best (x ∷ xs) = least_from f (if before f x best then x else best) xs

  -- `min(self.d, key=lambda x: (self.f[x], x))`, which raises on no keys.
  unfoldable pub least : List (K × ℕ) → List K → Result K
  unfolding least_from
  least f [] = raise Error.value_error
  least f (x ∷ xs) = ok (least_from f x xs)

  -- The least used key leaves a full cache, and its count with it.
  unfoldable pub make_room : Lfu K → Result (Lfu K)
  unfolding least
  make_room l =
      if leb l.cap (length l.d)
      then (least l.f l.d >>= λ v. ok (record l { d = delete dec v l.d; f = remove dec v l.f }))
      else ok l

  -- `access`
  unfoldable pub access : Lfu K → K → Result (Lfu K × Bool)
  unfolding make_room
  access l k =
      if has dec k l.d
      then ok (record l { f = insert dec k (freq l.f k + 1) l.f }, true)
      else (make_room l >>= λ r.
          ok (record r { d = push dec k r.d; f = insert dec k 1 r.f }, false))
