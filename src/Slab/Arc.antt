-- ===== src/Slab/Arc.antt =====
-- The class `ARC` of tools/slab_replay.py: an adaptive replacement cache. `t1` and `t2` hold the
-- resident keys, `b1` and `b2` the ghosts of the keys that they evicted, oldest first.
pub mod Valid
pub mod Access
pub mod Safety
pub mod Trace
use sabah_mo_e_accelerator.Base.{
  ℕ, zero, ◌+◌, ◌-◌, min, max, Bool, true, false, ◌&&◌, ◌||◌, List, [], ltb, leb, ◌==◌,
  if◌then◌else◌, length, has, push, delete, move_to_end, Result, ok, ◌>>=◌, popitem,
}

pub record Arc {ℓ} (K : Type ℓ) : Type ℓ where
  pub c : ℕ
  pub p : ℕ
  pub t1 : List K
  pub t2 : List K
  pub b1 : List K
  pub b2 : List K

-- `__init__`
unfoldable pub init {ℓ} : {K : Type ℓ} → ℕ → Arc K
init cap = record { c = max 2 cap; p = 0; t1 = []; t2 = []; b1 = []; b2 = [] }

-- `d = 1 if len(x) >= len(y) else 0`
abbrev pub delta : ℕ → ℕ → ℕ
delta x y = if leb y x then 1 else 0

module _ {ℓ} {K : Type ℓ} (dec : Discrete K) where
  -- `_replace`; `popitem` of an empty dictionary raises `KeyError`.
  unfoldable pub replace : Arc K → Bool → Result (Arc K)
  unfolding popitem
  replace a in_b2 =
      if ltb 0 (length a.t1) && (ltb a.p (length a.t1) || (in_b2 && length a.t1 == a.p))
      then popitem a.t1 >>= (λ e. ok (record a { t1 = e.1; b1 = push dec e.0 a.b1 }))
      else popitem a.t2 >>= (λ e. ok (record a { t2 = e.1; b2 = push dec e.0 a.b2 }))

  -- The branch of `access` for a ghost of `b1`, and the one for a ghost of `b2`.
  unfoldable pub access_b1 : Arc K → K → Result (Arc K × Bool)
  access_b1 a k =
      replace (record a { p = min (a.p + delta (length a.b1) (length a.b2)) a.c }) false
      >>= (λ r. ok (record r { b1 = delete dec k r.b1; t2 = push dec k r.t2 }, false))

  unfoldable pub access_b2 : Arc K → K → Result (Arc K × Bool)
  access_b2 a k =
      replace (record a { p = max (a.p - delta (length a.b2) (length a.b1)) 0 }) true
      >>= (λ r. ok (record r { b2 = delete dec k r.b2; t2 = push dec k r.t2 }, false))

  -- What `access` does for a key that is in none of the four lists, before it is added to `t1`.
  unfoldable pub make_room : Arc K → Result (Arc K)
  unfolding popitem
  make_room a =
      if length a.t1 + length a.b1 == a.c
      then (if ltb (length a.t1) a.c
          then popitem a.b1 >>= (λ e. replace (record a { b1 = e.1 }) false)
          else popitem a.t1 >>= (λ e. ok (record a { t1 = e.1 })))
      else (if leb a.c (length a.t1 + length a.b1 + length a.t2 + length a.b2)
          then (if ltb (length a.t2 + length a.b2) a.c
              then replace a false
              else popitem a.t2 >>= (λ e. ok (record a { t2 = e.1 })))
          else ok a)

  -- `access`: the cache afterwards, and whether the key was resident.
  unfoldable pub access : Arc K → K → Result (Arc K × Bool)
  access a k =
      if has dec k a.t1
      then ok (record a { t1 = delete dec k a.t1; t2 = push dec k a.t2 }, true)
      else (if has dec k a.t2
          then ok (record a { t2 = move_to_end dec k a.t2 }, true)
          else (if has dec k a.b1
              then access_b1 a k
              else (if has dec k a.b2
                  then access_b2 a k
                  else make_room a >>= (λ r. ok (record r { t1 = push dec k r.t1 }, false)))))
