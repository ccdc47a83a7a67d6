-- ===== src/Locality.antt =====
-- tools/trace_locality.py: `lru_hits` and `reuse_distances`. A key is any type; `weight` is
-- `weights[key[0]]`, whole bytes. The quotient that is the hit rate is left as a pair of numbers.
pub mod Policy
pub mod Recent
pub mod Distance
use sabah_mo_e_accelerator.Base.{
  ℕ, suc, ◌+◌, ◌-◌, Bool, true, false, List, [], ◌∷◌, Option, none, some, ltb, ◌==◌, has, push,
  move_to_end, lookup, insert, length, if◌then◌else◌, Result, ok, raise, Error,
}

pub record Tally : Type 0 where
  pub hit_b : ℕ
  pub miss_b : ℕ

-- `hit_b / (hit_b + miss_b), miss_b`: the parts of the quotient, and the bytes missed.
unfoldable pub rate : Tally → Result ((ℕ × ℕ) × ℕ)
rate t =
    let total = t.hit_b + t.miss_b in
    if total == 0 then raise Error.zero_division_error else ok ((t.hit_b, total), t.miss_b)

unfoldable pub counted : ℕ → Bool → Tally → Tally
counted w true t = record t { hit_b = t.hit_b + w }
counted w false t = record t { miss_b = t.miss_b + w }

-- `if len(resident) > capacity: resident.popitem(last=False)`
unfoldable pub trim {ℓ} : {K : Type ℓ} → ℕ → List K → List K
trim cap [] = []
trim cap (x ∷ d) = if ltb cap (length (x ∷ d)) then d else x ∷ d

module _ {ℓ} {K : Type ℓ} (dec : Discrete K) where
  -- The resident keys after an access, the oldest first.
  unfoldable pub touched : ℕ → List K → K → List K
  unfolding trim
  touched cap d k = if has dec k d then move_to_end dec k d else trim cap (push dec k d)

  module _ (weight : K → ℕ) (cap : ℕ) where
    -- The loop of `lru_hits`.
    unfoldable pub lru_loop : List K → Tally → List K → Tally
    unfolding counted touched
    lru_loop d t [] = t
    lru_loop d t (k ∷ ks) = lru_loop (touched cap d k) (counted (weight k) (has dec k d) t) ks

    -- `lru_hits`
    unfoldable pub lru_hits : List K → Result ((ℕ × ℕ) × ℕ)
    unfolding lru_loop rate
    lru_hits ks = rate (lru_loop [] (record { hit_b = 0; miss_b = 0 }) ks)

-- The number of accesses since the last one, at the position `i`; `none` is the -1 of a first touch.
unfoldable pub distance : ℕ → Option ℕ → Option ℕ
distance i none = none
distance i (some j) = some (i - j - 1)

module _ {K : Type 0} (dec : Discrete K) where
  unfoldable pub reuse_from : ℕ → List (K × ℕ) → List K → List (Option ℕ)
  unfolding distance lookup insert
  reuse_from i last [] = []
  reuse_from i last (k ∷ ks) =
      distance i (lookup dec k last) ∷ reuse_from (suc i) (insert dec k i last) ks

  -- `reuse_distances`
  unfoldable pub reuse_distances : List K → List (Option ℕ)
  unfolding reuse_from
  reuse_distances ks = reuse_from 0 [] ks
