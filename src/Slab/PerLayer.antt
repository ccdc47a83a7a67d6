-- ===== src/Slab/PerLayer.antt =====
-- The class `PerLayer` of tools/slab_replay.py: an `LRU` order for each layer. `layer` is `k[1]`.
pub mod Layers
use sabah_mo_e_accelerator.Base.{
  ℕ, ◌/◌, max, Bool, List, [], Option, none, some, lookup, insert, if◌then◌else◌, has, push,
  move_to_end, true, false, Result, ok, ◌>>=◌, ℕ_discrete,
}
use sabah_mo_e_accelerator.Slab.Lru.{make_room}

pub record PerLayer (K : Type 0) : Type 0 where
  pub cap : ℕ
  pub d : List (ℕ × List K)

-- `__init__`
unfoldable pub init : {K : Type 0} → ℕ → ℕ → PerLayer K
init cap n_layers = record { cap = max 1 (cap / max 1 n_layers); d = [] }

abbrev pub or_empty : {K : Type 0} → Option (List K) → List K
or_empty none = []
or_empty (some d) = d

-- `self.d[layer]`, a `defaultdict`.
abbrev pub keys_of : {K : Type 0} → ℕ → PerLayer K → List K
keys_of l p = or_empty (lookup ℕ_discrete l p.d)

module _ {K : Type 0} (dec : Discrete K) (layer : K → ℕ) where
  -- `access`
  unfoldable pub access : PerLayer K → K → Result (PerLayer K × Bool)
  unfolding make_room
  access p k =
      let d = keys_of (layer k) p in
      if has dec k d
      then ok (record p { d = insert ℕ_discrete (layer k) (move_to_end dec k d) p.d }, true)
      else (make_room p.cap d >>= λ r.
          ok (record p { d = insert ℕ_discrete (layer k) (push dec k r) p.d }, false))
