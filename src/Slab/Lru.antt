-- ===== src/Slab/Lru.antt =====
-- The class `LRU` of tools/slab_replay.py: the resident keys, the least recently used first.
pub mod Inclusion
use sabah_mo_e_accelerator.Base.{
  ℕ, Bool, true, false, List, [], leb, if◌then◌else◌, length, has, push, move_to_end, Result, ok,
  ◌>>=◌, popitem,
}

pub record Lru {ℓ} (K : Type ℓ) : Type ℓ where
  pub cap : ℕ
  pub d : List K

-- `__init__`
abbrev pub init {ℓ} : {K : Type ℓ} → ℕ → Lru K
init cap = record { cap = cap; d = [] }

-- The oldest key leaves a full cache.
unfoldable pub make_room {ℓ} : {K : Type ℓ} → ℕ → List K → Result (List K)
unfolding popitem
make_room cap d = if leb cap (length d) then (popitem d >>= λ e. ok e.1) else ok d

module _ {ℓ} {K : Type ℓ} (dec : Discrete K) where
  -- `access`: the cache afterwards, and whether the key was resident.
  unfoldable pub access : Lru K → K → Result (Lru K × Bool)
  unfolding make_room
  access l k =
      if has dec k l.d
      then ok (record l { d = move_to_end dec k l.d }, true)
      else (make_room l.cap l.d >>= λ d. ok (record l { d = push dec k d }, false))
