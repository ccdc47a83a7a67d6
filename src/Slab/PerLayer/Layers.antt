-- ===== src/Slab/PerLayer/Layers.antt =====
-- `PerLayer` is an independent `LRU` for each layer.
use sabah_mo_e_accelerator.Base.{
  ℕ, ◌<◌, ◌≡◌, refl, inl, inr, Bool, true, false, List, [], ◌∷◌, ok, lookup-insert, insert,
  ℕ_discrete, arith, has, Bool-cases, if◌then◌else◌, ◌==◌, push, move_to_end, leb, length, popitem,
}
use sabah_mo_e_accelerator.Slab.Lru.{Lru, make_room}
use sabah_mo_e_accelerator.Slab.Lru
use sabah_mo_e_accelerator.Slab.PerLayer.{PerLayer, keys_of, access}

-- The layers after an access of layer `l`, whose keys become `d`.
pub record Layered {K : Type 0} (p p' : PerLayer K) (l : ℕ) (d : List K) : Type 0 where
  pub same_cap : p'.cap ≡ p.cap
  pub layers : (j : ℕ) → keys_of j p' ≡ (if l == j then d else keys_of j p)

module _ {K : Type 0} (dec : Discrete K) (layer : K → ℕ) where
  updated :
      (p : PerLayer K) (l : ℕ) (d : List K)
      → Layered p (record p { d = insert ℕ_discrete l d p.d }) l d
  updated p l d = record {
    same_cap = refl;
    layers = λ j. ground (arith, lookup-insert ℕ_discrete l j d p.d);
  }

  room : (cap : ℕ) (d : List K) → 0 < cap → (r : List K) × (make_room cap d ≡ ok r)
  unfolding make_room popitem
  room cap [] h = ([], ground arith)
  room cap (x ∷ d) h = elim (Bool-cases (leb cap (length (x ∷ d)))) [
    | inl full ↦ (d, rw full)
    | inr free ↦ (x ∷ d, rw free)
  ]

  -- An access of `PerLayer` of positive capacity returns. It is an access of `LRU` on the keys of
  -- the key's layer, with the same report of a hit, and no other layer changes.
  pub access-Layered :
      (p : PerLayer K) (k : K)
      → 0 < p.cap
      → (p' : PerLayer K) × (d : List K) × (hit : Bool) × (access dec layer p k ≡ ok (p', hit))
        × (Lru.access dec (record { cap = p.cap; d = keys_of (layer k) p }) k
            ≡ ok (record { cap = p.cap; d = d }, hit))
        × Layered p p' (layer k) d
  unfolding access Lru.access
  access-Layered p k h = elim (Bool-cases (has dec k (keys_of (layer k) p))) [
    | inl here ↦ (
      record p { d = insert ℕ_discrete (layer k) (move_to_end dec k (keys_of (layer k) p)) p.d },
      move_to_end dec k (keys_of (layer k) p),
      true,
      rw here,
      rw here,
      updated p (layer k) (move_to_end dec k (keys_of (layer k) p)),
    )
    | inr away ↦
        let (r, e) = room p.cap (keys_of (layer k) p) h in
        (
          record p { d = insert ℕ_discrete (layer k) (push dec k r) p.d },
          push dec k r,
          false,
          rw (away, e),
          rw (away, e),
          updated p (layer k) (push dec k r),
        )
  ]
