-- ===== src/Locality/Policy.antt =====
-- `lru_hits` of tools/trace_locality.py counts the hits of the class `LRU` of tools/slab_replay.py: one
-- evicts after the insertion and the other before it.
use sabah_mo_e_accelerator.Base.{
  ℕ, ◌+◌, ◌++◌, length-append, dec_lt, ◌≤◌, ◌<◌, ◌≡◌, refl, ap, ◌∙◌, Bool, true, false, List, [],
  ◌∷◌, has, push-absent, move_to_end, length, length-move_to_end, Result, ok, ◌>>=◌, Bool-cases,
  inl, inr, arith,
}
use sabah_mo_e_accelerator.Slab.Lru.{init, access}
use sabah_mo_e_accelerator.Slab.Lru.Inclusion.{room_left, room_made}
use sabah_mo_e_accelerator.Locality.{Tally, rate, counted, trim, touched, lru_loop, lru_hits}

-- The bytes hit and missed in the replay of a policy of tools/slab_replay.py.
pub charge {ℓ κ} :
    {S : Type ℓ} {K : Type κ} → (S → K → Result (S × Bool)) → (K → ℕ) → S → List K → Result Tally
charge access weight s [] = ok (record { hit_b = 0; miss_b = 0 })
charge access weight s (k ∷ ks) =
    access s k >>= λ r. charge access weight r.0 ks >>= λ t. ok (counted (weight k) r.1 t)

abbrev plus : Tally → Tally → Tally
plus s t = record { hit_b = s.hit_b + t.hit_b; miss_b = s.miss_b + t.miss_b }

plus-counted :
    (w : ℕ) (hit : Bool) (s t : Tally) → plus (counted w hit s) t ≡ plus s (counted w hit t)
unfolding counted
plus-counted w true s t = ground arith
plus-counted w false s t = ground arith

module _ {ℓ} {K : Type ℓ} (cap : ℕ) where
  trim_fits : (d : List K) → length d ≤ cap → trim cap d ≡ d
  unfolding trim
  trim_fits [] h = refl
  trim_fits (x ∷ d) h = ground arith

  trim_over : (x : K) (d : List K) → cap < length (x ∷ d) → trim cap (x ∷ d) ≡ d
  unfolding trim
  trim_over x d h = ground arith

module _ {ℓ} {K : Type ℓ} (dec : Discrete K) where
  pub has-tail : (k x : K) (d : List K) → has dec k (x ∷ d) ≡ false → has dec k d ≡ false
  unfolding has
  has-tail k x d h = ground arith

module _ {ℓ} {K : Type ℓ} (dec : Discrete K) (cap : ℕ) where
  -- A new key with room for it, and one that evicts the oldest key.
  pub touched_room :
      (d : List K) (k : K)
      → has dec k d ≡ false
      → length d < cap
      → touched dec cap d k ≡ d ++ k ∷ []
  unfolding touched
  touched_room d k away h =
      rw (away, push-absent dec k d away)
        (trim_fits cap (d ++ k ∷ []) (omega (arith, length-append d (k ∷ []))))

  pub touched_full :
      (x : K) (d : List K) (k : K)
      → has dec k (x ∷ d) ≡ false
      → length (x ∷ d) ≡ cap
      → touched dec cap (x ∷ d) k ≡ d ++ k ∷ []
  unfolding touched
  touched_full x d k away h =
      rw (away, push-absent dec k (x ∷ d) away)
        (trim_over cap x (d ++ k ∷ []) (omega (arith, length-append d (k ∷ []))))

  pub touched_hit :
      (d : List K) (k : K) → has dec k d ≡ true → touched dec cap d k ≡ move_to_end dec k d
  unfolding touched
  touched_hit d k there = rw there refl

  pub length-touched :
      (d : List K) (k : K) → 0 < cap → length d ≤ cap → length (touched dec cap d k) ≤ cap
  length-touched d k positive h = elim (Bool-cases (has dec k d)) [
    | inl there ↦ rw (touched_hit d k there) (omega (arith, length-move_to_end dec k d there))
    | inr away ↦ elim (dec_lt (length d) cap) [
      | yes room ↦ rw (touched_room d k away room) (omega (arith, length-append d (k ∷ [])))
      | no packed ↦ full d away (omega arith)
    ]
  ]
    where
      full :
          (d : List K) → has dec k d ≡ false → length d ≡ cap → length (touched dec cap d k) ≤ cap
      full [] away n = absurd (omega arith)
      full (x ∷ t) away n = rw (touched_full x t k away n) (omega (arith, length-append t (k ∷ [])))

  -- One access by `LRU`.
  access-touched :
      (d : List K) (k : K)
      → 0 < cap
      → length d ≤ cap
      → access dec (record { cap = cap; d = d }) k
        ≡ ok (record { cap = cap; d = touched dec cap d k }, has dec k d)
  unfolding access
  access-touched d k positive h = elim (Bool-cases (has dec k d)) [
    | inl there ↦ rw (there, touched_hit d k there) refl
    | inr away ↦ elim (dec_lt (length d) cap) [
      | yes room ↦
          rw (away, room_left dec cap d room, push-absent dec k d away, touched_room d k away room)
            refl
      | no packed ↦ full d away (omega arith)
    ]
  ]
    where
      full :
          (d : List K)
          → has dec k d ≡ false
          → length d ≡ cap
          → access dec (record { cap = cap; d = d }) k
            ≡ ok (record { cap = cap; d = touched dec cap d k }, has dec k d)
      full [] away n = absurd (omega arith)
      full (x ∷ t) away n =
          rw
            (
              away,
              room_made dec cap x t (omega arith),
              push-absent dec k t (has-tail dec k x t away),
              touched_full x t k away n,
            )
            refl

module _ {ℓ} {K : Type ℓ} (dec : Discrete K) (weight : K → ℕ) (cap : ℕ) (positive : 0 < cap) where
  charge-lru_loop :
      (d : List K) (s : Tally) (ks : List K)
      → length d ≤ cap
      → (t : Tally) × (charge (access dec) weight (record { cap = cap; d = d }) ks ≡ ok t)
        × (lru_loop dec weight cap d s ks ≡ plus s t)
  unfolding charge lru_loop
  charge-lru_loop d s [] h = (record { hit_b = 0; miss_b = 0 }, refl, ground arith)
  charge-lru_loop d s (k ∷ ks) h =
      let hit = has dec k d in
      let (t, charged, looped) =
        charge-lru_loop (touched dec cap d k) (counted (weight k) hit s) ks
          (length-touched dec cap d k positive h) in
      (
        counted (weight k) hit t,
        rw (access-touched dec cap d k positive h, charged) refl,
        looped ∙ plus-counted (weight k) hit s t,
      )

  -- For a positive capacity, the replay of any trace by `LRU` returns, and `lru_hits` gives the hit
  -- rate and the missed bytes of exactly its hits and misses, or divides by zero if these have no
  -- bytes.
  pub lru_hits-charge :
      (ks : List K)
      → (t : Tally) × (charge (access dec) weight (init cap) ks ≡ ok t)
        × (lru_hits dec weight cap ks ≡ rate t)
  unfolding lru_hits
  lru_hits-charge ks =
      let (t, charged, looped) =
        charge-lru_loop [] (record { hit_b = 0; miss_b = 0 }) ks (omega arith) in
      (t, charged, ap rate (looped ∙ ground arith))
