-- ===== src/Locality/Recent.antt =====
-- How far a resident key of `lru_hits` is from the youngest, in tools/trace_locality.py.
use sabah_mo_e_accelerator.Base.{
  ℕ, suc, ◌≤◌, ◌<◌, ◌≡◌, ◌≢◌, refl, ◌∙◌, true, false, List, [], ◌∷◌, ◌++◌, ite, has, has-append,
  Distinct, delete, move_to_end, has-delete_ne, has-delete_self, has-push, has-move_to_end,
  has-last, push, Distinct-move_to_end, Distinct-push, length, length-append, Bool-cases, inl, inr,
  arith, dec_lt,
}
use sabah_mo_e_accelerator.Locality.{trim, touched}
use sabah_mo_e_accelerator.Locality.Policy.{has-tail, touched_room, touched_full, touched_hit}

module _ {K : Type 0} (dec : Discrete K) where
  -- The number of keys behind a key.
  unfoldable pub behind : K → List K → ℕ
  behind m [] = 0
  behind m (x ∷ d) = ite (dec m x) (length d) (behind m d)

  behind-snoc :
      (m k : K) (d : List K) → has dec m d ≡ true → behind m (d ++ k ∷ []) ≡ suc (behind m d)
  unfolding behind has
  behind-snoc m k [] h = cc
  behind-snoc m k (x ∷ d) h = ground (arith, behind-snoc m k d, length-append d (k ∷ []))

  behind-lt : (m : K) (d : List K) → has dec m d ≡ true → behind m d < length d
  unfolding behind has
  behind-lt m [] h = cc
  behind-lt m (x ∷ d) h = ground (arith, behind-lt m d)

  length-delete-le : (k : K) (d : List K) → length (delete dec k d) ≤ length d
  unfolding delete
  length-delete-le k [] = omega arith
  length-delete-le k (x ∷ d) = ground (arith, length-delete-le k d)

  behind-delete :
      (m k : K) (d : List K) → k ≢ m → has dec m d ≡ true → behind m (delete dec k d) ≤ behind m d
  unfolding behind delete has
  behind-delete m k [] e h = omega arith
  behind-delete m k (x ∷ d) e h = ground (arith, behind-delete m k d, length-delete-le k d)

  behind-last : (k : K) (d : List K) → has dec k d ≡ false → behind k (d ++ k ∷ []) ≡ 0
  unfolding behind has
  behind-last k [] h = ground arith
  behind-last k (x ∷ d) h = ground (arith, behind-last k d)

  -- A key that is resident with at most `n` keys behind it.
  abbrev pub Near : K → ℕ → List K → Type 0
  Near m n d = (has dec m d ≡ true) × (behind m d ≤ n)

  Distinct-trim : (cap : ℕ) (d : List K) → Distinct dec d → Distinct dec (trim cap d)
  unfolding trim
  Distinct-trim cap [] h = tt
  Distinct-trim cap (x ∷ d) h = ground arith

  has-trim : (cap : ℕ) (m : K) (d : List K) → has dec m d ≡ false → has dec m (trim cap d) ≡ false
  unfolding trim has
  has-trim cap m [] h = refl
  has-trim cap m (x ∷ d) h = ground arith

  module _ (cap : ℕ) (k : K) (positive : 0 < cap) where
    Near-snoc : (m : K) (n : ℕ) (d : List K) → Near m n d → Near m (suc n) (d ++ k ∷ [])
    Near-snoc m n d (there, close) =
        (has-append dec m d (k ∷ []) there, omega (arith, behind-snoc m k d there))

    Near-tail :
        (m x : K) (n : ℕ) (d : List K) → suc n < length (x ∷ d) → Near m n (x ∷ d) → Near m n d
    unfolding behind has
    Near-tail m x n d h near = ground arith

    -- An access moves another key by a place at most, and evicts it only from the last one.
    pub Near-touched :
        (m : K) (n : ℕ) (d : List K)
        → k ≢ m
        → length d ≤ cap
        → suc n < cap
        → Near m n d
        → Near m (suc n) (touched dec cap d k)
    unfolding move_to_end
    Near-touched m n d e h room near = elim (Bool-cases (has dec k d)) [
      | inl there ↦ rw (touched_hit dec cap d k there) (moved there)
      | inr away ↦ elim (dec_lt (length d) cap) [
        | yes space ↦ rw (touched_room dec cap d k away space) (Near-snoc m n d near)
        | no packed ↦ full d away (omega arith) near
      ]
    ]
      where
        moved : has dec k d ≡ true → Near m (suc n) (move_to_end dec k d)
        moved there =
            Near-snoc m n (delete dec k d)
              (has-delete_ne dec k m d e ∙ near.0, omega (arith, behind-delete m k d e near.0))

        full :
            (d : List K)
            → has dec k d ≡ false
            → length d ≡ cap
            → Near m n d
            → Near m (suc n) (touched dec cap d k)
        full [] away size near = absurd (omega arith)
        full (x ∷ t) away size near =
            rw (touched_full dec cap x t k away size)
              (Near-snoc m n t (Near-tail m x n t (omega arith) near))

    -- The key of the access is the youngest.
    pub Near-self : (d : List K) → Distinct dec d → length d ≤ cap → Near k 0 (touched dec cap d k)
    unfolding move_to_end
    Near-self d distinct h = elim (Bool-cases (has dec k d)) [
      | inl there ↦
          rw (touched_hit dec cap d k there)
            (youngest (delete dec k d) (has-delete_self dec k d distinct))
      | inr away ↦ elim (dec_lt (length d) cap) [
        | yes space ↦ rw (touched_room dec cap d k away space) (youngest d away)
        | no packed ↦ full d away (omega arith)
      ]
    ]
      where
        youngest : (d : List K) → has dec k d ≡ false → Near k 0 (d ++ k ∷ [])
        youngest d away = (has-last dec k d, omega (arith, behind-last k d away))

        full : (d : List K) → has dec k d ≡ false → length d ≡ cap → Near k 0 (touched dec cap d k)
        full [] away size = absurd (omega arith)
        full (x ∷ t) away size =
            rw (touched_full dec cap x t k away size) (youngest t (has-tail dec k x t away))

    pub Distinct-touched : (d : List K) → Distinct dec d → Distinct dec (touched dec cap d k)
    unfolding touched
    Distinct-touched d distinct = elim (Bool-cases (has dec k d)) [
      | inl there ↦ rw there (Distinct-move_to_end dec k d distinct)
      | inr away ↦ rw away (Distinct-trim cap (push dec k d) (Distinct-push dec k d distinct))
    ]

    -- An access brings in no other key.
    pub has-touched :
        (m : K) (d : List K) (distinct : Distinct dec d)
        → ¬ (k ≡ m)
        → has dec m d ≡ false
        → has dec m (touched dec cap d k) ≡ false
    unfolding touched
    has-touched m d distinct e h = elim (Bool-cases (has dec k d)) [
      | inl there ↦ rw there (ground (arith, has-move_to_end dec k m d distinct))
      | inr away ↦ rw away (has-trim cap m (push dec k d) (ground (arith, has-push dec k m d)))
    ]
