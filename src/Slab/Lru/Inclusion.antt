-- ===== src/Slab/Lru/Inclusion.antt =====
-- A larger cache of `LRU` holds what a smaller one holds, so it never misses more often.
use sabah_mo_e_accelerator.Base.{
  ℕ, ◌+◌, ◌≤◌, ◌<◌, ◌≡◌, refl, ap, subst, ◌∙◌, ◌⊎◌, inl, inr, Bool, true, false, List, [], ◌∷◌,
  ◌++◌, if◌then◌else◌, length, length-append, has, has-append, has-append_right, Distinct, push,
  delete, move_to_end, Distinct-push, push-absent, Distinct-move_to_end, length-move_to_end,
  popitem, length-delete, ok, Bool-cases, arith, dec_lt,
}
use sabah_mo_e_accelerator.Slab.Lru.{init, make_room, access}
use sabah_mo_e_accelerator.Slab.Replay.{misses}

module _ {ℓ} {K : Type ℓ} (dec : Discrete K) where
  append_assoc : (xs ys zs : List K) → (xs ++ ys) ++ zs ≡ xs ++ (ys ++ zs)
  append_assoc [] ys zs = refl
  append_assoc (x ∷ xs) ys zs = ap (λ l. x ∷ l) (append_assoc xs ys zs)

  delete-append_left :
      (k : K) (xs ys : List K)
      → has dec k xs ≡ true
      → delete dec k (xs ++ ys) ≡ delete dec k xs ++ ys
  unfolding delete has
  delete-append_left k [] ys h = absurd (cc)
  delete-append_left k (x ∷ xs) ys h = ground (arith, delete-append_left k xs ys)

  delete-append_right :
      (k : K) (xs ys : List K)
      → has dec k xs ≡ false
      → delete dec k (xs ++ ys) ≡ xs ++ delete dec k ys
  unfolding delete has
  delete-append_right k [] ys h = refl
  delete-append_right k (x ∷ xs) ys h = ground (arith, delete-append_right k xs ys)

  -- The parts of a list without repetitions are disjoint.
  apart :
      (k : K) (xs ys : List K)
      → Distinct dec (xs ++ ys)
      → has dec k ys ≡ true
      → has dec k xs ≡ false
  unfolding has
  apart k [] ys d h = refl
  apart k (x ∷ xs) ys d h = ground (arith, apart k xs ys d.1 h, has-append_right dec k xs ys)

  -- The keys of the smaller cache are the most recent ones of the larger.
  pub record Inside (cap cap' : ℕ) (older small : List K) : Type ℓ where
    pub distinct : Distinct dec (older ++ small)
    pub fits : length (older ++ small) ≤ cap'
    pub full : (older ≡ []) ⊎ (length small ≡ cap)
    pub small_fits : length small ≤ cap

  shift : (q t : List K) (x k : K) → (q ++ x ∷ t) ++ k ∷ [] ≡ (q ++ x ∷ []) ++ (t ++ k ∷ [])
  shift [] t x k = refl
  shift (y ∷ q) t x k = ap (λ l. y ∷ l) (shift q t x k)

  pub room_left : (cap : ℕ) (d : List K) → length d < cap → make_room cap d ≡ ok d
  unfolding make_room
  room_left cap d h = ground arith

  pub room_made :
      (cap : ℕ) (x : K) (d : List K) → cap ≤ length (x ∷ d) → make_room cap (x ∷ d) ≡ ok d
  unfolding make_room popitem
  room_made cap x d h = ground arith

  -- One access of both caches.
  record Step (k : K) (cap cap' : ℕ) (older small : List K) : Type ℓ where
    pub older' : List K
    pub small' : List K
    pub hit : Bool
    pub hit' : Bool
    pub inner :
        access dec (record { cap = cap; d = small }) k ≡ ok (record { cap = cap; d = small' }, hit)
    pub outer :
        access dec (record { cap = cap'; d = older ++ small }) k
        ≡ ok (record { cap = cap'; d = older' ++ small' }, hit')
    pub fewer : (if hit' then 0 else 1) ≤ (if hit then 0 else 1)
    pub inside : Inside cap cap' older' small'

  module _ (k : K) (cap cap' : ℕ) (positive : 0 < cap) (larger : cap ≤ cap') where
    -- A hit in both caches.
    step_recent :
        (older small : List K)
        → Inside cap cap' older small
        → has dec k small ≡ true
        → Step k cap cap' older small
    unfolding access move_to_end
    step_recent older small i h =
        let away = apart k older small i.distinct h in
        let there : has dec k (older ++ small) ≡ true =
          has-append_right dec k older small away ∙ h in
        let moved : move_to_end dec k (older ++ small) ≡ older ++ move_to_end dec k small =
          ap (λ l. l ++ k ∷ []) (delete-append_right k older small away)
          ∙ append_assoc older (delete dec k small) (k ∷ []) in
        let n = length-move_to_end dec k small h in
        record {
          older' = older;
          small' = move_to_end dec k small;
          hit = true;
          hit' = true;
          inner = rw h;
          outer = rw (there, moved);
          fewer = omega arith;
          inside = record {
            distinct =
                subst (Distinct dec) moved (Distinct-move_to_end dec k (older ++ small) i.distinct);
            fits = omega (
              arith,
              i.fits,
              length-append older small,
              length-append older (move_to_end dec k small),
            );
            full = ground (arith, i.full);
            small_fits = omega (arith, i.small_fits);
          };
        }

    -- What the caches hold once both have taken the key as a new one, or the larger has moved it.
    entered :
        (q t : List K) (x : K)
        → Distinct dec ((q ++ x ∷ t) ++ k ∷ [])
        → length (q ++ x ∷ t) < cap'
        → length (x ∷ t) ≡ cap
        → Inside cap cap' (q ++ x ∷ []) (t ++ k ∷ [])
    entered q t x d fits n = record {
      distinct = subst (Distinct dec) (shift q t x k) d;
      fits = omega (arith, ap length (shift q t x k), length-append (q ++ x ∷ t) (k ∷ []));
      full = inr (omega (arith, length-append t (k ∷ [])));
      small_fits = omega (arith, length-append t (k ∷ []));
    }

    -- A hit in the larger cache only.
    step_moved :
        (older small : List K)
        → Inside cap cap' older small
        → has dec k small ≡ false
        → has dec k older ≡ true
        → Step k cap cap' older small
    unfolding access move_to_end push has
    step_moved older [] i h g = absurd (ground (arith, i.full))
    step_moved older (x ∷ t) i h g =
        let n : length (x ∷ t) ≡ cap = ground (arith, i.full) in
        let moved : move_to_end dec k (older ++ x ∷ t) ≡ (delete dec k older ++ x ∷ t) ++ k ∷ [] =
          ap (λ l. l ++ k ∷ []) (delete-append_left k older (x ∷ t) g) in
        let d = length-delete dec k older g in
        record {
          older' = delete dec k older ++ x ∷ [];
          small' = t ++ k ∷ [];
          hit = false;
          hit' = true;
          inner = rw (h, room_made cap x t (omega arith), push-absent dec k t (ground arith));
          outer = rw (has-append dec k older (x ∷ t) g, moved, shift (delete dec k older) t x k);
          fewer = omega arith;
          inside =
              entered (delete dec k older) t x
                (subst (Distinct dec) moved
                  (Distinct-move_to_end dec k (older ++ x ∷ t) i.distinct))
                (omega (
                  arith,
                  i.fits,
                  length-append older (x ∷ t),
                  length-append (delete dec k older) (x ∷ t),
                ))
                n;
        }

    -- A new key, when the smaller cache is full and the larger has room for it after all.
    new_full :
        (older q t : List K) (x : K)
        → has dec k (older ++ x ∷ t) ≡ false
        → has dec k (x ∷ t) ≡ false
        → has dec k (q ++ x ∷ t) ≡ false
        → make_room cap' (older ++ x ∷ t) ≡ ok (q ++ x ∷ t)
        → Distinct dec (q ++ x ∷ t)
        → length (q ++ x ∷ t) < cap'
        → length (x ∷ t) ≡ cap
        → Step k cap cap' older (x ∷ t)
    unfolding access has
    new_full older q t x away h g made d fits n =
        let added = push-absent dec k (q ++ x ∷ t) g in
        record {
          older' = q ++ x ∷ [];
          small' = t ++ k ∷ [];
          hit = false;
          hit' = false;
          inner = rw (h, room_made cap x t (omega arith), push-absent dec k t (ground arith));
          outer = rw (away, made, added, shift q t x k);
          fewer = omega arith;
          inside =
              entered q t x (subst (Distinct dec) added (Distinct-push dec k (q ++ x ∷ t) d)) fits
                n;
        }

    -- A new key, when both caches hold the same keys and treat it alike.
    new_same :
        (small rest : List K)
        → has dec k small ≡ false
        → has dec k rest ≡ false
        → make_room cap small ≡ ok rest
        → make_room cap' small ≡ ok rest
        → Distinct dec rest
        → length rest < cap
        → Step k cap cap' [] small
    unfolding access
    new_same small rest h g made made' d fits =
        let added = push-absent dec k rest g in
        record {
          older' = [];
          small' = rest ++ k ∷ [];
          hit = false;
          hit' = false;
          inner = rw (h, made, added);
          outer = rw (h, made', added);
          fewer = omega arith;
          inside = record {
            distinct = subst (Distinct dec) added (Distinct-push dec k rest d);
            fits = omega (arith, length-append rest (k ∷ []));
            full = inl refl;
            small_fits = omega (arith, length-append rest (k ∷ []));
          };
        }

    step_new :
        (older small : List K)
        → Inside cap cap' older small
        → has dec k small ≡ false
        → has dec k older ≡ false
        → Step k cap cap' older small
    unfolding has
    step_new [] [] i h g =
        new_same [] [] h h (room_left cap [] positive) (room_left cap' [] (omega arith)) tt positive
    step_new [] (x ∷ t) i h g = elim (dec_lt (length (x ∷ t)) cap) [
      | yes room ↦
          new_same (x ∷ t) (x ∷ t) h h (room_left cap (x ∷ t) room)
            (room_left cap' (x ∷ t) (omega arith)) i.distinct room
      | no packed ↦ elim (dec_lt (length (x ∷ t)) cap') [
        | yes room ↦
            new_full [] [] t x h h h (room_left cap' (x ∷ t) room) i.distinct room
              (omega (arith, i.small_fits))
        | no tight ↦
            new_same (x ∷ t) t h (ground arith) (room_made cap x t (omega arith))
              (room_made cap' x t (omega arith)) i.distinct.1 (omega (arith, i.small_fits))
      ]
    ]
    step_new (y ∷ p) [] i h g = absurd (ground (arith, i.full))
    step_new (y ∷ p) (x ∷ t) i h g =
        let n : length (x ∷ t) ≡ cap = ground (arith, i.full) in
        let away : has dec k ((y ∷ p) ++ x ∷ t) ≡ false =
          has-append_right dec k (y ∷ p) (x ∷ t) g ∙ h in
        elim (dec_lt (length ((y ∷ p) ++ x ∷ t)) cap') [
          | yes room ↦
              new_full (y ∷ p) (y ∷ p) t x away h away (room_left cap' ((y ∷ p) ++ x ∷ t) room)
                i.distinct room n
          | no tight ↦
              new_full (y ∷ p) p t x away h (ground arith)
                (room_made cap' y (p ++ x ∷ t) (omega arith)) i.distinct.1 (omega (arith, i.fits)) n
        ]

    step : (older small : List K) → Inside cap cap' older small → Step k cap cap' older small
    step older small i = elim (Bool-cases (has dec k small)) [
      | inl h ↦ step_recent older small i h
      | inr h ↦ elim (Bool-cases (has dec k older)) [
        | inl g ↦ step_moved older small i h g
        | inr g ↦ step_new older small i h g
      ]
    ]

  misses-Inside :
      (cap cap' : ℕ)
      → 0 < cap
      → cap ≤ cap'
      → (ks older small : List K) → Inside cap cap' older small
      → (m n : ℕ) × (misses (access dec) (record { cap = cap; d = small }) ks ≡ ok m)
        × (misses (access dec) (record { cap = cap'; d = older ++ small }) ks ≡ ok n)
        × (n ≤ m)
  unfolding misses
  misses-Inside cap cap' positive larger [] older small i = (0, 0, refl, refl, omega arith)
  misses-Inside cap cap' positive larger (k ∷ ks) older small i =
      let st = step k cap cap' positive larger older small i in
      let (m, n, inner, outer, few) =
        misses-Inside cap cap' positive larger ks st.older' st.small' st.inside in
      (
        (if st.hit then 0 else 1) + m,
        (if st.hit' then 0 else 1) + n,
        rw (st.inner, inner),
        rw (st.outer, outer),
        omega (arith, st.fewer, few),
      )

  -- For two positive capacities, the replay of any trace by `LRU` returns with both, and the larger
  -- capacity has at most as many misses as the smaller.
  pub misses-inclusion :
      (cap cap' : ℕ) (ks : List K)
      → 0 < cap
      → cap ≤ cap'
      → (m n : ℕ) × (misses (access dec) (init {K = K} cap) ks ≡ ok m)
        × (misses (access dec) (init {K = K} cap') ks ≡ ok n)
        × (n ≤ m)
  misses-inclusion cap cap' ks positive larger =
      misses-Inside cap cap' positive larger ks [] []
        (record { distinct = tt; fits = omega arith; full = inl refl; small_fits = omega arith })
