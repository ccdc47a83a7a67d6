-- ===== src/Locality/Distance.antt =====
-- `reuse_distances` of tools/trace_locality.py bounds the misses of `lru_hits`.
use sabah_mo_e_accelerator.Base.{
  ℕ, suc, ◌+◌, ◌-◌, ◌≤◌, ◌<◌, ◌≡◌, refl, sym, subst, Bool, true, false, List, [], ◌∷◌, Option, none,
  some, ltb, has, Distinct, lookup, insert, lookup-insert, length, if◌then◌else◌, ltb→lt,
  Bool-cases, inl, inr, arith,
}
use sabah_mo_e_accelerator.Locality.{
  Tally, rate, counted, touched, lru_loop, lru_hits, distance, reuse_from, reuse_distances,
}
use sabah_mo_e_accelerator.Locality.Policy.{length-touched}
use sabah_mo_e_accelerator.Locality.Recent.{
  Near, Near-touched, Near-self, Distinct-touched, has-touched,
}

-- The bytes of the first touches, and of the accesses whose distance is not below a capacity.
abbrev pub cold {ℓ} : {K : Type ℓ} → (K → ℕ) → List K → List (Option ℕ) → ℕ
cold weight [] ds = 0
cold weight (k ∷ ks) [] = 0
cold weight (k ∷ ks) (none ∷ ds) = weight k + cold weight ks ds
cold weight (k ∷ ks) (some d ∷ ds) = cold weight ks ds

abbrev pub far {ℓ} : {K : Type ℓ} → (K → ℕ) → ℕ → List K → List (Option ℕ) → ℕ
far weight cap [] ds = 0
far weight cap (k ∷ ks) [] = 0
far weight cap (k ∷ ks) (none ∷ ds) = weight k + far weight cap ks ds
far weight cap (k ∷ ks) (some d ∷ ds) = (if ltb d cap then 0 else weight k) + far weight cap ks ds

abbrev pub total {ℓ} : {K : Type ℓ} → (K → ℕ) → List K → ℕ
total weight [] = 0
total weight (k ∷ ks) = weight k + total weight ks

module _ {K : Type 0} (dec : Discrete K) (cap : ℕ) (positive : 0 < cap) where
  -- What the positions of the last accesses tell of the resident keys.
  record Known (i : ℕ) (last : List (K × ℕ)) (d : List K) : Type 0 where
    pub seen : (m : K) → lookup dec m last ≡ none → has dec m d ≡ false
    pub past :
        (m : K) (j : ℕ)
        → lookup dec m last ≡ some j
        → (j < i) × (i - j - 1 < cap → Near dec m (i - j - 1) d)
    pub distinct : Distinct dec d
    pub fits : length d ≤ cap

  module _ (i : ℕ) (last : List (K × ℕ)) (d : List K) (known : Known i last d) (k : K) where
    seen_next :
        (m : K)
        → lookup dec m (insert dec k i last) ≡ none
        → has dec m (touched dec cap d k) ≡ false
    seen_next m e = elim (dec k m) [
      | yes same ↦ absurd (ground (arith, lookup-insert dec k m i last))
      | no other ↦
          let fresh : lookup dec m last ≡ none = ground (arith, lookup-insert dec k m i last) in
          has-touched dec cap k positive m d known.distinct other (known.seen m fresh)
    ]

    past_next :
        (m : K) (j : ℕ)
        → lookup dec m (insert dec k i last) ≡ some j
        → (j < suc i) × (suc i - j - 1 < cap → Near dec m (suc i - j - 1) (touched dec cap d k))
    past_next m j e = elim (dec k m) [
      | yes same ↦
          let here : i ≡ j = ground (arith, lookup-insert dec k m i last) in
          (
            omega arith,
            λ q.
                let zero_far : suc i - j - 1 ≡ 0 = omega arith in
                subst (λ (n : ℕ). Near dec m n (touched dec cap d k)) (sym zero_far)
                  (subst (λ x. Near dec x 0 (touched dec cap d k)) same
                    (Near-self dec cap k positive d known.distinct known.fits)),
          )
      | no other ↦
          let earlier : lookup dec m last ≡ some j = ground (arith, lookup-insert dec k m i last) in
          let (before, near) = known.past m j earlier in
          (
            omega arith,
            λ q.
                let one_more : suc i - j - 1 ≡ suc (i - j - 1) = omega arith in
                subst (λ (n : ℕ). Near dec m n (touched dec cap d k)) (sym one_more)
                  (Near-touched dec cap k positive m (i - j - 1) d other known.fits (omega arith)
                    (near (omega arith))),
          )
    ]

    Known-next : Known (suc i) (insert dec k i last) (touched dec cap d k)
    Known-next = record {
      seen = seen_next;
      past = past_next;
      distinct = Distinct-touched dec cap k positive d known.distinct;
      fits = length-touched dec cap d k positive known.fits;
    }

  module _ (weight : K → ℕ) where
    -- The loop between its bounds.
    abbrev pub Between : Tally → List K → List (Option ℕ) → Tally → Type 0
    Between s ks ds t =
        (s.miss_b + cold weight ks ds ≤ t.miss_b)
        × (t.miss_b ≤ s.miss_b + far weight cap ks ds)
        × (t.hit_b + t.miss_b ≡ s.hit_b + s.miss_b + total weight ks)

    -- One access more: its distance decides, if it is none or below the capacity.
    Between-step :
        (s t : Tally) (k : K) (ks : List K) (o : Option ℕ) (ds : List (Option ℕ)) (hit : Bool)
        → (o ≡ none → hit ≡ false)
        → ((n : ℕ) → o ≡ some n → n < cap → hit ≡ true)
        → Between (counted (weight k) hit s) ks ds t
        → Between s (k ∷ ks) (o ∷ ds) t
    unfolding counted
    Between-step s t k ks none ds true first near b = absurd (let e = first refl in cc)
    Between-step s t k ks none ds false first near b = omega arith
    Between-step s t k ks (some n) ds true first near b = ground (arith, b)
    Between-step s t k ks (some n) ds false first near b = elim (Bool-cases (ltb n cap)) [
      | inl close ↦ absurd (let e = near n refl (ltb→lt n cap close) in cc)
      | inr wide ↦ rw wide (omega arith)
    ]

    lru_loop-Between :
        (i : ℕ) (last : List (K × ℕ)) (d : List K) (s : Tally) (ks : List K)
        → Known i last d
        → Between s ks (reuse_from dec i last ks) (lru_loop dec weight cap d s ks)
    unfolding reuse_from lru_loop
    lru_loop-Between i last d s [] known = omega arith
    lru_loop-Between i last d s (k ∷ ks) known =
        Between-step s _ k ks (distance i (lookup dec k last))
          (reuse_from dec (suc i) (insert dec k i last) ks) (has dec k d)
          (λ e. known.seen k (first_touch (lookup dec k last) e))
          (λ n e q. close (lookup dec k last) refl n e q)
          (lru_loop-Between (suc i) (insert dec k i last) (touched dec cap d k)
            (counted (weight k) (has dec k d) s) ks (Known-next i last d known k))
      where
        first_touch : (o : Option ℕ) → distance i o ≡ none → o ≡ none
        first_touch none e = refl
        first_touch (some j) e = absurd (cc)

        close :
            (o : Option ℕ)
            → lookup dec k last ≡ o
            → (n : ℕ) → distance i o ≡ some n
            → n < cap
            → has dec k d ≡ true
        close none e n f q = absurd (cc)
        close (some j) e n f q =
            let there : i - j - 1 ≡ n = ground arith in ((known.past k j e).1 (omega arith)).0

    -- For a positive capacity, let the hits and misses that `lru_hits` counts on a trace be weighted.
    -- The missed bytes are at least those of the accesses that `reuse_distances` reports as first
    -- touches, and at most those and the bytes of the accesses whose distance is the capacity or
    -- more: an access whose distance is below the capacity is a hit. Hit and missed bytes are
    -- together those of the whole trace.
    pub lru_hits-reuse_distances :
        (ks : List K)
        → (t : Tally) × (lru_hits dec weight cap ks ≡ rate t)
          × (cold weight ks (reuse_distances dec ks) ≤ t.miss_b)
          × (t.miss_b ≤ far weight cap ks (reuse_distances dec ks))
          × (t.hit_b + t.miss_b ≡ total weight ks)
    unfolding lru_hits reuse_distances
    lru_hits-reuse_distances ks =
        let start : Tally = record { hit_b = 0; miss_b = 0 } in
        let (least, most, all) = lru_loop-Between 0 [] [] start ks nothing_known in
        (lru_loop dec weight cap [] start ks, refl, omega arith, omega arith, omega arith)
      where
        nothing_known : Known 0 [] []
        nothing_known = record {
          seen = λ m e. unfold has in refl;
          past = λ m j e. absurd (unfold lookup in cc);
          distinct = tt;
          fits = omega arith;
        }
