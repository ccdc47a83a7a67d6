-- ===== src/Planner/Plan/Divisors.antt =====
-- The divisors of `plan` are not zero.
use sabah_mo_e_accelerator.Base.{
  ℕ, ◌-◌, ◌≤◌, ◌<◌, ◌≡◌, refl, inl, inr, Bool, true, false, ◌&&◌, List, [], ◌∷◌, some, leb, ltb,
  ◌==◌, if◌then◌else◌, ok, Defined, Defined-bind, arith, Bool-cases, Option-cases,
}
use sabah_mo_e_accelerator.Planner.Types.{Scalar, no_gpus, Laws, quot, larger, Gpu, Hardware}
use sabah_mo_e_accelerator.Planner.Rates.{interp_hit, interp_from, last_gb, best_reuse, reuse_of}
use sabah_mo_e_accelerator.Planner.Plan.Timing.{
  giga, gpu_bandwidth_from, gpu_bandwidth, storage_bandwidth,
}

-- Each point of the curve is further than the one before.
abbrev pub rising : ℕ → List (ℕ × ℕ) → Bool
rising x [] = true
rising x (q ∷ qs) = ltb x q.0 && rising q.0 qs

abbrev pub ascends : List (ℕ × ℕ) → Bool
ascends [] = false
ascends (p ∷ ps) = rising p.0 ps

abbrev pub positive : List (ℕ × ℕ) → Bool
positive [] = true
positive (q ∷ qs) = ltb 0 q.1 && positive qs

-- The first key is at most the concurrency.
abbrev pub starts : ℕ → List (ℕ × ℕ) → Bool
starts c [] = false
starts c (p ∷ ps) = leb p.0 c

best_reuse-positive :
    (c : ℕ) (q : ℕ × ℕ) (table : List (ℕ × ℕ))
    → positive table ≡ true
    → best_reuse c table ≡ some q
    → 0 < q.1
unfolding best_reuse
best_reuse-positive c q [] h e = absurd (cc)
best_reuse-positive c q (p ∷ ps) h e = elim (Option-cases (best_reuse c ps)) [
  | inl n ↦ ground arith
  | inr (b, f) ↦ let low = best_reuse-positive c b ps (ground arith) f in ground arith
]

best_reuse-found :
    (c : ℕ) (p : ℕ × ℕ) (ps : List (ℕ × ℕ))
    → p.0 ≤ c
    → (q : ℕ × ℕ) × (best_reuse c (p ∷ ps) ≡ some q)
unfolding best_reuse
best_reuse-found c p ps l = elim (Option-cases (best_reuse c ps)) [
  | inl n ↦ (p, ground arith)
  | inr (b, f) ↦ (if leb p.0 c && ltb b.0 p.0 then p else b, ground arith)
]

module _ (S : Scalar) (laws : Laws S) where
  pub quot-Defined : (x y : S.F) → S.is_zero y ≡ false → Defined (quot S x y)
  unfolding quot
  quot-Defined x y h = (S.div x y, rw h refl)

  pub nat-Defined : (x : S.F) (n : ℕ) → 0 < n → Defined (quot S x (S.nat n))
  nat-Defined x n h = quot-Defined x (S.nat n) (laws.nat_nonzero n h)

  pub larger-positive : (x y : S.F) → S.lt (S.nat 0) y ≡ true → S.lt (S.nat 0) (larger S x y) ≡ true
  larger-positive x y h = elim (Bool-cases (S.lt x y)) [
    | inl l ↦ rw l h
    | inr l ↦ rw l (laws.above_positive x y l h)
  ]

  interp_from-Defined :
      (gb : S.F) (p : ℕ × ℕ) (ps : List (ℕ × ℕ))
      → rising p.0 ps ≡ true
      → Defined (interp_from S gb p ps)
  unfolding interp_from
  interp_from-Defined gb p [] h = (S.lit p.1 4, refl)
  interp_from-Defined gb p (q ∷ qs) h = elim (Bool-cases (S.le gb (S.nat q.0))) [
    | inl l ↦ rw l (
        Defined-bind (quot S (S.sub gb (S.nat p.0)) (S.nat (q.0 - p.0))) _
          (nat-Defined _ (q.0 - p.0) (ground arith)) (λ f e. (_, refl)))
    | inr l ↦ rw l (interp_from-Defined gb q qs (ground arith))
  ]

  pub interp_hit-Defined :
      (curve : List (ℕ × ℕ)) (gb : S.F) → ascends curve ≡ true → Defined (interp_hit S curve gb)
  unfolding interp_hit
  interp_hit-Defined [] gb h = absurd (cc)
  interp_hit-Defined (p ∷ ps) gb h = elim (Bool-cases (S.le gb (S.nat p.0))) [
    | inl l ↦ elim (Bool-cases (p.0 == 0)) [
      | inl z ↦ rw (l, z) (S.nat 0, refl)
      | inr z ↦
          rw (l, z)
            (Defined-bind (quot S gb (S.nat p.0)) _ (nat-Defined gb p.0 (ground arith))
              (λ f e. (_, refl)))
    ]
    | inr l ↦ elim (Bool-cases (S.le (S.nat (last_gb p.0 ps)) gb)) [
      | inl m ↦ rw (l, m) (_, refl)
      | inr m ↦ rw (l, m) (interp_from-Defined gb p ps h)
    ]
  ]

  pub reuse_of-Defined :
      (c : ℕ) (table : List (ℕ × ℕ))
      → starts c table ≡ true
      → positive table ≡ true
      → (r : S.F) × (reuse_of S table c ≡ ok r) × (S.is_zero r ≡ false)
  unfolding reuse_of
  reuse_of-Defined c [] l h = absurd (cc)
  reuse_of-Defined c (p ∷ ps) l h =
      let (q, e) = best_reuse-found c p ps (ground arith) in
      (
        S.lit q.1 3,
        rw (e, reuse_of) refl,
        laws.lit_nonzero q.1 3 (best_reuse-positive c q (p ∷ ps) h e),
      )

  device-positive :
      (g : Gpu S)
      → S.lt (S.nat 0) (
          S.mul
            (S.mul (larger S (S.mul g.h2d_solo_gbps (S.nat 12)) (S.nat 100)) (giga S))
            (S.lit 75 2))
        ≡ true
  device-positive g =
      laws.efficient_positive _
        (laws.giga_positive _ (larger-positive _ (S.nat 100) (laws.nat_positive 100 (omega arith))))

  gpu_bandwidth_from-positive :
      (gs : List (Gpu S)) (bw : S.F)
      → S.lt (S.nat 0) bw ≡ true
      → S.lt (S.nat 0) (gpu_bandwidth_from S bw gs) ≡ true
  unfolding gpu_bandwidth_from
  gpu_bandwidth_from-positive [] bw h = h
  gpu_bandwidth_from-positive (g ∷ gs) bw h =
      gpu_bandwidth_from-positive gs _ (laws.add_positive _ _ h (device-positive g))

  pub gpu_bandwidth-nonzero :
      (hw : Hardware S) → no_gpus hw.gpus ≡ false → S.is_zero (gpu_bandwidth S hw) ≡ false
  unfolding gpu_bandwidth
  gpu_bandwidth-nonzero hw h = laws.positive_nonzero _ (some_gpu hw.gpus h)
    where
      some_gpu :
          (gs : List (Gpu S))
          → no_gpus gs ≡ false
          → S.lt (S.nat 0) (gpu_bandwidth_from S (S.nat 0) gs) ≡ true
      some_gpu [] n = absurd (cc)
      some_gpu (g ∷ gs) n =
          gpu_bandwidth_from-positive gs _ (laws.zero_add_positive _ (device-positive g))

  pub storage_bandwidth-nonzero : (hw : Hardware S) → S.is_zero (storage_bandwidth S hw) ≡ false
  unfolding storage_bandwidth
  storage_bandwidth-nonzero hw = elim (Bool-cases (S.is_zero hw.storage_read_gbps)) [
    | inl z ↦ rw (z, storage_bandwidth) (laws.giga_nonzero _ (laws.lit_nonzero 5 1 (omega arith)))
    | inr z ↦ rw (z, storage_bandwidth) (laws.giga_nonzero _ z)
  ]

  -- `max(x, 1)`
  pub at_least_one-nonzero : (x : S.F) → S.is_zero (larger S x (S.nat 1)) ≡ false
  at_least_one-nonzero x =
      laws.positive_nonzero _ (larger-positive x (S.nat 1) (laws.nat_positive 1 (omega arith)))
