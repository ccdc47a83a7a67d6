-- ===== src/Residency/Budget.antt =====
-- The pinned tensors fit the budget, and no tensor that is left out would still fit.
use sabah_mo_e_accelerator.Base.{
  sym, subst, ℕ, ◌+◌, ◌≤◌, ◌<◌, ◌≡◌, ◌⊎◌, inl, inr, refl, true, List, [], ◌∷◌, some, leb, leb→le,
  leb→gt, has, All, Bool-cases, arith,
}
use sabah_mo_e_accelerator.Residency.{Fixed, tensors, fill, plan}

-- A tensor is pinned, or it exceeds what the pinned ones leave of the budget.
abbrev pub Settled : {K : Type 0} → Discrete K → ℕ → List K × ℕ → Fixed K → Type 0
Settled dec budget r t = (has dec t.name r.0 ≡ true) ⊎ (budget < r.1 + t.bytes)

module _ {K : Type 0} (dec : Discrete K) (budget : ℕ) where
  more-Settled :
      (k : K) (r : List K × ℕ) (ts : List (Fixed K))
      → All (Settled dec budget r) ts
      → All (Settled dec budget (k ∷ r.0, r.1)) ts
  unfolding has
  more-Settled k r [] h = tt
  more-Settled k r (t ∷ ts) h = (ground (arith, h.0), more-Settled k r ts h.1)

  abbrev Filled : ℕ → List (Fixed K) → List K × ℕ → Type 0
  Filled taken ts r = (taken ≤ r.1) × (r.1 ≤ budget) × All (Settled dec budget r) ts

  fill-Settled :
      (taken : ℕ) (ts : List (Fixed K)) → taken ≤ budget → Filled taken ts (fill budget taken ts)
  unfolding fill has
  fill-Settled taken [] h = (omega arith, h, tt)
  fill-Settled taken (t ∷ ts) h = elim (Bool-cases (leb (taken + t.bytes) budget)) [
    | inl fits ↦
        let (m, n, s) = fill-Settled (taken + t.bytes) ts (leb→le _ _ fits) in
        let r = fill budget (taken + t.bytes) ts in
        let e : fill budget taken (t ∷ ts) ≡ (t.name ∷ r.0, r.1) = rw (fits, fill) refl in
        subst (Filled taken (t ∷ ts)) (sym e)
          (omega arith, n, (ground arith, more-Settled t.name r ts s))
    | inr large ↦
        let l = leb→gt _ _ large in
        let (m, n, s) = fill-Settled taken ts h in
        let e : fill budget taken (t ∷ ts) ≡ fill budget taken ts = rw (large, fill) refl in
        subst (Filled taken (t ∷ ts)) (sym e) (m, n, (inr (omega arith), s))
  ]

-- For any budget, the bytes that `plan` pins are no more than the budget, and each tensor is pinned
-- or would exceed the budget on top of the pinned ones.
pub plan-Settled :
    {K : Type 0} (dec : Discrete K) (budget : ℕ) (ts : List (Fixed K))
    → ((plan (some budget) ts).1 ≤ budget)
      × All (Settled dec budget (plan (some budget) ts)) (tensors ts)
unfolding plan
plan-Settled dec budget ts =
    let (m, n, s) = fill-Settled dec budget 0 (tensors ts) (omega arith) in (n, s)
