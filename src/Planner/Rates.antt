-- ===== src/Planner/Rates.antt =====
-- The measured curves of `HIT_CURVES`, and `_interp_hit`.
use sabah_mo_e_accelerator.Base.{
  ℕ, ◌-◌, ◌&&◌, List, [], ◌∷◌, Option, none, some, ltb, leb, ◌==◌, if◌then◌else◌, Result, ok, raise,
  Error, ◌>>=◌,
}
use sabah_mo_e_accelerator.Planner.Types.{Scalar, quot}

-- The points of a curve: gigabytes, and the rate in units of 0.0001.
abbrev pub lru_curve : List (ℕ × ℕ)
lru_curve =
    (2, 2444)
    ∷ (4, 4458)
    ∷ (6, 5530)
    ∷ (8, 6206)
    ∷ (12, 7157)
    ∷ (16, 7809)
    ∷ (20, 8296)
    ∷ (24, 8660)
    ∷ (28, 8925)
    ∷ (32, 9117)
    ∷ (36, 9270)
    ∷ (40, 9385)
    ∷ (48, 9552)
    ∷ (56, 9668)
    ∷ (64, 9756)
    ∷ (72, 9832)
    ∷ (77, 10000)
    ∷ []

abbrev pub static_curve : List (ℕ × ℕ)
static_curve =
    (2, 1092)
    ∷ (4, 1859)
    ∷ (6, 2621)
    ∷ (8, 3207)
    ∷ (12, 4246)
    ∷ (16, 4998)
    ∷ (20, 5627)
    ∷ (24, 6149)
    ∷ (28, 6601)
    ∷ (32, 6976)
    ∷ (36, 7331)
    ∷ (40, 7640)
    ∷ (48, 8184)
    ∷ (56, 8659)
    ∷ (64, 9043)
    ∷ (72, 9366)
    ∷ (77, 10000)
    ∷ []

-- `reuse_mixed` and `reuse_same_domain`, in units of 0.001.
abbrev pub reuse_mixed : List (ℕ × ℕ)
reuse_mixed = (1, 1000) ∷ (2, 1019) ∷ (4, 1057) ∷ (8, 1134) ∷ (16, 1307) ∷ (32, 1651) ∷ []

abbrev pub reuse_same_domain : List (ℕ × ℕ)
reuse_same_domain = (1, 1000) ∷ (2, 1071) ∷ (4, 1193) ∷ (8, 1401) ∷ (16, 1762) ∷ (32, 2385) ∷ []

-- The rate of the last point of a curve.
unfoldable pub last_rate : (S : Scalar) → ℕ → List (ℕ × ℕ) → S.F
last_rate S y [] = S.lit y 4
last_rate S y (p ∷ ps) = last_rate S p.1 ps

unfoldable pub last_gb : ℕ → List (ℕ × ℕ) → ℕ
last_gb x [] = x
last_gb x (p ∷ ps) = last_gb p.0 ps

-- The loop of `_interp_hit`: the point before, and the points to come.
unfoldable pub interp_from : (S : Scalar) → S.F → ℕ × ℕ → List (ℕ × ℕ) → Result S.F
unfolding quot
interp_from S gb p [] = ok (S.lit p.1 4)
interp_from S gb p (q ∷ qs) =
    let rest = interp_from S gb q qs in
    if S.le gb (S.nat q.0)
    then (quot S (S.sub gb (S.nat p.0)) (S.nat (q.0 - p.0)) >>= λ f.
        ok (S.add (S.lit p.1 4) (S.mul f (S.sub (S.lit q.1 4) (S.lit p.1 4)))))
    else rest

-- `_interp_hit`, of a curve with a point.
unfoldable pub interp_hit : (S : Scalar) → List (ℕ × ℕ) → S.F → Result S.F
unfolding quot interp_from last_rate last_gb
interp_hit S [] gb = raise Error.index_error
interp_hit S (p ∷ ps) gb =
    if S.le gb (S.nat p.0)
    then (if p.0 == 0
        then ok (S.nat 0)
        else (quot S gb (S.nat p.0) >>= λ f. ok (S.mul (S.lit p.1 4) f)))
    else (if S.le (S.nat (last_gb p.0 ps)) gb
        then ok (last_rate S p.1 ps)
        else interp_from S gb p ps)

abbrev better_reuse : ℕ → ℕ × ℕ → Option (ℕ × ℕ) → Option (ℕ × ℕ)
better_reuse c p none = if leb p.0 c then some p else none
better_reuse c p (some q) = if leb p.0 c && ltb q.0 p.0 then some p else some q

-- The largest key that is at most the concurrency, with its value.
unfoldable pub best_reuse : ℕ → List (ℕ × ℕ) → Option (ℕ × ℕ)
best_reuse c [] = none
best_reuse c (p ∷ ps) = better_reuse c p (best_reuse c ps)

-- `max()` of no keys is an error.
abbrev pub rate_or_error : (S : Scalar) → Option (ℕ × ℕ) → Result S.F
rate_or_error S none = raise Error.value_error
rate_or_error S (some q) = ok (S.lit q.1 3)

-- `reuse.get(concurrency) or reuse[max(k for k in reuse if k <= concurrency)]`: a key that is the
-- concurrency is the largest, and no value is zero.
unfoldable pub reuse_of : (S : Scalar) → List (ℕ × ℕ) → ℕ → Result S.F
unfolding best_reuse
reuse_of S table c = rate_or_error S (best_reuse c table)
