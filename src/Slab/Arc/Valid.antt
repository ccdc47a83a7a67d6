-- ===== src/Slab/Arc/Valid.antt =====
-- The invariant of `ARC`, and that `_replace` moves one resident key to the ghosts.
use sabah_mo_e_accelerator.Base.{
  suc, ◌+◌, ◌≤◌, ◌<◌, ◌≡◌, refl, ◌⊎◌, inl, inr, Bool, true, false, ◌&&◌, ◌||◌, List, ◌∷◌,
  popitem-oldest, arith, ltb, ◌==◌, length, has, Distinct, push, ok, has-push, Bool-cases, ap,
  length-push-le,
}
use sabah_mo_e_accelerator.Slab.Arc.{Arc, replace}

-- The sizes that the algorithm keeps.
pub record Sizes {ℓ} {K : Type ℓ} (a : Arc K) : Type 0 where
  pub positive : 0 < a.c
  pub target : a.p ≤ a.c
  pub resident : length a.t1 + length a.t2 ≤ a.c
  pub recent : length a.t1 + length a.b1 ≤ a.c
  pub full : (length a.b1 + length a.b2 ≡ 0) ⊎ (length a.t1 + length a.t2 ≡ a.c)

-- No key is resident twice.
pub record Resident {ℓ} {K : Type ℓ} (dec : Discrete K) (a : Arc K) : Type ℓ where
  pub distinct1 : Distinct dec a.t1
  pub distinct2 : Distinct dec a.t2
  pub disjoint : (j : K) → has dec j a.t1 ≡ true → has dec j a.t2 ≡ false

pub record IsValid {ℓ} {K : Type ℓ} (dec : Discrete K) (a : Arc K) : Type ℓ where
  pub sizes : Sizes a
  pub keys : Resident dec a

-- `_replace` takes its victim from `t1`.
abbrev pub from_t1 {ℓ} : {K : Type ℓ} → Arc K → Bool → Bool
from_t1 a in_b2 = ltb 0 (length a.t1) && (ltb a.p (length a.t1) || (in_b2 && length a.t1 == a.p))

-- The cache after the eviction of `x`, with `r` left of its list.
abbrev pub evict_t1 {ℓ} : {K : Type ℓ} → Discrete K → Arc K → K → List K → Arc K
evict_t1 dec a x r = record a { t1 = r; b1 = push dec x a.b1 }

abbrev pub evict_t2 {ℓ} : {K : Type ℓ} → Discrete K → Arc K → K → List K → Arc K
evict_t2 dec a x r = record a { t2 = r; b2 = push dec x a.b2 }

-- What `_replace` leaves.
pub record Evicted {ℓ} {K : Type ℓ} (a r : Arc K) : Type 0 where
  pub same_c : r.c ≡ a.c
  pub same_p : r.p ≡ a.p
  pub one : suc (length r.t1 + length r.t2) ≡ length a.t1 + length a.t2
  pub recent : length r.t1 + length r.b1 ≤ length a.t1 + length a.b1

pub record Kept {ℓ} {K : Type ℓ} (dec : Discrete K) (a r : Arc K) : Type ℓ where
  pub t1 : (j : K) → has dec j a.t1 ≡ false → has dec j r.t1 ≡ false
  pub t2 : (j : K) → has dec j a.t2 ≡ false → has dec j r.t2 ≡ false
  pub b1 : (j : K) → has dec j a.b1 ≡ true → has dec j r.b1 ≡ true
  pub b2 : (j : K) → has dec j a.b2 ≡ true → has dec j r.b2 ≡ true
  pub distinct : Resident dec a → Resident dec r

module _ {ℓ} {K : Type ℓ} (dec : Discrete K) (a : Arc K) where
  evict_t1-Evicted : (x : K) (r : List K) → a.t1 ≡ x ∷ r → Evicted a (evict_t1 dec a x r)
  evict_t1-Evicted x r e =
      let n = ap length e in
      record {
        same_c = refl;
        same_p = refl;
        one = omega arith;
        recent = omega (arith, length-push-le dec x a.b1);
      }

  evict_t2-Evicted : (x : K) (r : List K) → a.t2 ≡ x ∷ r → Evicted a (evict_t2 dec a x r)
  evict_t2-Evicted x r e =
      let n = ap length e in
      record { same_c = refl; same_p = refl; one = omega arith; recent = omega arith }

  evict_t1-Kept : (x : K) (r : List K) → a.t1 ≡ x ∷ r → Kept dec a (evict_t1 dec a x r)
  unfolding has
  evict_t1-Kept x r e = record {
    t1 = λ j. ground arith;
    t2 = λ j h. h;
    b1 = λ j. ground (arith, has-push dec x j a.b1);
    b2 = λ j h. h;
    distinct = λ d. record {
      distinct1 = (rw e at d.distinct1).1;
      distinct2 = d.distinct2;
      disjoint = λ j h. d.disjoint j (ground arith);
    };
  }

  evict_t2-Kept : (x : K) (r : List K) → a.t2 ≡ x ∷ r → Kept dec a (evict_t2 dec a x r)
  unfolding has
  evict_t2-Kept x r e = record {
    t1 = λ j h. h;
    t2 = λ j. ground arith;
    b1 = λ j h. h;
    b2 = λ j. ground (arith, has-push dec x j a.b2);
    distinct = λ d. record {
      distinct1 = d.distinct1;
      distinct2 = (rw e at d.distinct2).1;
      disjoint = λ j h. ground (arith, d.disjoint j h);
    };
  }

  -- `_replace` succeeds when its source is not empty.
  pub replace-Evicted :
      (in_b2 : Bool)
      → (0 < length a.t2) ⊎ (from_t1 a in_b2 ≡ true)
      → (r : Arc K) × (replace dec a in_b2 ≡ ok r) × Evicted a r × Kept dec a r
  unfolding replace
  replace-Evicted in_b2 h = elim (Bool-cases (from_t1 a in_b2)) [
    | inl t ↦
        let (x, r, e, popped) = popitem-oldest a.t1 (ground arith) in
        (evict_t1 dec a x r, rw (t, popped), evict_t1-Evicted x r e, evict_t1-Kept x r e)
    | inr f ↦
        let (x, r, e, popped) = popitem-oldest a.t2 (ground arith) in
        (evict_t2 dec a x r, rw (f, popped), evict_t2-Evicted x r e, evict_t2-Kept x r e)
  ]
