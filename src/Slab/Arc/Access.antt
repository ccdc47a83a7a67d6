-- ===== src/Slab/Arc/Access.antt =====
-- `ARC.access`, branch by branch: it never raises and keeps the invariant.
use sabah_mo_e_accelerator.Base.{
  suc, ◌+◌, ◌-◌, ◌≤◌, ◌<◌, ◌≡◌, refl, ◌⊎◌, inl, inr, true, false, ◌||◌, List, arith, ltb, ltb→lt,
  ltb→ge, length, has, push, delete, move_to_end, ok, min, max, Bool-cases, has-push, has-delete,
  has-move_to_end, length-push, length-delete, length-move_to_end, Distinct-push, Distinct-delete,
  Distinct-move_to_end,
}
use sabah_mo_e_accelerator.Slab.Arc.{Arc, delta, access_b1, access_b2}
use sabah_mo_e_accelerator.Slab.Arc.Valid.{Resident, IsValid, from_t1, replace-Evicted}

-- What an access leaves: a valid cache of the same capacity that holds the key.
pub record Accessed {ℓ} {K : Type ℓ} (dec : Discrete K) (a : Arc K) (k : K) (r : Arc K)
    : Type ℓ where
  pub valid : IsValid dec r
  pub same_c : r.c ≡ a.c
  pub present : (has dec k r.t1 || has dec k r.t2) ≡ true

-- A full cache always has a victim for a ghost of `b2`.
source {ℓ} :
    {K : Type ℓ} (a : Arc K)
    → 0 < a.c
    → a.p ≤ a.c
    → length a.t1 + length a.t2 ≡ a.c
    → (0 < length a.t2) ⊎ (from_t1 a true ≡ true)
source a h p e = elim (Bool-cases (ltb 0 (length a.t2))) [
  | inl t ↦ inl (ltb→lt _ _ t)
  | inr f ↦ let t = ltb→ge _ _ f in inr (ground arith)
]

module _ {ℓ} {K : Type ℓ} (dec : Discrete K) (k : K) (a : Arc K) (v : IsValid dec a) where
  pub hit_t1 :
      has dec k a.t1 ≡ true
      → Accessed dec a k (record a { t1 = delete dec k a.t1; t2 = push dec k a.t2 })
  hit_t1 h =
      let absent = v.keys.disjoint k h in
      let shorter = length-delete dec k a.t1 h in
      let longer = length-push dec k a.t2 absent in
      record {
        valid = record {
          sizes = record {
            positive = v.sizes.positive;
            target = v.sizes.target;
            resident = omega arith;
            recent = omega arith;
            full = ground arith;
          };
          keys = record {
            distinct1 = Distinct-delete dec k a.t1 v.keys.distinct1;
            distinct2 = Distinct-push dec k a.t2 v.keys.distinct2;
            disjoint = λ j p. ground (
              arith,
              has-push dec k j a.t2,
              has-delete dec k j a.t1 v.keys.distinct1,
              v.keys.disjoint j,
            );
          };
        };
        same_c = refl;
        present = ground (arith, has-push dec k k a.t2);
      }

  pub hit_t2 :
      has dec k a.t1 ≡ false
      → has dec k a.t2 ≡ true
      → Accessed dec a k (record a { t2 = move_to_end dec k a.t2 })
  hit_t2 h1 h =
      let same = length-move_to_end dec k a.t2 h in
      record {
        valid = record {
          sizes = record {
            positive = v.sizes.positive;
            target = v.sizes.target;
            resident = omega arith;
            recent = v.sizes.recent;
            full = ground arith;
          };
          keys = record {
            distinct1 = v.keys.distinct1;
            distinct2 = Distinct-move_to_end dec k a.t2 v.keys.distinct2;
            disjoint = λ j p.
                ground (arith, has-move_to_end dec k j a.t2 v.keys.distinct2, v.keys.disjoint j);
          };
        };
        same_c = refl;
        present = ground (arith, has-move_to_end dec k k a.t2 v.keys.distinct2);
      }

  module _ (h1 : has dec k a.t1 ≡ false) (h2 : has dec k a.t2 ≡ false) where
    -- A ghost of either list comes back into `t2` after an eviction.
    revived :
        (r : Arc K) (xs ys : List K)
        → r.c ≡ a.c
        → r.p ≤ a.c
        → suc (length r.t1 + length r.t2) ≡ a.c
        → length r.t1 + length xs ≤ a.c
        → has dec k r.t1 ≡ false
        → has dec k r.t2 ≡ false
        → Resident dec r
        → Accessed dec a k (record r { b1 = xs; b2 = ys; t2 = push dec k r.t2 })
    revived r xs ys c p one recent k1 k2 d =
        let longer = length-push dec k r.t2 k2 in
        let positive = v.sizes.positive in
        record {
          valid = record {
            sizes = record {
              positive = omega arith;
              target = omega arith;
              resident = omega arith;
              recent = omega arith;
              full = inr (omega arith);
            };
            keys = record {
              distinct1 = d.distinct1;
              distinct2 = Distinct-push dec k r.t2 d.distinct2;
              disjoint = λ j q. ground (arith, has-push dec k j r.t2, d.disjoint j q);
            };
          };
          same_c = c;
          present = ground (arith, has-push dec k k r.t2);
        }

    -- A new key goes to the end of `t1`.
    pub added :
        (r : Arc K)
        → r.c ≡ a.c
        → r.p ≤ a.c
        → suc (length r.t1 + length r.t2) ≤ a.c
        → suc (length r.t1 + length r.b1) ≤ a.c
        → (length r.b1 + length r.b2 ≡ 0) ⊎ (suc (length r.t1 + length r.t2) ≡ a.c)
        → has dec k r.t1 ≡ false
        → has dec k r.t2 ≡ false
        → Resident dec r
        → Accessed dec a k (record r { t1 = push dec k r.t1 })
    added r c p one recent full k1 k2 d =
        let longer = length-push dec k r.t1 k1 in
        let positive = v.sizes.positive in
        record {
          valid = record {
            sizes = record {
              positive = omega arith;
              target = omega arith;
              resident = omega arith;
              recent = omega arith;
              full = omega arith;
            };
            keys = record {
              distinct1 = Distinct-push dec k r.t1 d.distinct1;
              distinct2 = d.distinct2;
              disjoint = λ j q. ground (arith, has-push dec k j r.t1, d.disjoint j);
            };
          };
          same_c = c;
          present = ground (arith, has-push dec k k r.t1);
        }

    pub ghost_b1 :
        has dec k a.b1 ≡ true
        → (r : Arc K) × (access_b1 dec a k ≡ ok (r, false)) × Accessed dec a k r
    unfolding access_b1
    ghost_b1 g =
        let a' = record a { p = min (a.p + delta (length a.b1) (length a.b2)) a.c } in
        let ghosts = length-delete dec k a.b1 g in
        let sizes = v.sizes in
        let total : length a.t1 + length a.t2 ≡ a.c = ground (arith, sizes.full) in
        let recent = sizes.recent in
        let (r, e, ev, kept) = replace-Evicted dec a' false (inl (omega arith)) in
        let back = length-delete dec k r.b1 (kept.b1 k g) in
        let r1 = ev.recent in
        let r2 = ev.one in
        let r3 = ev.same_p in
        let r4 = ev.same_c in
        (
          record r { b1 = delete dec k r.b1; t2 = push dec k r.t2 },
          rw e,
          revived r (delete dec k r.b1) r.b2 (omega arith) (omega arith) (omega arith) (omega arith)
              (kept.t1 k h1) (kept.t2 k h2)
              (kept.distinct (record {
                distinct1 = v.keys.distinct1;
                distinct2 = v.keys.distinct2;
                disjoint = v.keys.disjoint;
              })),
        )

    pub ghost_b2 :
        has dec k a.b2 ≡ true
        → (r : Arc K) × (access_b2 dec a k ≡ ok (r, false)) × Accessed dec a k r
    unfolding access_b2
    ghost_b2 g =
        let a' = record a { p = max (a.p - delta (length a.b2) (length a.b1)) 0 } in
        let ghosts = length-delete dec k a.b2 g in
        let sizes = v.sizes in
        let total : length a.t1 + length a.t2 ≡ a.c = ground (arith, sizes.full) in
        let recent = sizes.recent in
        let target = sizes.target in
        let positive = sizes.positive in
        let (r, e, ev, kept) =
          replace-Evicted dec a' true (source a' (omega arith) (omega arith) total) in
        let r1 = ev.recent in
        let r2 = ev.one in
        let r3 = ev.same_p in
        let r4 = ev.same_c in
        (
          record r { b2 = delete dec k r.b2; t2 = push dec k r.t2 },
          rw e,
          revived r r.b1 (delete dec k r.b2) (omega arith) (omega arith) (omega arith) (omega arith)
              (kept.t1 k h1) (kept.t2 k h2)
              (kept.distinct (record {
                distinct1 = v.keys.distinct1;
                distinct2 = v.keys.distinct2;
                disjoint = v.keys.disjoint;
              })),
        )
