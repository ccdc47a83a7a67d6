-- ===== src/Slab/Arc/Safety.antt =====
-- `ARC`: every access of every trace returns, within the capacity.
use sabah_mo_e_accelerator.Base.{
  ℕ, suc, ◌+◌, ◌≤◌, ◌<◌, ◌≡◌, refl, ◌⊎◌, inl, inr, true, false, ◌||◌, arith, List, leb, leb→le,
  leb→gt, ==→eq, ==→ne, move_to_end, ltb, ltb→lt, ltb→ge, ◌==◌, length, has, delete, push, popitem,
  popitem-oldest, ok, ◌>>=◌, ap, Bool-cases,
}
use sabah_mo_e_accelerator.Slab.Arc.{Arc, init, replace, make_room, access}
use sabah_mo_e_accelerator.Slab.Arc.Valid.{Resident, IsValid, from_t1, replace-Evicted}
use sabah_mo_e_accelerator.Slab.Arc.Access.{Accessed, hit_t1, hit_t2, ghost_b1, ghost_b2, added}

-- What `access` needs before it adds a new key to `t1`.
record Room {ℓ} {K : Type ℓ} (dec : Discrete K) (k : K) (a r : Arc K) : Type ℓ where
  same_c : r.c ≡ a.c
  target : r.p ≤ a.c
  one : suc (length r.t1 + length r.t2) ≤ a.c
  recent : suc (length r.t1 + length r.b1) ≤ a.c
  full : (length r.b1 + length r.b2 ≡ 0) ⊎ (suc (length r.t1 + length r.t2) ≡ a.c)
  no_t1 : has dec k r.t1 ≡ false
  no_t2 : has dec k r.t2 ≡ false
  keys : Resident dec r

module _ {ℓ} {K : Type ℓ} (dec : Discrete K) (k : K) where
  -- An eviction by `_replace` from a full cache makes room.
  replace-Room :
      (a b : Arc K)
      → b.c ≡ a.c
      → b.p ≤ a.c
      → (0 < length b.t2) ⊎ (from_t1 b false ≡ true)
      → length b.t1 + length b.t2 ≡ a.c
      → length b.t1 + length b.b1 < a.c
      → has dec k b.t1 ≡ false
      → has dec k b.t2 ≡ false
      → Resident dec b
      → (r : Arc K) × (replace dec b false ≡ ok r) × Room dec k a r
  replace-Room a b c p source total recent h1 h2 d =
      let (r, e, ev, kept) = replace-Evicted dec b false source in
      let r1 = ev.recent in
      let r2 = ev.one in
      let r3 = ev.same_p in
      let r4 = ev.same_c in
      (
        r,
        e,
        record {
          same_c = omega arith;
          target = omega arith;
          one = omega arith;
          recent = omega arith;
          full = inr (omega arith);
          no_t1 = kept.t1 k h1;
          no_t2 = kept.t2 k h2;
          keys = kept.distinct d;
        },
      )

  module _ (a : Arc K) (v : IsValid dec a) (h1 : has dec k a.t1 ≡ false)
      (h2 : has dec k a.t2 ≡ false) where
    open v use {sizes, keys}
    open sizes use {positive, target, resident, recent, full}

    -- The resident keys of a valid cache, whatever the other lists of the record.
    same_keys : (xs : List K) → Resident dec (record a { b1 = xs })
    same_keys xs = record {
      distinct1 = keys.distinct1;
      distinct2 = keys.distinct2;
      disjoint = keys.disjoint;
    }

    -- `t1` and `b1` together are full, and `b1` is not empty.
    Room-ghost :
        length a.t1 + length a.b1 ≡ a.c
        → length a.t1 < a.c
        → (r : Arc K) × ((popitem a.b1 >>= λ e. replace dec (record a { b1 = e.1 }) false) ≡ ok r)
          × Room dec k a r
    Room-ghost e l =
        let (x, b, eb, popped) = popitem-oldest a.b1 (omega arith) in
        let n = ap length eb in
        let total : length a.t1 + length a.t2 ≡ a.c = omega (arith, full) in
        let (r, er, room) =
          replace-Room a (record a { b1 = b }) refl target (inl (omega arith)) total (omega arith)
            h1 h2 (same_keys b) in
        (r, rw popped er, room)

    -- `t1` alone is full: its oldest key is forgotten.
    Room-recent :
        length a.t1 ≡ a.c
        → (r : Arc K) × ((popitem a.t1 >>= λ e. ok (record a { t1 = e.1 })) ≡ ok r) × Room dec k a r
    unfolding has
    Room-recent l =
        let (x, t, et, popped) = popitem-oldest a.t1 (omega (arith, positive)) in
        let n = ap length et in
        let bound = recent in
        let bound2 = resident in
        (
          record a { t1 = t },
          rw popped,
          record {
            same_c = refl;
            target = target;
            one = omega arith;
            recent = omega arith;
            full = omega (arith, full);
            no_t1 = ground arith;
            no_t2 = h2;
            keys = record {
              distinct1 = (rw et at keys.distinct1).1;
              distinct2 = keys.distinct2;
              disjoint = λ j q. keys.disjoint j (ground arith);
            };
          },
        )

    -- The frequent side is full with its ghosts: its oldest key is forgotten.
    Room-frequent :
        length a.t1 + length a.b1 < a.c
        → a.c ≤ length a.t2 + length a.b2
        → (r : Arc K) × ((popitem a.t2 >>= λ e. ok (record a { t2 = e.1 })) ≡ ok r) × Room dec k a r
    unfolding has
    Room-frequent l m =
        let total : length a.t1 + length a.t2 ≡ a.c = omega (arith, full, resident) in
        let (x, t, et, popped) = popitem-oldest a.t2 (omega arith) in
        let n = ap length et in
        (
          record a { t2 = t },
          rw popped,
          record {
            same_c = refl;
            target = target;
            one = omega arith;
            recent = omega arith;
            full = inr (omega arith);
            no_t1 = h1;
            no_t2 = ground arith;
            keys = record {
              distinct1 = keys.distinct1;
              distinct2 = (rw et at keys.distinct2).1;
              disjoint = λ j q. ground (arith, keys.disjoint j q);
            };
          },
        )

    Room-shared :
        length a.t1 + length a.b1 < a.c
        → a.c ≤ length a.t1 + length a.b1 + length a.t2 + length a.b2
        → length a.t2 + length a.b2 < a.c
        → (r : Arc K) × (replace dec a false ≡ ok r) × Room dec k a r
    Room-shared l m n =
        let total : length a.t1 + length a.t2 ≡ a.c = omega (arith, full, resident) in
        replace-Room a a refl target (inl (omega arith)) total l h1 h2 keys

    Room-free :
        length a.t1 + length a.b1 < a.c
        → length a.t1 + length a.b1 + length a.t2 + length a.b2 < a.c
        → Room dec k a a
    Room-free l m = record {
      same_c = refl;
      target = target;
      one = omega arith;
      recent = omega arith;
      full = omega (arith, full);
      no_t1 = h1;
      no_t2 = h2;
      keys = keys;
    }

    make_room-Room : (r : Arc K) × (make_room dec a ≡ ok r) × Room dec k a r
    unfolding make_room
    make_room-Room = elim (Bool-cases (length a.t1 + length a.b1 == a.c)) [
      | inl e ↦ elim (Bool-cases (ltb (length a.t1) a.c)) [
        | inl l ↦ rw (e, l) (Room-ghost (==→eq _ _ e) (ltb→lt _ _ l))
        | inr l ↦ rw (e, l) (Room-recent (omega (arith, ltb→ge _ _ l, ==→eq _ _ e, recent)))
      ]
      | inr e ↦
          let below : length a.t1 + length a.b1 < a.c = omega (arith, ==→ne _ _ e, recent) in
          elim (Bool-cases (leb a.c (length a.t1 + length a.b1 + length a.t2 + length a.b2))) [
            | inl m ↦ elim (Bool-cases (ltb (length a.t2 + length a.b2) a.c)) [
              | inl l ↦ rw (e, m, l) (Room-shared below (leb→le _ _ m) (ltb→lt _ _ l))
              | inr l ↦ rw (e, m, l) (Room-frequent below (ltb→ge _ _ l))
            ]
            | inr m ↦ (a, rw (e, m), Room-free below (leb→gt _ _ m))
          ]
    ]

-- Every access of a valid cache returns: it reports a hit exactly for a resident key, and leaves a
-- valid cache of the same capacity that holds the key.
pub access-Accessed {ℓ} :
    {K : Type ℓ} (dec : Discrete K) (k : K) (a : Arc K)
    → IsValid dec a
    → (r : Arc K) × (access dec a k ≡ ok (r, has dec k a.t1 || has dec k a.t2)) × Accessed dec a k r
unfolding access
access-Accessed dec k a v = elim (Bool-cases (has dec k a.t1)) [
  | inl h ↦ (record a { t1 = delete dec k a.t1; t2 = push dec k a.t2 }, rw h, hit_t1 dec k a v h)
  | inr h1 ↦ elim (Bool-cases (has dec k a.t2)) [
    | inl h ↦ (record a { t2 = move_to_end dec k a.t2 }, rw (h1, h), hit_t2 dec k a v h1 h)
    | inr h2 ↦ elim (Bool-cases (has dec k a.b1)) [
      | inl g ↦ rw (h1, h2, g) (ghost_b1 dec k a v h1 h2 g)
      | inr g1 ↦ elim (Bool-cases (has dec k a.b2)) [
        | inl g ↦ rw (h1, h2, g1, g) (ghost_b2 dec k a v h1 h2 g)
        | inr g2 ↦
            let (r, e, m) = make_room-Room dec k a v h1 h2 in
            (
              record r { t1 = push dec k r.t1 },
              rw (h1, h2, g1, g2, e),
              added dec k a v h1 h2 r m.same_c m.target m.one m.recent m.full m.no_t1 m.no_t2
                  m.keys,
            )
      ]
    ]
  ]
]

-- A new cache is valid.
pub init-IsValid {ℓ} : {K : Type ℓ} (dec : Discrete K) (cap : ℕ) → IsValid dec (init {K = K} cap)
unfolding init has
init-IsValid dec cap = record {
  sizes = omega arith;
  keys = record { distinct1 = tt; distinct2 = tt; disjoint = λ j h. cc };
}
