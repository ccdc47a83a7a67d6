-- ===== src/Slab/Lfu/Least.antt =====
-- `LFU` evicts a least used key, and stays within its capacity.
use sabah_mo_e_accelerator.Base.{
  ℕ, ◌+◌, ◌≤◌, ◌<◌, ◌≡◌, refl, subst, inl, inr, Bool, true, false, List, [], ◌∷◌, leb, leb→le,
  leb→gt, length, has, Distinct, push, delete, has-push, has-delete, length-push, length-delete,
  Distinct-push, Distinct-delete, insert, remove, ok, Bool-cases, arith,
}
use sabah_mo_e_accelerator.Slab.Lfu.{Lfu, freq, before, least_from, least, make_room, access}

-- What an access leaves.
pub record LeastUsed {K : Type 0} (dec : Discrete K) (lt : K → K → Bool) (l : Lfu K) (k : K)
    (r : Lfu K) : Type 0 where
  pub same_cap : r.cap ≡ l.cap
  pub fits : length r.d ≤ r.cap
  pub distinct : Distinct dec r.d
  pub present : has dec k r.d ≡ true
  pub least_used :
      (j x : K)
      → has dec j l.d ≡ true
      → has dec j r.d ≡ false
      → has dec x l.d ≡ true
      → freq dec lt l.f j ≤ freq dec lt l.f x

module _ {K : Type 0} (dec : Discrete K) (lt : K → K → Bool) where
  before-le :
      (f : List (K × ℕ)) (x y : K) → before dec lt f x y ≡ true → freq dec lt f x ≤ freq dec lt f y
  unfolding before
  before-le f x y h = ground arith

  before-ge :
      (f : List (K × ℕ)) (x y : K) → before dec lt f x y ≡ false → freq dec lt f y ≤ freq dec lt f x
  unfolding before
  before-ge f x y h = ground arith

  -- The least key is one of the keys, and no key is used less.
  least_from-le :
      (f : List (K × ℕ)) (best x : K) (xs : List K)
      → has dec x (best ∷ xs) ≡ true
      → freq dec lt f (least_from dec lt f best xs) ≤ freq dec lt f x
  unfolding least_from has
  least_from-le f best x [] h = ground arith
  least_from-le f best x (y ∷ ys) h = elim (Bool-cases (before dec lt f y best)) [
    | inl b ↦
        let less = before-le f y best b in
        elim (Bool-cases (has dec x (y ∷ ys))) [
          | inl here ↦ rw b (least_from-le f y x ys here)
          | inr away ↦
              let r = least_from-le f y y ys (ground arith) in
              let e : x ≡ best = ground arith in rw (b, e) (omega arith)
        ]
    | inr b ↦
        let more = before-ge f y best b in
        elim (Bool-cases (has dec x (best ∷ ys))) [
          | inl here ↦ rw b (least_from-le f best x ys here)
          | inr away ↦
              let r = least_from-le f best best ys (ground arith) in
              let e : x ≡ y = ground arith in rw (b, e) (omega arith)
        ]
  ]

  least_from-has :
      (f : List (K × ℕ)) (best : K) (xs : List K)
      → has dec (least_from dec lt f best xs) (best ∷ xs) ≡ true
  unfolding least_from has
  least_from-has f best [] = ground arith
  least_from-has f best (y ∷ ys) = elim (Bool-cases (before dec lt f y best)) [
    | inl b ↦ let r = least_from-has f y ys in ground arith
    | inr b ↦ let r = least_from-has f best ys in ground arith
  ]

  -- What the eviction leaves of a full cache, or of one that has room.
  record Roomy (l r : Lfu K) : Type 0 where
    pub same_cap : r.cap ≡ l.cap
    pub some_room : length r.d < l.cap
    pub distinct : Distinct dec r.d
    pub fewer : (j : K) → has dec j l.d ≡ false → has dec j r.d ≡ false
    pub least_used :
        (j x : K)
        → has dec j l.d ≡ true
        → has dec j r.d ≡ false
        → has dec x l.d ≡ true
        → freq dec lt l.f j ≤ freq dec lt l.f x

  evicted :
      (l : Lfu K) (v : K)
      → Distinct dec l.d
      → length l.d ≤ l.cap
      → has dec v l.d ≡ true
      → ((x : K) → has dec x l.d ≡ true → freq dec lt l.f v ≤ freq dec lt l.f x)
      → Roomy l (record l { d = delete dec v l.d; f = remove dec v l.f })
  evicted l v d n here least_of = record {
    same_cap = refl;
    some_room = omega (arith, length-delete dec v l.d here);
    distinct = Distinct-delete dec v l.d d;
    fewer = λ j h. ground (arith, has-delete dec v j l.d d);
    least_used = λ j x h gone q.
        let e : v ≡ j = ground (arith, has-delete dec v j l.d d) in
        subst (λ y. freq dec lt l.f y ≤ freq dec lt l.f x) e (least_of x q);
  }

  make_room-Roomy :
      (l : Lfu K)
      → 0 < l.cap
      → length l.d ≤ l.cap
      → Distinct dec l.d
      → (r : Lfu K) × (make_room dec lt l ≡ ok r) × Roomy l r
  unfolding make_room least
  make_room-Roomy l positive n d = elim (Bool-cases (leb l.cap (length l.d))) [
    | inl full ↦
        let m = leb→le _ _ full in
        let (v, chosen, here, least_of) = least-some l.f l.d (omega arith) in
        (
          record l { d = delete dec v l.d; f = remove dec v l.f },
          rw (full, chosen),
          evicted l v d n here least_of,
        )
    | inr room ↦
        let m = leb→gt _ _ room in
        (
          l,
          rw room,
          record {
            same_cap = refl;
            some_room = m;
            distinct = d;
            fewer = λ j h. h;
            least_used = λ j x h gone q. absurd (ground arith);
          },
        )
  ]
    where
      least-some :
          (f : List (K × ℕ)) (xs : List K)
          → 0 < length xs
          → (v : K) × (least dec lt f xs ≡ ok v)
            × (has dec v xs ≡ true)
            × ((x : K) → has dec x xs ≡ true → freq dec lt f v ≤ freq dec lt f x)
      least-some f [] h = absurd (omega arith)
      least-some f (y ∷ ys) h =
          (least_from dec lt f y ys, refl, least_from-has f y ys, λ x q. least_from-le f y x ys q)

  -- An access of a cache of positive capacity, which holds no more keys than that and none twice,
  -- returns, and reports a hit exactly for a resident key. The key is resident afterwards, the
  -- capacity is kept and not exceeded, no key is held twice, and a key that left was used no more
  -- than any resident key.
  pub access-LeastUsed :
      (l : Lfu K) (k : K)
      → 0 < l.cap
      → length l.d ≤ l.cap
      → Distinct dec l.d
      → (r : Lfu K) × (access dec lt l k ≡ ok (r, has dec k l.d)) × LeastUsed dec lt l k r
  unfolding access
  access-LeastUsed l k positive n d = elim (Bool-cases (has dec k l.d)) [
    | inl here ↦ (
      record l { f = insert dec k (freq dec lt l.f k + 1) l.f },
      rw here,
      record {
        same_cap = refl;
        fits = n;
        distinct = d;
        present = here;
        least_used = λ j x h gone q. absurd (ground arith);
      },
    )
    | inr away ↦
        let (r, made, m) = make_room-Roomy l positive n d in
        let gone = m.fewer k away in
        (
          record r { d = push dec k r.d; f = insert dec k 1 r.f },
          rw (away, made),
          record {
            same_cap = m.same_cap;
            fits = omega (arith, length-push dec k r.d gone, m.some_room, m.same_cap);
            distinct = Distinct-push dec k r.d m.distinct;
            present = ground (arith, has-push dec k k r.d);
            least_used =
                λ j x h left q. m.least_used j x h (ground (arith, has-push dec k j r.d)) q;
          },
        )
  ]
