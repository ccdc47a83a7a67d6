-- ===== src/Slab/TwoQ/Outcome.antt =====
-- When the replay of a trace by `TwoQ` raises.
use sabah_mo_e_accelerator.Base.{
  ℕ, ◌-◌, ◌/◌, ◌≤◌, ◌<◌, ◌≡◌, ◌⊎◌, inl, inr, refl, Bool, true, false, List, [], ◌∷◌, ltb, leb,
  length, has, ok, raise, Error, Bool-cases, arith, push, move_to_end, leb→le, ltb→lt, ltb→ge, ◌++◌,
  popitem,
}
use sabah_mo_e_accelerator.Slab.TwoQ.{TwoQ, init, popleft, retire, probation, promote, access}
use sabah_mo_e_accelerator.Slab.Replay.{misses, misses-length}

-- The sizes of a simulator of capacity four or more.
record IsSized {ℓ} {K : Type ℓ} (q : TwoQ K) : Type 0 where
  pub some_in : 0 < q.kin
  pub some_out : 0 < q.kout
  pub some_main : q.kin < q.cap

popleft-some {ℓ} :
    {K : Type ℓ} (xs : List K) → 0 < length xs → (x : K) × (r : List K) × (popleft xs ≡ ok (x, r))
unfolding popleft
popleft-some [] h = absurd (omega arith)
popleft-some (x ∷ xs) h = (x, xs, refl)

popitem-some {ℓ} :
    {K : Type ℓ} (xs : List K) → 0 < length xs → (x : K) × (r : List K) × (popitem xs ≡ ok (x, r))
unfolding popitem
popitem-some [] h = absurd (omega arith)
popitem-some (x ∷ xs) h = (x, xs, refl)

retire-some {ℓ} :
    {K : Type ℓ} (kout : ℕ) (old : K) (out : List K)
    → 0 < kout
    → (r : List K) × (retire kout old out ≡ ok r)
unfolding retire
retire-some kout old out h = elim (Bool-cases (leb kout (length out))) [
  | inl full ↦
      let (x, r, e) = popleft-some out (omega (arith, leb→le _ _ full)) in
      (r ++ old ∷ [], rw (full, e))
  | inr room ↦ (out ++ old ∷ [], rw room)
]

probation-IsSized {ℓ} :
    {K : Type ℓ} (q : TwoQ K) (k : K)
    → IsSized q
    → (r : TwoQ K) × (probation q k ≡ ok r) × IsSized r
unfolding probation
probation-IsSized q k s = elim (Bool-cases (leb q.kin (length q.a1in))) [
  | inl full ↦
      let (x, r, e) = popleft-some q.a1in (omega (arith, leb→le _ _ full, s.some_in)) in
      let (out, t) = retire-some q.kout x q.a1out s.some_out in
      (
        record q { a1in = r ++ k ∷ []; a1out = out },
        rw (full, e, t),
        record { some_in = s.some_in; some_out = s.some_out; some_main = s.some_main },
      )
  | inr room ↦ (
    record q { a1in = q.a1in ++ k ∷ [] },
    rw room,
    record { some_in = s.some_in; some_out = s.some_out; some_main = s.some_main },
  )
]

module _ {ℓ} {K : Type ℓ} (dec : Discrete K) where
  promote-IsSized :
      (q : TwoQ K) (k : K) → IsSized q → (r : TwoQ K) × (promote dec q k ≡ ok r) × IsSized r
  unfolding promote
  promote-IsSized q k s = elim (Bool-cases (ltb (length q.am) (q.cap - q.kin))) [
    | inl room ↦ (
      record q { am = push dec k q.am },
      rw room,
      record { some_in = s.some_in; some_out = s.some_out; some_main = s.some_main },
    )
    | inr full ↦ elim (Bool-cases (has dec k q.a1out)) [
      | inl seen ↦ (
        record q { am = push dec k q.am },
        rw (full, seen),
        record { some_in = s.some_in; some_out = s.some_out; some_main = s.some_main },
      )
      | inr unseen ↦
          let (x, r, e) = popitem-some q.am (omega (arith, ltb→ge _ _ full, s.some_main)) in
          (
            record q { am = push dec k r },
            rw (full, unseen, e),
            record { some_in = s.some_in; some_out = s.some_out; some_main = s.some_main },
          )
    ]
  ]

  access-IsSized :
      (q : TwoQ K) (k : K)
      → IsSized q
      → (r : TwoQ K) × (hit : Bool) × (access dec q k ≡ ok (r, hit)) × IsSized r
  unfolding access
  access-IsSized q k s = elim (Bool-cases (has dec k q.am)) [
    | inl here ↦ (
      record q { am = move_to_end dec k q.am },
      true,
      rw here,
      record { some_in = s.some_in; some_out = s.some_out; some_main = s.some_main },
    )
    | inr away ↦
        let (r, e, t) = probation-IsSized q k s in
        let (u, f, v) = promote-IsSized r k t in (u, false, rw (away, e, f), v)
  ]

  -- The replay of a non-empty trace by `TwoQ` raises `IndexError` below a capacity of four, where
  -- the probation queue has no room at all, and returns from a capacity of four on, with at most one
  -- miss for each access.
  pub misses-outcome :
      (cap : ℕ) (k : K) (ks : List K)
      → ((cap < 4) × (misses (access dec) (init {K = K} cap) (k ∷ ks) ≡ raise Error.index_error))
        ⊎ ((4 ≤ cap)
            × ((n : ℕ) × (misses (access dec) (init {K = K} cap) (k ∷ ks) ≡ ok n)
                × (n ≤ length (k ∷ ks))))
  unfolding misses access init probation popleft has
  misses-outcome cap k ks = elim (Bool-cases (ltb cap 4)) [
    | inl small ↦
        let low = ltb→lt _ _ small in
        let no_room : cap / 4 ≡ 0 = omega arith in inl (low, rw no_room)
    | inr large ↦
        let high = ltb→ge _ _ large in
        inr (
          high,
          misses-length (access dec) IsSized access-IsSized (init cap) (k ∷ ks)
              (record { some_in = omega arith; some_out = omega arith; some_main = omega arith }),
        )
  ]
