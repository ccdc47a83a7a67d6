-- ===== src/Tier/Calls/Others.antt =====
-- The calls on one block leave the slots of the other blocks alone.
use sabah_mo_e_accelerator.Base.{
  ℕ, zero, suc, ◌+◌, ◌≡◌, refl, sym, ap, ◌∙◌, false, List, [], ◌∷◌, Option, none, some, length,
  fromkeys, ℕ_discrete, insert, ok, arith, bind-ok, ◌⊎◌, Bool-cases, ltb, Result, ◌>>=◌, ◌||◌, ◌==◌,
  inl, inr,
}
use sabah_mo_e_accelerator.Tier.Types.{Role, Bank, gate, up, down, Pool, Shared, gpu_resident}
use sabah_mo_e_accelerator.Tier.Streams.{issue, ev_put, start_copy}
use sabah_mo_e_accelerator.Tier.Streams.Memory.{holds, copy_bytes-holds}
use sabah_mo_e_accelerator.Tier.Pool.{unplace, place, evict, put_inflight}
use sabah_mo_e_accelerator.Tier.Ensure.{
  State, land, hit, resident, request, count_request, take_slot_from, book, admit, admit_all, shed,
  count, count_miss, mark_resident, finish, slots_of, soft_cap, serve, count_duplicates, ensure,
}
use sabah_mo_e_accelerator.Tier.Ensure.Finish.{stall-same}
use sabah_mo_e_accelerator.Tier.Prefetch.{refresh, enqueue, enqueued, queue, prefetch}
use sabah_mo_e_accelerator.Tier.Calls.Starved.{evict-outcome}

-- A slot of some block, in a role.
module _ (bank : Bank) (other slot : ℕ) (role : Role) where
  -- The block of the state stays, and the slot has what it had.
  abbrev Same : State → State → Type 0
  Same s t =
      (t.pool.block ≡ s.pool.block)
      × (holds t.shared.commands other slot role ≡ holds s.shared.commands other slot role)

  evict-Same :
      (protected : List ℕ) (s : State) (r : Pool × Shared × ℕ)
      → evict protected s.pool s.shared ≡ ok r
      → Same s (record { pool = r.0; shared = r.1 })
  unfolding evict unplace put_inflight ev_put
  evict-Same protected s r q = ground arith

  hit-Same : (e : ℕ) (s t : State) → hit e s ≡ ok t → Same s t
  unfolding hit land issue ev_put holds
  hit-Same e s t q = ground arith

  start_copy-Same :
      (b e n : ℕ) (s : Shared) (c : Shared × ℕ)
      → (other == b) ≡ false
      → start_copy bank b e n s ≡ ok c
      → holds c.0.commands other slot role ≡ holds s.commands other slot role
  unfolding start_copy
  start_copy-Same b e n s c apart q =
      let (g, hg, q1) = bind-ok (bank.slice b e gate) _ c q in
      let (u, hu, q2) = bind-ok (bank.slice b e up) _ c q1 in
      let (d, hd, q3) = bind-ok (bank.slice b e down) _ c q2 in
      ground (arith, copy_bytes-holds bank b n g u d s other slot role)

  request-Same :
      (want : List ℕ) (s : State) (r : State × List ℕ) → request want s ≡ ok r → Same s r.0
  unfolding request
  request-Same [] s r q = ground arith
  request-Same (e ∷ want) s r q = elim (Bool-cases (resident e s.pool)) [
    | inl here ↦
        let (t, a, b) = bind-ok (hit e s) (request want) r (ground arith) in
        let l = hit-Same e s t a in let m = request-Same want t r b in (m.0 ∙ l.0, m.1 ∙ l.1)
    | inr away ↦
        let (t, a, b) =
          bind-ok (request want (record s { shared = count (count_miss s.pool.block) s.shared }))
            (λ u. ok (u.0, e ∷ u.1)) r (ground arith) in
        let m =
          request-Same want (record s { shared = count (count_miss s.pool.block) s.shared }) t a in
        ground arith
  ]

  take_slot-Same :
      (free protected : List ℕ) (s : State) (r : State × ℕ)
      → take_slot_from free protected s ≡ ok r
      → Same s r.0
  unfolding take_slot_from
  take_slot-Same [] protected s r q =
      let (t, a, b) = bind-ok (evict protected s.pool s.shared) _ r q in
      let l = evict-Same protected s t a in ground arith
  take_slot-Same (x ∷ xs) protected s r q = ground arith

  admit-Same :
      (protected : List ℕ) (e : ℕ) (s : State) (r : State × ℕ)
      → (other == s.pool.block) ≡ false
      → admit bank protected e s ≡ ok r
      → Same s r.0
  unfolding admit book place
  admit-Same protected e s r apart q =
      let (t, a, b) = bind-ok (take_slot_from s.pool.free_slots protected s) _ r q in
      let (c, d, f) = bind-ok (start_copy bank t.0.pool.block e t.1 t.0.shared) _ r b in
      let l = take_slot-Same s.pool.free_slots protected s t a in
      let m =
        start_copy-Same t.0.pool.block e t.1 t.0.shared c (ap (λ n. other == n) l.0 ∙ apart) d in
      ground arith

  admit_all-Same :
      (protected es : List ℕ) (s : State) (r : State × List ℕ)
      → (other == s.pool.block) ≡ false
      → admit_all bank protected es s ≡ ok r
      → Same s r.0
  unfolding admit_all
  admit_all-Same protected [] s r apart q = ground arith
  admit_all-Same protected (e ∷ es) s r apart q =
      let (t, a, b) = bind-ok (admit bank protected e s) _ r q in
      let (u, c, d) = bind-ok (admit_all bank protected es t.0) _ r b in
      let l = admit-Same protected e s t apart a in
      let m = admit_all-Same protected es t.0 u (ap (λ n. other == n) l.0 ∙ apart) c in ground arith

  shed-Same :
      (fuel cap : ℕ) (protected : List ℕ) (s t : State)
      → shed fuel cap protected s ≡ ok t
      → Same s t
  unfolding shed
  shed-Same zero cap protected s t q = ground arith
  shed-Same (suc fuel) cap protected s t q = elim (Bool-cases (ltb cap (length s.pool.slot_of))) [
    | inr few ↦ ground arith
    | inl many ↦ elim (evict-outcome (evict protected s.pool s.shared)) [
      | inl (r, a) ↦
          let l = evict-Same protected s r a in
          let m =
            shed-Same fuel cap protected (record { pool = r.0; shared = r.1 }) t (ground arith) in
          (m.0 ∙ l.0, m.1 ∙ l.1)
      | inr (inl n) ↦ ground arith
      | inr (inr (e, n)) ↦ ground arith
    ]
  ]

  mark_resident-block : (es : List ℕ) (p : Pool) → (mark_resident es p).block ≡ p.block
  unfolding mark_resident
  mark_resident-block [] p = refl
  mark_resident-block (e ∷ es) p =
      mark_resident-block es (record p { state = insert ℕ_discrete e gpu_resident p.state })

  finish-Same : (es events : List ℕ) (s : State) → Same s (finish es events s)
  unfolding finish
  finish-Same [] events s = (refl, refl)
  finish-Same (e ∷ es) events s =
      (mark_resident-block (e ∷ es) s.pool, (stall-same events s.shared).0 other slot role)

  serve-Same :
      (prefetch_slots : ℕ) (want : List ℕ) (s : State) (r : State × List ℕ)
      → (other == s.pool.block) ≡ false
      → serve bank prefetch_slots want s ≡ ok r
      → Same s r.0
  unfolding serve count_request
  serve-Same prefetch_slots want s r apart q =
      let protected = fromkeys ℕ_discrete want in
      let (t, a, b) = bind-ok (request want s) _ r q in
      let l = request-Same want s t a in
      let (u, c, d) =
        bind-ok
          (admit_all bank protected (fromkeys ℕ_discrete t.1) (count_request bank want t.1 t.0)) _ r
          b in
      let m =
        admit_all-Same protected (fromkeys ℕ_discrete t.1) (count_request bank want t.1 t.0) u
          (ap (λ n. other == n) l.0 ∙ apart) c in
      let (v, e, f) =
        bind-ok
          (shed (length u.0.pool.slot_of) (soft_cap prefetch_slots protected u.0.pool) protected
            u.0)
          _ r d in
      let n =
        shed-Same (length u.0.pool.slot_of) (soft_cap prefetch_slots protected u.0.pool) protected
          u.0 v e in
      let (w, g, i) = bind-ok (slots_of want (finish t.1 u.1 v).pool) _ r f in
      let k = finish-Same t.1 u.1 v in ground arith

  pub ensure-Same :
      (prefetch_slots : ℕ) (want : List ℕ) (s : State) (r : State × List ℕ)
      → (other == s.pool.block) ≡ false
      → ensure bank prefetch_slots want s ≡ ok r
      → Same s r.0
  unfolding ensure
  ensure-Same prefetch_slots want s r apart q = elim (Bool-cases (s.pool.n_slots == 0)) [
    | inl none_there ↦ ground arith
    | inr some_there ↦ elim (Bool-cases (ltb s.pool.n_slots (length (fromkeys ℕ_discrete want)))) [
      | inl many ↦ ground arith
      | inr few ↦
          let l = serve-Same prefetch_slots want (count_duplicates want s) r apart (ground arith) in
          (l.0, l.1)
    ]
  ]

  enqueue-Same :
      (e : ℕ) (free : List ℕ) (s : State) (t : Option State)
      → (other == s.pool.block) ≡ false
      → enqueue bank e free s ≡ ok t
      → (t ≡ none) ⊎ ((u : State) × (t ≡ some u) × Same s u)
  unfolding enqueue enqueued place
  enqueue-Same e [] s t apart q = inl (ground arith)
  enqueue-Same e (n ∷ free) s t apart q =
      let (c, d, f) = bind-ok (start_copy bank s.pool.block e n s.shared) _ t q in
      let m = start_copy-Same s.pool.block e n s.shared c apart d in
      let g : some (enqueued e n free s c) ≡ t = ground arith in
      inr (enqueued e n free s c, sym g, (refl, m))

  queue-Same :
      (es : List ℕ) (s : State) (r : State × ℕ)
      → (other == s.pool.block) ≡ false
      → queue bank es s ≡ ok r
      → Same s r.0
  unfolding queue refresh
  queue-Same [] s r apart q = ground arith
  queue-Same (e ∷ es) s r apart q = elim (Bool-cases (resident e s.pool)) [
    | inl here ↦
        let (p, a, b) =
          bind-ok (refresh e s.pool) (λ p. queue bank es (record s { pool = p })) r
            (ground arith) in
        let l : p.block ≡ s.pool.block = ground arith in
        let m = queue-Same es (record s { pool = p }) r (ap (λ n. other == n) l ∙ apart) b in
        (m.0 ∙ l, m.1)
    | inr away ↦
        let (t, a, b) = bind-ok (enqueue bank e s.pool.free_slots s) next r (ground arith) in
        elim (enqueue-Same e s.pool.free_slots s t apart a) [
          | inl n ↦ ground arith
          | inr (u, g, l) ↦
              let (v, c, d) = bind-ok (queue bank es u) (λ r. ok (r.0, r.1 + 1)) r (ground arith) in
              let m = queue-Same es u v (ap (λ n. other == n) l.0 ∙ apart) c in ground arith
        ]
  ]
    where
      next : Option State → Result (State × ℕ)
      next = elim [ none ↦ ok (s, 0) | some t ↦ (queue bank es t >>= λ r. ok (r.0, r.1 + 1)) ]

  pub prefetch-Same :
      (prefetch_slots : ℕ) (es : List ℕ) (s : State) (r : State × ℕ)
      → (other == s.pool.block) ≡ false
      → prefetch bank prefetch_slots es s ≡ ok r
      → Same s r.0
  unfolding prefetch
  prefetch-Same prefetch_slots es s r apart q =
      elim (Bool-cases (s.pool.n_slots == 0 || prefetch_slots == 0)) [
        | inl off ↦ ground arith
        | inr on ↦
            let (t, a, b) =
              bind-ok (queue bank (fromkeys ℕ_discrete es) s)
                (λ u. ok (
                  record u.0 {
                    shared =
                        count (λ c. record c { prefetch_issued = c.prefetch_issued + u.1 })
                          u.0.shared;
                  },
                  u.1,
                ))
                r (ground arith) in
            let l = queue-Same (fromkeys ℕ_discrete es) s t apart a in ground arith
      ]
