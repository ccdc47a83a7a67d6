-- ===== src/Tier/Calls/Starved.antt =====
-- Once a block of the tier has no free slot, it never has one again, and nothing is prefetched for
-- it.
use sabah_mo_e_accelerator.Base.{
  ℕ, zero, suc, ◌+◌, ◌≡◌, refl, List, [], ◌∷◌, none, length, fromkeys, ℕ_discrete, ok, raise, arith,
  bind-ok, insert, Error, ◌⊎◌, Bool-cases, ltb, Result, ◌||◌, ◌==◌, inl, inr,
}
use sabah_mo_e_accelerator.Tier.Types.{Bank, gpu_resident, Pool, Shared}
use sabah_mo_e_accelerator.Tier.Streams.{start_copy}
use sabah_mo_e_accelerator.Tier.Pool.{unplace, place, evict}
use sabah_mo_e_accelerator.Tier.Ensure.{
  State, land, hit, resident, request, count_request, take_slot_from, book, admit, admit_all,
  or_break, shed, count, count_miss, mark_resident, finish, slots_of, soft_cap, serve,
  count_duplicates, ensure,
}
use sabah_mo_e_accelerator.Tier.Prefetch.{refresh, enqueue, queue, prefetch}
use sabah_mo_e_accelerator.Tier.Calls.{Call, ensure_call, prefetch_call, step, run}

-- The block has no free slot.
abbrev pub IsStarved : State → Type 0
IsStarved s = s.pool.free_slots ≡ []

evict-IsStarved :
    (protected : List ℕ) (p : Pool) (s : Shared) (r : Pool × Shared × ℕ)
    → p.free_slots ≡ []
    → evict protected p s ≡ ok r
    → r.0.free_slots ≡ []
unfolding evict unplace
evict-IsStarved protected p s r h q = ground arith

hit-IsStarved : (e : ℕ) (s t : State) → IsStarved s → hit e s ≡ ok t → IsStarved t
unfolding hit land
hit-IsStarved e s t h q = ground arith

request-IsStarved :
    (want : List ℕ) (s : State) (r : State × List ℕ)
    → IsStarved s
    → request want s ≡ ok r
    → IsStarved r.0
unfolding request
request-IsStarved [] s r h q = ground arith
request-IsStarved (e ∷ want) s r h q = elim (Bool-cases (resident e s.pool)) [
  | inl here ↦
      let (t, a, b) = bind-ok (hit e s) (request want) r (ground arith) in
      request-IsStarved want t r (hit-IsStarved e s t h a) b
  | inr away ↦
      let (t, a, b) =
        bind-ok (request want (record s { shared = count (count_miss s.pool.block) s.shared }))
          (λ u. ok (u.0, e ∷ u.1)) r (ground arith) in
      let l =
        request-IsStarved want (record s { shared = count (count_miss s.pool.block) s.shared }) t h
          a in
      ground arith
]

take_slot-IsStarved :
    (free protected : List ℕ) (s : State) (r : State × ℕ)
    → IsStarved s
    → free ≡ []
    → take_slot_from free protected s ≡ ok r
    → IsStarved r.0
unfolding take_slot_from
take_slot-IsStarved [] protected s r h e q =
    let (t, a, b) = bind-ok (evict protected s.pool s.shared) _ r q in
    let l = evict-IsStarved protected s.pool s.shared t h a in ground arith
take_slot-IsStarved (x ∷ xs) protected s r h e q = absurd (cc)

admit-IsStarved :
    (bank : Bank) (protected : List ℕ) (e : ℕ) (s : State) (r : State × ℕ)
    → IsStarved s
    → admit bank protected e s ≡ ok r
    → IsStarved r.0
unfolding admit take_slot_from book place
admit-IsStarved bank protected e s r h q =
    let (t, a, b) = bind-ok (take_slot_from s.pool.free_slots protected s) _ r q in
    let (c, d, f) = bind-ok (start_copy bank t.0.pool.block e t.1 t.0.shared) _ r b in
    let l = take_slot-IsStarved s.pool.free_slots protected s t h h a in ground arith

pub evict-outcome :
    {A : Type 0} (m : Result A)
    → ((r : A) × (m ≡ ok r)) ⊎ ((or_break m ≡ ok none) ⊎ ((e : Error) × (or_break m ≡ raise e)))
evict-outcome (ok r) = inl (r, refl)
evict-outcome (raise Error.runtime_error) = inr (inl refl)
evict-outcome (raise Error.key_error) = inr (inr (_, refl))
evict-outcome (raise Error.index_error) = inr (inr (_, refl))
evict-outcome (raise Error.value_error) = inr (inr (_, refl))
evict-outcome (raise Error.io_error) = inr (inr (_, refl))
evict-outcome (raise Error.cuda_error) = inr (inr (_, refl))
evict-outcome (raise Error.zero_division_error) = inr (inr (_, refl))

shed-IsStarved :
    (fuel cap : ℕ) (protected : List ℕ) (s t : State)
    → IsStarved s
    → shed fuel cap protected s ≡ ok t
    → IsStarved t
unfolding shed
shed-IsStarved zero cap protected s t h q = ground arith
shed-IsStarved (suc fuel) cap protected s t h q =
    elim (Bool-cases (ltb cap (length s.pool.slot_of))) [
      | inr few ↦ ground arith
      | inl many ↦ elim (evict-outcome (evict protected s.pool s.shared)) [
        | inl (r, a) ↦
            let l = evict-IsStarved protected s.pool s.shared r h a in
            shed-IsStarved fuel cap protected (record { pool = r.0; shared = r.1 }) t l
              (ground arith)
        | inr (inl n) ↦ ground arith
        | inr (inr (e, n)) ↦ ground arith
      ]
    ]

mark_resident-IsStarved : (es : List ℕ) (p : Pool) → (mark_resident es p).free_slots ≡ p.free_slots
unfolding mark_resident
mark_resident-IsStarved [] p = refl
mark_resident-IsStarved (e ∷ es) p =
    mark_resident-IsStarved es (record p { state = insert ℕ_discrete e gpu_resident p.state })

finish-IsStarved :
    (es events : List ℕ) (s : State) → (finish es events s).pool.free_slots ≡ s.pool.free_slots
unfolding finish
finish-IsStarved [] events s = refl
finish-IsStarved (e ∷ es) events s = mark_resident-IsStarved (e ∷ es) s.pool

admit_all-IsStarved :
    (bank : Bank) (protected es : List ℕ) (s : State) (r : State × List ℕ)
    → IsStarved s
    → admit_all bank protected es s ≡ ok r
    → IsStarved r.0
unfolding admit_all
admit_all-IsStarved bank protected [] s r h q = ground arith
admit_all-IsStarved bank protected (e ∷ es) s r h q =
    let (t, a, b) = bind-ok (admit bank protected e s) _ r q in
    let (u, c, d) = bind-ok (admit_all bank protected es t.0) _ r b in
    let l = admit-IsStarved bank protected e s t h a in
    let m = admit_all-IsStarved bank protected es t.0 u l c in ground arith

serve-IsStarved :
    (bank : Bank) (prefetch_slots : ℕ) (want : List ℕ) (s : State) (r : State × List ℕ)
    → IsStarved s
    → serve bank prefetch_slots want s ≡ ok r
    → IsStarved r.0
unfolding serve count_request
serve-IsStarved bank prefetch_slots want s r h q =
    let protected = fromkeys ℕ_discrete want in
    let (t, a, b) = bind-ok (request want s) _ r q in
    let l = request-IsStarved want s t h a in
    let (u, c, d) =
      bind-ok (admit_all bank protected (fromkeys ℕ_discrete t.1) (count_request bank want t.1 t.0))
        _ r b in
    let m =
      admit_all-IsStarved bank protected (fromkeys ℕ_discrete t.1) (count_request bank want t.1 t.0)
        u l c in
    let (v, e, f) =
      bind-ok
        (shed (length u.0.pool.slot_of) (soft_cap prefetch_slots protected u.0.pool) protected u.0)
        _ r d in
    let n =
      shed-IsStarved (length u.0.pool.slot_of) (soft_cap prefetch_slots protected u.0.pool)
        protected u.0 v m e in
    let (w, g, i) = bind-ok (slots_of want (finish t.1 u.1 v).pool) _ r f in
    let k = finish-IsStarved t.1 u.1 v in ground arith

ensure-IsStarved :
    (bank : Bank) (prefetch_slots : ℕ) (want : List ℕ) (s : State) (r : State × List ℕ)
    → IsStarved s
    → ensure bank prefetch_slots want s ≡ ok r
    → IsStarved r.0
unfolding ensure
ensure-IsStarved bank prefetch_slots want s r h q = elim (Bool-cases (s.pool.n_slots == 0)) [
  | inl none_there ↦ ground arith
  | inr some_there ↦ elim (Bool-cases (ltb s.pool.n_slots (length (fromkeys ℕ_discrete want)))) [
    | inl many ↦ ground arith
    | inr few ↦
        serve-IsStarved bank prefetch_slots want (count_duplicates want s) r h (ground arith)
  ]
]

queue-IsStarved :
    (bank : Bank) (es : List ℕ) (s : State) (r : State × ℕ)
    → IsStarved s
    → queue bank es s ≡ ok r
    → IsStarved r.0 × (r.1 ≡ 0)
unfolding queue enqueue refresh
queue-IsStarved bank [] s r h q = ground arith
queue-IsStarved bank (e ∷ es) s r h q = elim (Bool-cases (resident e s.pool)) [
  | inl here ↦
      let (p, a, b) =
        bind-ok (refresh e s.pool) (λ p. queue bank es (record s { pool = p })) r (ground arith) in
      queue-IsStarved bank es (record s { pool = p }) r (ground arith) b
  | inr away ↦ ground arith
]

prefetch-IsStarved :
    (bank : Bank) (prefetch_slots : ℕ) (es : List ℕ) (s : State) (r : State × ℕ)
    → IsStarved s
    → prefetch bank prefetch_slots es s ≡ ok r
    → IsStarved r.0 × (r.1 ≡ 0)
unfolding prefetch
prefetch-IsStarved bank prefetch_slots es s r h q =
    elim (Bool-cases (s.pool.n_slots == 0 || prefetch_slots == 0)) [
      | inl off ↦ ground arith
      | inr on ↦
          let (t, a, b) =
            bind-ok (queue bank (fromkeys ℕ_discrete es) s)
              (λ u. ok (
                record u.0 {
                  shared =
                      count (λ c. record c { prefetch_issued = c.prefetch_issued + u.1 })
                        u.0.shared;
                },
                u.1,
              ))
              r (ground arith) in
          let l = queue-IsStarved bank (fromkeys ℕ_discrete es) s t h a in ground arith
    ]

run-IsStarved :
    (bank : Bank) (prefetch_slots : ℕ) (cs : List Call) (s t : State)
    → IsStarved s
    → run bank prefetch_slots cs s ≡ ok t
    → IsStarved t
unfolding run step
run-IsStarved bank prefetch_slots [] s t h q = ground arith
run-IsStarved bank prefetch_slots (ensure_call want ∷ cs) s t h q =
    let (u, a, b) = bind-ok (step bank prefetch_slots (ensure_call want) s) _ t q in
    let (r, c, d) = bind-ok (ensure bank prefetch_slots want s) _ u a in
    let l = ensure-IsStarved bank prefetch_slots want s r h c in
    run-IsStarved bank prefetch_slots cs u t (ground arith) b
run-IsStarved bank prefetch_slots (prefetch_call es ∷ cs) s t h q =
    let (u, a, b) = bind-ok (step bank prefetch_slots (prefetch_call es) s) _ t q in
    let (r, c, d) = bind-ok (prefetch bank prefetch_slots es s) _ u a in
    let l = prefetch-IsStarved bank prefetch_slots es s r h c in
    run-IsStarved bank prefetch_slots cs u t (ground arith) b

-- If a block has no free slot, and calls of `ensure` and `prefetch` follow in any order and return,
-- then a prefetch after them that returns queues no expert, whatever the reserve.
pub starved-prefetch :
    (bank : Bank) (prefetch_slots : ℕ) (cs : List Call) (es : List ℕ) (s t : State) (r : State × ℕ)
    → s.pool.free_slots ≡ []
    → run bank prefetch_slots cs s ≡ ok t
    → prefetch bank prefetch_slots es t ≡ ok r
    → r.1 ≡ 0
starved-prefetch bank prefetch_slots cs es s t r h q k =
    (prefetch-IsStarved bank prefetch_slots es t r (run-IsStarved bank prefetch_slots cs s t h q)
      k).1
