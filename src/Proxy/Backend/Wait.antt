-- ===== src/Proxy/Backend/Wait.antt =====
-- How `_wait_backend` of sabah/server/openai_proxy.py ends.
use sabah_mo_e_accelerator.Base.{
  ℕ, zero, suc, ◌+◌, ◌*◌, ◌/◌, ◌≤◌, ◌<◌, ◌≡◌, ◌≢◌, refl, sym, subst, ◌-◌, ◌∙◌, inl, inr, none, some,
  Option-cases, arith, dec_lt,
}
use mathlib.Core.Logic.{◌↔◌}
use sabah_mo_e_accelerator.Proxy.Backend.{
  Probe, status, os_error, other_error, Round, Waited, ready, timed_out, probed, round_end,
  wait_from, wait_backend,
}

-- Each round starts a second after the one before it, or later: the round sleeps that long.
abbrev pub Ticks : ℕ → (ℕ → Round) → Type 0
Ticks start rounds =
    (start ≤ (rounds 0).time) × ((i : ℕ) → (rounds i).time + 1000 ≤ (rounds (suc i)).time)

-- The answer lets the wait go on.
abbrev pub Quiet : Probe → Type 0
Quiet (status s) = s ≢ 200
Quiet os_error = Unit
Quiet other_error = ⊥

-- The backend loads in a round that starts in time: it answers 200 there, and until then its process
-- runs and its answers let the wait go on.
abbrev pub Loads : ℕ → (ℕ → Round) → ℕ → Type 0
Loads deadline rounds k =
    ((rounds k).time < deadline)
    × ((rounds k).probe ≡ status 200)
    × ((j : ℕ) → j ≤ k → (rounds j).poll ≡ none)
    × ((j : ℕ) → j < k → Quiet (rounds j).probe)

probed-Quiet : (p : Probe) → Quiet p → probed p ≡ none
unfolding probed
probed-Quiet (status s) h = ground arith
probed-Quiet os_error h = refl
probed-Quiet other_error h = elim h [ ]

Quiet-probed : (p : Probe) → probed p ≡ none → Quiet p
unfolding probed
Quiet-probed (status s) h = λ e. ground arith
Quiet-probed os_error h = tt
Quiet-probed other_error h = absurd (cc)

probed-ready : (p : Probe) → probed p ≡ some ready → p ≡ status 200
unfolding probed
probed-ready (status s) h = ground arith
probed-ready os_error h = absurd (cc)
probed-ready other_error h = absurd (cc)

module _ (deadline : ℕ) (r : Round) where
  -- A round that lets the wait go on.
  goes_on :
      round_end deadline r ≡ none → (r.time < deadline) × (r.poll ≡ none) × (probed r.probe ≡ none)
  unfolding round_end
  goes_on h = ground arith

  gone_on : r.time < deadline → r.poll ≡ none → Quiet r.probe → round_end deadline r ≡ none
  unfolding round_end
  gone_on t p q = ground (arith, probed-Quiet r.probe)

  loaded :
      round_end deadline r ≡ some ready
      → (r.time < deadline) × (r.poll ≡ none) × (probed r.probe ≡ some ready)
  unfolding round_end
  loaded h = ground arith

  loads :
      r.time < deadline → r.poll ≡ none → r.probe ≡ status 200 → round_end deadline r ≡ some ready
  unfolding round_end probed
  loads t p q = ground arith

  late : deadline ≤ r.time → round_end deadline r ≡ some timed_out
  unfolding round_end
  late h = ground arith

module _ (start deadline : ℕ) (rounds : ℕ → Round) (t : Ticks start rounds) where
  time-lower : (i : ℕ) → start + 1000 * i ≤ (rounds i).time
  time-lower zero = omega (arith, t.0)
  time-lower (suc i) = omega (arith, t.1 i, time-lower i)

  time_mono : (i d : ℕ) → (rounds i).time ≤ (rounds (i + d)).time
  time_mono i zero = let e : i + 0 ≡ i = omega arith in rw e (omega arith)
  time_mono i (suc d) =
      let e : i + suc d ≡ suc (i + d) = omega arith in
      rw e (omega (arith, t.1 (i + d), time_mono i d))

  -- The wait ends in a round, and in none before it.
  record Decided (i : ℕ) (w : Waited) : Type 0 where
    pub round : ℕ
    pub ends : round_end deadline (rounds round) ≡ some w
    pub before : (j : ℕ) → i ≤ j → j < round → round_end deadline (rounds j) ≡ none

  wait_from_end :
      (f i : ℕ) (w : Waited)
      → round_end deadline (rounds i) ≡ some w
      → wait_from (suc f) deadline rounds i ≡ some w
  unfolding wait_from
  wait_from_end f i w e = rw (e, wait_from) refl

  wait_from_next :
      (f i : ℕ)
      → round_end deadline (rounds i) ≡ none
      → wait_from (suc f) deadline rounds i ≡ wait_from f deadline rounds (suc i)
  unfolding wait_from
  wait_from_next f i e = rw (e, wait_from) refl

  Decided-here : (i : ℕ) (w : Waited) → round_end deadline (rounds i) ≡ some w → Decided i w
  Decided-here i w e = record { round = i; ends = e; before = λ j p q. absurd (omega arith) }

  Decided-later :
      (i : ℕ) (w : Waited) → round_end deadline (rounds i) ≡ none → Decided (suc i) w → Decided i w
  Decided-later i w e d = record {
    round = d.round;
    ends = d.ends;
    before = λ j p q. elim (dec_lt i j) [
      | yes after ↦ d.before j after q
      | no not_after ↦
          let same : i ≡ j = omega arith in subst (λ k. round_end deadline (rounds k) ≡ none) same e
    ];
  }

  wait_from-Decided :
      (f i : ℕ)
      → deadline ≤ (rounds (i + f)).time
      → (w : Waited) × (wait_from (suc f) deadline rounds i ≡ some w) × Decided i w
  wait_from-Decided zero i h =
      let same : i + 0 ≡ i = omega arith in
      let e = late deadline (rounds i) (rw same at h) in
      (timed_out, wait_from_end zero i timed_out e, Decided-here i timed_out e)
  wait_from-Decided (suc f) i h = elim (Option-cases (round_end deadline (rounds i))) [
    | inr (w, e) ↦ (w, wait_from_end (suc f) i w e, Decided-here i w e)
    | inl e ↦
        let same : i + suc f ≡ suc i + f = omega arith in
        let (w, returned, d) = wait_from-Decided f (suc i) (rw same at h) in
        (w, wait_from_next (suc f) i e ∙ returned, Decided-later i w e d)
  ]

  ready-Loads : Decided 0 ready → (k : ℕ) × Loads deadline rounds k
  ready-Loads d =
      let (in_time, runs, answers) = loaded deadline (rounds d.round) d.ends in
      let quiet =
        λ (j : ℕ) (q : j < d.round). goes_on deadline (rounds j) (d.before j (omega arith) q) in
      let runs_until = λ (j : ℕ) (q : j ≤ d.round). polled j q (λ r. (quiet j r).1) runs in
      (
        d.round,
        (
          in_time,
          probed-ready (rounds d.round).probe answers,
          runs_until,
          (λ j q. Quiet-probed (rounds j).probe (quiet j q).2),
        ),
      )
    where
      polled :
          (j : ℕ)
          → j ≤ d.round
          → (j < d.round → (rounds j).poll ≡ none)
          → (rounds d.round).poll ≡ none
          → (rounds j).poll ≡ none
      polled j q before here = elim (dec_lt j d.round) [
        | yes earlier ↦ before earlier
        | no not_earlier ↦
            let same : d.round ≡ j = omega arith in subst (λ k. (rounds k).poll ≡ none) same here
      ]

  -- Until the backend loads, the rounds let the wait go on.
  Loads-before :
      (k : ℕ) → Loads deadline rounds k → (j : ℕ) → j < k → round_end deadline (rounds j) ≡ none
  Loads-before k (in_time, answers, runs, quiet) j q =
      let same : j + (k - j) ≡ k = omega arith in
      let earlier : (rounds j).time ≤ (rounds k).time =
        subst (λ m. (rounds j).time ≤ (rounds m).time) same (time_mono j (k - j)) in
      gone_on deadline (rounds j) (omega arith) (runs j (omega arith)) (quiet j q)

  Loads-ready : (w : Waited) (k : ℕ) → Decided 0 w → Loads deadline rounds k → w ≡ ready
  Loads-ready w k d l =
      let here = loads deadline (rounds k) l.0 (l.2 k (omega arith)) l.1 in
      elim (dec_lt d.round k) [
        | yes before ↦ absurd (cc (Loads-before k l d.round before, d.ends))
        | no not_before ↦ elim (dec_lt k d.round) [
          | yes after ↦ absurd (cc (d.before k (omega arith) after, here))
          | no not_after ↦
              let same : d.round ≡ k = omega arith in
              let e : some w ≡ some ready =
                sym d.ends
                ∙ subst (λ m. round_end deadline (rounds m) ≡ some ready) (sym same) here in
              cc
        ]
      ]

-- Let a round of the wait start no sooner than a second after the one before it. Then the wait ends
-- within the rounds that fit the timeout and two more, and it ends by returning exactly if the
-- backend loads in a round that starts in time: it answers 200 there, and until then its process
-- runs, and its answers have other statuses or are refused by an `OSError`.
pub wait_backend-Loads :
    (start timeout : ℕ) (rounds : ℕ → Round)
    → Ticks start rounds
    → (w : Waited) × (wait_backend start timeout rounds ≡ some w)
      × ((w ≡ ready) ↔ ((k : ℕ) × Loads (start + timeout) rounds k))
unfolding wait_backend
wait_backend-Loads start timeout rounds t =
    let deadline = start + timeout in
    let rounds_left = suc (timeout / 1000) in
    let (w, returned, d) =
      wait_from-Decided start deadline rounds t rounds_left 0
        (omega (arith, time-lower start deadline rounds t (0 + rounds_left))) in
    (
      w,
      returned,
      (
        (λ e. ready-Loads start deadline rounds t (subst (Decided start deadline rounds t 0) e d)),
        (λ l. Loads-ready start deadline rounds t w l.0 d l.1),
      ),
    )
