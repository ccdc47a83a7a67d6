-- ===== src/Tier/Ensure/Enter.antt =====
-- The first two loops of `_ensure_locked` together: afterwards the whole request is resident.
use sabah_mo_e_accelerator.Base.{
  ℕ, ◌+◌, ◌≤◌, ◌≡◌, refl, ap, inl, inr, true, List, none, has, lookup, length, arith, ℕ_discrete,
  is_some, Option-cases, ok, ◌∙◌, subst, sym, All, All-has, has-All, fromkeys, has-fromkeys,
  Distinct-fromkeys, subst₂,
}
use sabah_mo_e_accelerator.Tier.Types.{Bank, Pool, update_counts}
use sabah_mo_e_accelerator.Tier.Streams.Memory.{IsReadable}
use sabah_mo_e_accelerator.Tier.Ensure.{State, request, count_request, admit_all}
use sabah_mo_e_accelerator.Tier.Ensure.Admit.{
  IsSound, Keeps, Keeps-trans, usable, AllAdmitted, admit_all-AllAdmitted,
}
use sabah_mo_e_accelerator.Tier.Ensure.Request.{Requested, request-Requested}
use sabah_mo_e_accelerator.Tier.Ensure.Finish.{IsSound-same, SameSlots-pool, SameSlots-usable}

count_request-same :
    (bank : Bank) (want misses : List ℕ) (s : State)
    → let s' = count_request bank want misses s in
      (s'.pool ≡ s.pool)
      × (s'.shared.commands ≡ s.shared.commands)
      × (s'.shared.tel.hits ≡ s.shared.tel.hits)
      × (s'.shared.tel.misses ≡ s.shared.tel.misses)
      × (s'.shared.tel.requests ≡ s.shared.tel.requests + length want)
unfolding count_request update_counts
count_request-same bank want misses s = (refl, refl, refl, refl, refl)

-- The state after the second loop.
pub record Arrived (bank : Bank) (want : List ℕ) (s a : State) : Type 0 where
  pub sound : IsSound bank a
  pub keeps : Keeps (fromkeys ℕ_discrete want) s.pool a.pool
  pub present :
      (j : ℕ) → has ℕ_discrete j want ≡ true → is_some (lookup ℕ_discrete j a.pool.slot_of) ≡ true
  pub same_room : usable a.pool ≡ usable s.pool
  pub requests : a.shared.tel.requests ≡ s.shared.tel.requests + length want
  pub total :
      a.shared.tel.hits + a.shared.tel.misses
      ≡ s.shared.tel.hits + s.shared.tel.misses + length want

module _ (bank : Bank) (want : List ℕ) (s : State) where
  -- The misses are experts of the request that are not resident.
  misses_facts :
      (r : State) (misses : List ℕ)
      → Requested want s r misses
      → (j : ℕ) → has ℕ_discrete j (fromkeys ℕ_discrete misses) ≡ true
      → (has ℕ_discrete j want ≡ true)
        × (has ℕ_discrete j (fromkeys ℕ_discrete want) ≡ true)
        × (lookup ℕ_discrete j r.pool.slot_of ≡ none)
  misses_facts r misses q j h =
      let m = q.missing j in
      let n = has-fromkeys ℕ_discrete j misses in
      let w = has-fromkeys ℕ_discrete j want in
      let l : lookup ℕ_discrete j s.pool.slot_of ≡ none = ground arith in
      (ground arith, ground arith, ap (lookup ℕ_discrete j) q.same.slot_of ∙ l)

  arrive :
      (r c a : State) (misses : List ℕ)
      → Requested want s r misses
      → c ≡ count_request bank want misses r
      → AllAdmitted bank (fromkeys ℕ_discrete want) (fromkeys ℕ_discrete misses) c a
      → Arrived bank want s a
  arrive r c a misses q e ad =
      let (cp, cc, ch, cm, cr) = count_request-same bank want misses r in
      let pool : c.pool ≡ r.pool = ap (λ (x : State). x.pool) e ∙ cp in
      let same = SameSlots-pool (fromkeys ℕ_discrete want) s.pool r.pool c.pool q.same pool in
      record {
        sound = ad.sound;
        keeps = Keeps-trans (fromkeys ℕ_discrete want) s.pool c.pool a.pool same ad.keeps;
        present = λ j h. elim (Option-cases (lookup ℕ_discrete j s.pool.slot_of)) [
          | inr (t, l) ↦
              let k =
                ad.keeps.kept j t (has-fromkeys ℕ_discrete j want ∙ h)
                  (same.kept j t (has-fromkeys ℕ_discrete j want ∙ h) l) in
              ap is_some k
          | inl n ↦ ad.present j (has-fromkeys ℕ_discrete j misses ∙ ground (arith, q.missing j))
        ];
        same_room = ad.same_room ∙ ap usable pool ∙ SameSlots-usable s.pool r.pool q.same;
        requests =
            omega (arith, ad.totals, ap (λ (x : State). x.shared.tel.requests) e, cr, q.requests);
        total = omega (
          arith,
          ad.totals,
          ap (λ (x : State). x.shared.tel.hits) e,
          ap (λ (x : State). x.shared.tel.misses) e,
          ch,
          cm,
          q.total,
        );
      }

  pub enter :
      IsSound bank s
      → All (λ e. IsReadable bank s.pool.block e) want
      → length (fromkeys ℕ_discrete want) ≤ usable s.pool
      → (r a : State) × (misses evs : List ℕ) × (request want s ≡ ok (r, misses))
        × (admit_all bank
              (fromkeys ℕ_discrete want)
              (fromkeys ℕ_discrete misses)
              (count_request bank want misses r)
            ≡ ok (a, evs))
        × Arrived bank want s a
  enter sound readable enough =
      let (r, misses, requested, q) = request-Requested want s sound.valid in
      let c = count_request bank want misses r in
      let (cp, cc, ch, cm, cr) = count_request-same bank want misses r in
      let facts = misses_facts r misses q in
      let same = SameSlots-pool (fromkeys ℕ_discrete want) s.pool r.pool c.pool q.same cp in
      let es = fromkeys ℕ_discrete misses in
      let (a, evs, admitted, ad) =
        admit_all-AllAdmitted bank (fromkeys ℕ_discrete want) es c
          (subst₂
            (λ p cs. IsSound bank (record { pool = p; shared = record c.shared { commands = cs } }))
            (sym cp) (sym cc) (IsSound-same bank s _ sound q.valid q.same q.bytes))
          (has-All ℕ_discrete (λ e. IsReadable bank c.pool.block e) es
            λ j h.
              subst (λ b. IsReadable bank b j) (sym same.same_block)
                (All-has ℕ_discrete (λ e. IsReadable bank s.pool.block e) want readable j
                  (facts j h).0))
          (has-All ℕ_discrete (λ e. has ℕ_discrete e (fromkeys ℕ_discrete want) ≡ true) es
            λ j h. (facts j h).1)
          (has-All ℕ_discrete (λ e. lookup ℕ_discrete e c.pool.slot_of ≡ none) es
            λ j h.
              subst (λ (p : Pool). lookup ℕ_discrete j p.slot_of ≡ none) (sym cp) (facts j h).2)
          (Distinct-fromkeys ℕ_discrete misses)
          (omega (arith, ap usable cp, SameSlots-usable s.pool r.pool q.same)) in
      (r, a, misses, evs, requested, admitted, arrive r c a misses q refl ad)
