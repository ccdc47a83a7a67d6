-- ===== src/Executor/Frequency.antt =====
-- `FrequencyPredictor` of sabah/runtime/mtp_prefetch.py. A weight of a `Counter` is a Python number, so
-- adding one, the decay and the order of the weights are parameters; a `Counter` is its entries in
-- insertion order, and `most_common` is a stable sort.
use sabah_mo_e_accelerator.Base.{
  ℕ, zero, suc, ◌≤◌, ◌≡◌, refl, sym, subst, ap, Bool, true, false, List, [], ◌∷◌, Option, none,
  some, length, take, length-take-le, if◌then◌else◌, lookup, insert, lookup-insert, ℕ_discrete, All,
  ite,
}
use sabah_mo_e_accelerator.Executor.{Predictor}

abbrev pub counter_of : {C : Type 0} → Option (List (ℕ × C)) → List (ℕ × C)
counter_of none = []
counter_of (some c) = c

abbrev pub value_or : {C : Type 0} → C → Option C → C
value_or z none = z
value_or z (some n) = n

module _ {C : Type 0} (nothing : C) (add_one fade : C → C) (less : C → C → Bool) where
  -- `c[k] *= (1.0 - self.decay)` for every key
  abbrev pub faded : List (ℕ × C) → List (ℕ × C)
  faded [] = []
  faded (q ∷ c) = (q.0, fade q.1) ∷ faded c

  -- `c[int(e)] += 1`
  unfoldable pub count_one : ℕ → List (ℕ × C) → List (ℕ × C)
  unfolding insert
  count_one e c = insert ℕ_discrete e (add_one (value_or nothing (lookup ℕ_discrete e c))) c

  unfoldable pub count_all : List ℕ → List (ℕ × C) → List (ℕ × C)
  unfolding count_one
  count_all [] c = c
  count_all (e ∷ es) c = count_all es (count_one e c)

  -- `most_common` without its limit
  unfoldable pub put_ranked : ℕ × C → List (ℕ × C) → List (ℕ × C)
  put_ranked q [] = q ∷ []
  put_ranked q (r ∷ c) = let rest = put_ranked q c in if less q.1 r.1 then r ∷ rest else q ∷ r ∷ c

  unfoldable pub ranked : List (ℕ × C) → List (ℕ × C)
  unfolding put_ranked
  ranked [] = []
  ranked (q ∷ c) = put_ranked q (ranked c)

  abbrev pub experts_of : List (ℕ × C) → List ℕ
  experts_of [] = []
  experts_of (q ∷ c) = q.0 ∷ experts_of c

  -- `observe`
  unfoldable pub observe_routed :
      Bool → ℕ → List ℕ → List (ℕ × List (ℕ × C)) → List (ℕ × List (ℕ × C))
  unfolding count_all insert
  observe_routed decays b ids l =
      let c = counter_of (lookup ℕ_discrete b l) in
      insert ℕ_discrete b (count_all ids (if decays then faded c else c)) l

  -- `candidates`
  unfoldable pub most_common : ℕ → List (ℕ × C) → List ℕ
  unfolding ranked take
  most_common k c = experts_of (take k (ranked c))

  unfoldable pub frequent : ℕ → ℕ → List (ℕ × List (ℕ × C)) → List ℕ
  unfolding most_common
  frequent top_k b l = most_common top_k (counter_of (lookup ℕ_discrete b l))

  abbrev pub frequency_predictor : ℕ → Bool → Predictor
  unfolding observe_routed frequent
  frequency_predictor top_k decays = record {
    Learnt = List (ℕ × List (ℕ × C));
    observe = observe_routed decays;
    candidates = frequent top_k;
  }

  -- What a predictor has learnt from the calls of `observe`, in their order.
  unfoldable pub learnt_from :
      Bool → List (ℕ × List ℕ) → List (ℕ × List (ℕ × C)) → List (ℕ × List (ℕ × C))
  unfolding observe_routed
  learnt_from decays [] l = l
  learnt_from decays (o ∷ os) l = learnt_from decays os (observe_routed decays o.0 o.1 l)

  module _ (P : ℕ → Type 0) where
    abbrev Keys : List (ℕ × C) → Type 0
    Keys c = All (λ q. P q.0) c

    ite-Keys : {Q : Type 0} (d : Dec Q) (x y : List (ℕ × C)) → Keys x → Keys y → Keys (ite d x y)
    ite-Keys (yes q) x y h k = h
    ite-Keys (no n) x y h k = k

    if-Keys : (t : Bool) (x y : List (ℕ × C)) → Keys x → Keys y → Keys (if t then x else y)
    if-Keys true x y h k = h
    if-Keys false x y h k = k

    faded-Keys : (c : List (ℕ × C)) → Keys c → Keys (faded c)
    faded-Keys [] h = tt
    faded-Keys (q ∷ c) h = (h.0, faded-Keys c h.1)

    insert-Keys : (e : ℕ) (v : C) (c : List (ℕ × C)) → P e → Keys c → Keys (insert ℕ_discrete e v c)
    unfolding insert
    insert-Keys e v [] p h = (p, tt)
    insert-Keys e v (q ∷ c) p h =
        ite-Keys (ℕ_discrete e q.0) ((q.0, v) ∷ c) (q ∷ insert ℕ_discrete e v c) h
          (h.0, insert-Keys e v c p h.1)

    count_all-Keys : (es : List ℕ) (c : List (ℕ × C)) → All P es → Keys c → Keys (count_all es c)
    unfolding count_all count_one
    count_all-Keys [] c p h = h
    count_all-Keys (e ∷ es) c p h = count_all-Keys es (count_one e c) p.1 (insert-Keys e _ c p.0 h)

    put_ranked-Keys : (q : ℕ × C) (c : List (ℕ × C)) → P q.0 → Keys c → Keys (put_ranked q c)
    unfolding put_ranked
    put_ranked-Keys q [] p h = (p, tt)
    put_ranked-Keys q (r ∷ c) p h =
        if-Keys (less q.1 r.1) (r ∷ put_ranked q c) (q ∷ r ∷ c) (h.0, put_ranked-Keys q c p h.1)
          (p, h)

    ranked-Keys : (c : List (ℕ × C)) → Keys c → Keys (ranked c)
    unfolding ranked
    ranked-Keys [] h = tt
    ranked-Keys (q ∷ c) h = put_ranked-Keys q (ranked c) h.0 (ranked-Keys c h.1)

    take-Keys : (k : ℕ) (c : List (ℕ × C)) → Keys c → All P (experts_of (take k c))
    unfolding take
    take-Keys zero c h = tt
    take-Keys (suc k) [] h = tt
    take-Keys (suc k) (q ∷ c) h = (h.0, take-Keys k c h.1)

  length-experts_of : (c : List (ℕ × C)) → length (experts_of c) ≡ length c
  length-experts_of [] = refl
  length-experts_of (q ∷ c) = ap suc (length-experts_of c)

  module _ (P : ℕ → ℕ → Type 0) where
    abbrev Seen : List (ℕ × List (ℕ × C)) → Type 0
    Seen l = (b : ℕ) → Keys (P b) (counter_of (lookup ℕ_discrete b l))

    counter_of-Keys :
        (b j : ℕ) (d : Dec (b ≡ j)) (c : List (ℕ × C)) (o : Option (List (ℕ × C)))
        → Keys (P b) c
        → Keys (P j) (counter_of o)
        → Keys (P j) (counter_of (ite d (some c) o))
    counter_of-Keys b j (yes e) c o h k = subst (λ n. Keys (P n) c) e h
    counter_of-Keys b j (no n) c o h k = k

    observe_routed-Seen :
        (decays : Bool) (b : ℕ) (ids : List ℕ) (l : List (ℕ × List (ℕ × C)))
        → All (P b) ids
        → Seen l
        → Seen (observe_routed decays b ids l)
    unfolding observe_routed
    observe_routed-Seen decays b ids l p s j =
        let c = counter_of (lookup ℕ_discrete b l) in
        let c' = count_all ids (if decays then faded c else c) in
        subst (λ o. Keys (P j) (counter_of o)) (sym (lookup-insert ℕ_discrete b j c' l))
          (counter_of-Keys b j (ℕ_discrete b j) c' (lookup ℕ_discrete j l)
            (count_all-Keys (P b) ids (if decays then faded c else c) p
              (if-Keys (P b) decays (faded c) c (faded-Keys (P b) c (s b)) (s b)))
            (s j))

    learnt_from-Seen :
        (decays : Bool) (os : List (ℕ × List ℕ)) (l : List (ℕ × List (ℕ × C)))
        → All (λ o. All (P o.0) o.1) os
        → Seen l
        → Seen (learnt_from decays os l)
    unfolding learnt_from
    learnt_from-Seen decays [] l p s = s
    learnt_from-Seen decays (o ∷ os) l p s =
        learnt_from-Seen decays os (observe_routed decays o.0 o.1 l) p.1
          (observe_routed-Seen decays o.0 o.1 l p.0 s)

    -- Whatever holds of the experts that were routed in each block holds of the experts that the
    -- predictor names for a block after it has observed them, and it names at most `top_k`.
    pub frequent-routed :
        (top_k : ℕ) (decays : Bool) (os : List (ℕ × List ℕ)) (b : ℕ)
        → All (λ o. All (P o.0) o.1) os
        → All (P b) (frequent top_k b (learnt_from decays os []))
          × (length (frequent top_k b (learnt_from decays os [])) ≤ top_k)
    unfolding frequent most_common lookup
    frequent-routed top_k decays os b p =
        let c = ranked (counter_of (lookup ℕ_discrete b (learnt_from decays os []))) in
        (
          take-Keys (P b) top_k c (
              ranked-Keys (P b) (counter_of (lookup ℕ_discrete b (learnt_from decays os [])))
                (learnt_from-Seen decays os [] p (λ j. tt) b)),
          subst (λ n. n ≤ top_k) (sym (length-experts_of (take top_k c))) (length-take-le top_k c),
        )
