-- ===== src/Residency/Loaded.antt =====
-- What `load` of sabah/runtime/residency.py leaves in VRAM.
use sabah_mo_e_accelerator.Base.{
  ℕ, ◌+◌, ◌≤◌, ◌≡◌, ◌≢◌, refl, sym, subst, ap, ◌∙◌, ◌⊎◌, inl, inr, true, false, List, [], ◌∷◌, some,
  length, slice, length-slice, nth, has, Distinct, lookup, lookup-insert, All, leb, if◌then◌else◌,
  ok, ◌>>=◌, Bool-cases, has-append, has-last, arith,
}
use sabah_mo_e_accelerator.Residency.{Fixed, tensors, fill, plan}
use sabah_mo_e_accelerator.Residency.Budget.{plan-Settled}
use sabah_mo_e_accelerator.Residency.Load.{
  Resident, empty, Allocation, granted, out_of_memory, failed, stage, staged, is_wanted, left,
  copied, bring, load_loop, load,
}

abbrev pub names_of : {K : Type 0} → List (Fixed K) → List K
names_of [] = []
names_of (t ∷ ts) = t.name ∷ names_of ts

-- A tensor lies in its shard.
abbrev pub Stored : {K : Type 0} → List (List ℕ) → Fixed K → Type 0
Stored shards t = (f : List ℕ) × (nth shards t.shard ≡ some f) × (t.offset + t.bytes ≤ length f)

-- The bytes of a stored tensor, and that they are staged whole.
staged-Stored :
    {K : Type 0} (shards : List (List ℕ)) (t : Fixed K) (f : List ℕ)
    → nth shards t.shard ≡ some f
    → t.offset + t.bytes ≤ length f
    → stage shards t ≡ ok (slice t.offset t.bytes f)
unfolding stage staged
staged-Stored shards t f e h = rw e (ground (arith, length-slice t.offset t.bytes f h))

module _ {K : Type 0} (dec : Discrete K) where
  -- The bytes of the tensors whose names are kept.
  abbrev kept : List K → List (Fixed K) → ℕ
  kept names [] = 0
  kept names (t ∷ ts) = (if has dec t.name names then t.bytes else 0) + kept names ts

  kept-cons :
      (name : K) (names : List K) (ts : List (Fixed K))
      → has dec name (names_of ts) ≡ false
      → kept (name ∷ names) ts ≡ kept names ts
  unfolding has
  kept-cons name names [] h = refl
  kept-cons name names (t ∷ ts) h = ground (arith, kept-cons name names ts)

  -- Names are kept only of the tensors, and account for the bytes that are taken.
  abbrev Accounts : ℕ → List (Fixed K) → List K × ℕ → Type 0
  Accounts taken ts p =
      ((n : K) → has dec n (names_of ts) ≡ false → has dec n p.0 ≡ false)
      × (taken + kept p.0 ts ≡ p.1)

  Accounts-pinned :
      (taken : ℕ) (t : Fixed K) (ts : List (Fixed K)) (p : List K × ℕ)
      → has dec t.name (names_of ts) ≡ false
      → Accounts (taken + t.bytes) ts p
      → Accounts taken (t ∷ ts) (t.name ∷ p.0, p.1)
  unfolding has
  Accounts-pinned taken t ts p fresh (inside, sum) =
      (λ n h. let i = inside n in ground arith, ground (arith, kept-cons t.name p.0 ts))

  Accounts-left :
      (taken : ℕ) (t : Fixed K) (ts : List (Fixed K)) (p : List K × ℕ)
      → has dec t.name (names_of ts) ≡ false
      → Accounts taken ts p
      → Accounts taken (t ∷ ts) p
  unfolding has
  Accounts-left taken t ts p fresh (inside, sum) =
      let i = inside t.name fresh in (λ n h. inside n (ground arith), ground arith)

  fill-Accounts :
      (budget taken : ℕ) (ts : List (Fixed K))
      → Distinct dec (names_of ts)
      → Accounts taken ts (fill budget taken ts)
  unfolding fill has
  fill-Accounts budget taken [] d = ((λ n h. refl), omega arith)
  fill-Accounts budget taken (t ∷ ts) d = elim (Bool-cases (leb (taken + t.bytes) budget)) [
    | inl fits ↦
        let r = fill budget (taken + t.bytes) ts in
        let e : fill budget taken (t ∷ ts) ≡ (t.name ∷ r.0, r.1) = rw (fits, fill) refl in
        subst (Accounts taken (t ∷ ts)) (sym e)
          (Accounts-pinned taken t ts r d.0 (fill-Accounts budget (taken + t.bytes) ts d.1))
    | inr large ↦
        let e : fill budget taken (t ∷ ts) ≡ fill budget taken ts = rw (large, fill) refl in
        subst (Accounts taken (t ∷ ts)) (sym e)
          (Accounts-left taken t ts (fill budget taken ts) d.0 (fill-Accounts budget taken ts d.1))
  ]

  module _ (shards : List (List ℕ)) where
    -- A tensor has its own bytes in VRAM, or is reported as missing.
    abbrev pub Settles : Resident K → Fixed K → Type 0
    Settles r t =
        ((f : List ℕ) × (nth shards t.shard ≡ some f)
          × (lookup dec t.name r.held ≡ some (slice t.offset t.bytes f)))
        ⊎ (has dec t.name r.missing ≡ true)

    -- What goes on from one state to another, for the names that are not touched.
    record Goes (untouched : K → Type 0) (more : ℕ) (r r' : Resident K) : Type 0 where
      pub others : (n : K) → untouched n → lookup dec n r'.held ≡ lookup dec n r.held
      pub reported : (n : K) → has dec n r.missing ≡ true → has dec n r'.missing ≡ true
      pub bytes : r'.resident_bytes ≤ r.resident_bytes + more

    module _ (allocate : Resident K → Fixed K → Allocation)
        (no_failure : (r : Resident K) (t : Fixed K) → allocate r t ≢ failed) where
      Stepped : Resident K → Fixed K → ℕ → Resident K → Type 0
      Stepped r t more r' = Settles r' t × Goes (λ n. t.name ≢ n) more r r'

      left-Stepped : (r : Resident K) (t : Fixed K) (more : ℕ) → Stepped r t more (left dec r t)
      unfolding Stepped
      left-Stepped r t more = (
        inr (has-last dec t.name r.missing),
        record {
          others = λ n h. refl;
          reported = λ n h. has-append dec n r.missing (t.name ∷ []) h;
          bytes = omega arith;
        },
      )

      bring-Stepped :
          (r : Resident K) (t : Fixed K)
          → Stored shards t
          → (r' : Resident K) × (bring dec allocate shards r t ≡ ok r') × Stepped r t t.bytes r'
      unfolding bring Stepped copied
      bring-Stepped r t (f, there, inside) =
          let whole = staged-Stored shards t f there inside in decide (allocate r t) refl
        where
          decide :
              (a : Allocation)
              → allocate r t ≡ a
              → (r' : Resident K) × (bring dec allocate shards r t ≡ ok r') × Stepped r t t.bytes r'
          decide granted e = (
            copied dec r t (slice t.offset t.bytes f),
            rw (staged-Stored shards t f there inside, e) refl,
            (
              inl (
                f,
                there,
                ground (arith, lookup-insert dec t.name t.name (slice t.offset t.bytes f) r.held),
              ),
              record {
                others = λ n h.
                    ground (arith, lookup-insert dec t.name n (slice t.offset t.bytes f) r.held);
                reported = λ n h. h;
                bytes = omega arith;
              },
            ),
          )
          decide out_of_memory e = (
            left dec r t,
            rw (staged-Stored shards t f there inside, e) refl,
            left-Stepped r t t.bytes,
          )
          decide failed e = absurd (no_failure r t e)

      step-Stepped :
          (names : List K) (r : Resident K) (t : Fixed K)
          → Stored shards t
          → (r' : Resident K) × ((if is_wanted dec (some names) t.name
                then bring dec allocate shards r t
                else ok (left dec r t))
              ≡ ok r')
            × Stepped r t (if has dec t.name names then t.bytes else 0) r'
      unfolding is_wanted
      step-Stepped names r t stored = elim (Bool-cases (has dec t.name names)) [
        | inl wanted ↦ rw wanted (bring-Stepped r t stored)
        | inr not_wanted ↦ rw not_wanted (left dec r t, refl, left-Stepped r t 0)
      ]

      abbrev Looped : List K → List (Fixed K) → Resident K → Resident K → Type 0
      Looped names ts r r' =
          All (Settles r') ts × Goes (λ n. has dec n (names_of ts) ≡ false) (kept names ts) r r'

      Looped-step :
          (names : List K) (t : Fixed K) (ts : List (Fixed K)) (r r' r'' : Resident K)
          → has dec t.name (names_of ts) ≡ false
          → Stepped r t (if has dec t.name names then t.bytes else 0) r'
          → Looped names ts r' r''
          → Looped names (t ∷ ts) r r''
      unfolding Stepped has
      Looped-step names t ts r r' r'' fresh (settled, first) (others_settled, rest) = (
        (still settled, others_settled),
        record {
          others = λ n h. rest.others n (ground arith) ∙ first.others n (ground arith);
          reported = λ n h. rest.reported n (first.reported n h);
          bytes = omega (arith, first.bytes, rest.bytes);
        },
      )
        where
          still : Settles r' t → Settles r'' t
          still (inl (f, there, held)) = inl (f, there, rest.others t.name fresh ∙ held)
          still (inr missing) = inr (rest.reported t.name missing)

      load_loop-Looped :
          (names : List K) (ts : List (Fixed K)) (r : Resident K)
          → Distinct dec (names_of ts)
          → All (Stored shards) ts
          → (r' : Resident K) × (load_loop dec allocate shards (some names) ts r ≡ ok r')
            × Looped names ts r r'
      unfolding load_loop
      load_loop-Looped names [] r d stored =
          (r, refl, (tt, record { others = λ n h. refl; reported = λ n h. h; bytes = omega arith }))
      load_loop-Looped names (t ∷ ts) r d stored =
          let (r', e, stepped) = step-Stepped names r t stored.0 in
          let (r'', e', looped) = load_loop-Looped names ts r' d.1 stored.1 in
          (
            r'',
            ap (λ m. m >>= load_loop dec allocate shards (some names) ts) e ∙ e',
            Looped-step names t ts r r' r'' d.0 stepped looped,
          )

      -- Let the tensors have different names and lie in their shards, and let no allocation on the
      -- device fail otherwise than for want of memory. Then `load` with a budget, into an empty
      -- device, returns; each tensor has in VRAM exactly the bytes of its range in its shard, or is
      -- reported as missing; and the resident bytes are no more than what `plan` pins, and than the
      -- budget.
      pub load-Loaded :
          (budget : ℕ) (ts : List (Fixed K))
          → Distinct dec (names_of (tensors ts))
          → All (Stored shards) (tensors ts)
          → (r : Resident K) × (load dec allocate shards (some budget) ts empty ≡ ok r)
            × All (Settles r) (tensors ts)
            × (r.resident_bytes ≤ (plan (some budget) ts).1)
            × (r.resident_bytes ≤ budget)
      unfolding load plan
      load-Loaded budget ts d stored =
          let (r, loaded, looped) =
            load_loop-Looped (plan (some budget) ts).0 (tensors ts) empty d stored in
          let (inside, sum) = fill-Accounts budget 0 (tensors ts) d in
          let few = (plan-Settled dec budget ts).0 in
          (r, loaded, looped.0, omega (arith, looped.1.bytes), omega (arith, looped.1.bytes))
