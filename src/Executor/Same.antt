-- ===== src/Executor/Same.antt =====
-- Prefetch changes no output.
use sabah_mo_e_accelerator.Base.{
  ℕ, ◌+◌, ◌≤◌, ◌<◌, ◌≡◌, refl, sym, ap, subst₂, ◌∙◌, inl, inr, Bool, true, false, List, [], ◌∷◌,
  length, ltb, ◌==◌, lookup, is_some, fromkeys, ℕ_discrete, Bool-cases, ok, All, arith,
}
use sabah_mo_e_accelerator.Tier.Types.{Role, Bank, Shared}
use sabah_mo_e_accelerator.Tier.Streams.{issue, mark_submitted}
use sabah_mo_e_accelerator.Tier.Streams.Memory.{IsReadable, holds}
use sabah_mo_e_accelerator.Tier.Build.{HotTier}
use sabah_mo_e_accelerator.Tier.Blocks.Sound.{
  IsTier, Kept, share-IsTier, tier_ensure-Kept, tier_prefetch-Kept,
}
use sabah_mo_e_accelerator.Executor.{
  Contents, slot_contents, Predictor, Prefetcher, Executor, Step, submitted, warm_with, warm,
  upload_x, run_block, run_steps, run_model, run_warmed, run_blocks_with_prefetch,
}
use sabah_mo_e_accelerator.Executor.Slots.{bank_contents, slot-contents}

submitted-holds :
    (b : ℕ) (s : Shared) (other slot : ℕ) (r : Role)
    → holds (submitted b s).commands other slot r ≡ holds s.commands other slot r
unfolding submitted mark_submitted issue holds
submitted-holds b s other slot r = refl

-- The tier has the block of the step, and the bank can read its experts; they fit, and there is a
-- weight for each.
pub record IsRunnable {F : Type 0} (bank : Bank) (live max_used : ℕ) (t : HotTier) (st : Step F)
    : Type 0 where
  pub there : is_some (lookup ℕ_discrete st.block t.pools) ≡ true
  pub readable : All (λ e. IsReadable bank st.block e) st.ids
  pub few : length (fromkeys ℕ_discrete st.ids) ≤ live
  pub weighted : length st.ids ≡ length st.weights
  pub short : length st.ids ≤ max_used

still-IsRunnable :
    {F : Type 0} (bank : Bank) (live max_used : ℕ) (t t' : HotTier) (sts : List (Step F))
    → Kept bank live t t'
    → All (IsRunnable bank live max_used t) sts
    → All (IsRunnable bank live max_used t') sts
still-IsRunnable bank live max_used t t' [] k h = tt
still-IsRunnable bank live max_used t t' (st ∷ sts) k h = (
  record {
    there = k.blocks st.block h.0.there;
    readable = h.0.readable;
    few = h.0.few;
    weighted = h.0.weighted;
    short = h.0.short;
  },
  still-IsRunnable bank live max_used t t' sts k h.1,
)

-- The output that the steps stand for: the kernel on the bytes of the bank, and no tier.
abbrev pub expected :
    {F : Type 0}
    → (ℕ → List F → List F → List Contents → List F → Bool → List F)
    → Bank
    → List F
    → List (Step F)
    → List F
    → List F
expected kernel bank x [] out = out
expected kernel bank x (st ∷ sts) out =
    expected kernel bank x sts
      (kernel st.block x out (bank_contents bank st.block st.ids) st.weights false)

module _ {F : Type 0} (kernel : ℕ → List F → List F → List Contents → List F → Bool → List F)
    (bank : Bank) (d_model max_used live : ℕ) (positive : 0 < live) where
  -- What a block leaves.
  record Ran (st : Step F) (ex ex' : Executor F) : Type 0 where
    pub kept : Kept bank live ex.tier ex'.tier
    pub same_x : ex'.d_x ≡ ex.d_x
    pub output :
        ex'.d_out
        ≡ kernel st.block ex.d_x ex.d_out (bank_contents bank st.block st.ids) st.weights false

  run_block-Ran :
      (st : Step F) (ex : Executor F)
      → IsTier bank live ex.tier
      → IsRunnable bank live max_used ex.tier st
      → (ex' : Executor F) × (run_block kernel bank d_model max_used st false ex ≡ ok ex')
        × Ran st ex ex'
  unfolding run_block
  run_block-Ran st ex tier runnable =
      let (t, s, slots, served, kept, shared, block, delivered) =
        tier_ensure-Kept bank live st.block ex.tier tier runnable.there st.ids runnable.readable
          runnable.few positive in
      let weighted : (length st.ids == length st.weights) ≡ true =
        (let w = runnable.weighted in ground arith) in
      let short : ltb max_used (length st.ids) ≡ false = (let w = runnable.short in ground arith) in
      let same : slot_contents t.shared.commands st.block slots
          ≡ bank_contents bank st.block st.ids =
        subst₂ (λ (sh : Shared) n. slot_contents sh.commands n slots ≡ bank_contents bank n st.ids)
          (sym shared) block (slot-contents bank s st.ids slots delivered) in
      (
        record {
          tier = record t { shared = submitted st.block t.shared };
          d_x = ex.d_x;
          d_out =
              kernel st.block ex.d_x ex.d_out (slot_contents t.shared.commands st.block slots)
                st.weights false;
        },
        rw (weighted, short, served) refl,
        record {
          kept = record {
            tier =
                share-IsTier bank live t (submitted st.block t.shared)
                  (submitted-holds st.block t.shared) kept.tier;
            blocks = kept.blocks;
          };
          same_x = refl;
          output = ap (λ c. kernel st.block ex.d_x ex.d_out c st.weights false) same;
        },
      )

  run_steps-expected :
      (sts : List (Step F)) (ex : Executor F)
      → IsTier bank live ex.tier
      → All (IsRunnable bank live max_used ex.tier) sts
      → (ex' : Executor F) × (run_steps kernel bank d_model max_used sts ex ≡ ok ex')
        × (ex'.d_out ≡ expected kernel bank ex.d_x sts ex.d_out)
  unfolding run_steps
  run_steps-expected [] ex tier runnable = (ex, refl, refl)
  run_steps-expected (st ∷ sts) ex tier runnable =
      let (e, ran, r) = run_block-Ran st ex tier runnable.0 in
      let (f, rest, out) =
        run_steps-expected sts e r.kept.tier
          (still-IsRunnable bank live max_used ex.tier e.tier sts r.kept runnable.1) in
      (
        f,
        rw (ran, rest) refl,
        out
            ∙ subst₂
                (λ x o.
                  expected kernel bank x sts o ≡ expected kernel bank ex.d_x (st ∷ sts) ex.d_out)
                (sym r.same_x) (sym r.output) refl,
      )

  warm_with-Kept :
      {P : Predictor} (b : ℕ) (es : List ℕ) (p : Prefetcher P) (t : HotTier)
      → IsTier bank live t
      → is_some (lookup ℕ_discrete b t.pools) ≡ true
      → All (λ e. IsReadable bank b e) es
      → (p' : Prefetcher P) × (t' : HotTier) × (warm_with bank b es p t ≡ ok (p', t'))
        × Kept bank live t t'
  unfolding warm_with
  warm_with-Kept b [] p t tier there readable =
      (_, t, refl, record { tier = tier; blocks = λ j h. h })
  warm_with-Kept b (e ∷ es) p t tier there readable =
      let (t', n, advised, k) = tier_prefetch-Kept bank live b t tier there (e ∷ es) readable in
      (record p { calls = p.calls + 1; issued = p.issued + n }, t', rw advised refl, k)

  warm-Kept :
      {P : Predictor} (b : ℕ) (p : Prefetcher P) (t : HotTier)
      → IsTier bank live t
      → is_some (lookup ℕ_discrete b t.pools) ≡ true
      → ((l : P.Learnt) → All (λ e. IsReadable bank b e) (P.candidates b l))
      → (p' : Prefetcher P) × (t' : HotTier) × (warm bank b p t ≡ ok (p', t')) × Kept bank live t t'
  unfolding warm
  warm-Kept {P = P} b p t tier there readable = elim (Bool-cases p.enabled) [
    | inl on ↦
        let (p', t', warmed, k) =
          warm_with-Kept b (P.candidates b p.learnt) p t tier there (readable p.learnt) in
        (
          p',
          t',
          (let e : warm bank b p t ≡ warm_with bank b (P.candidates b p.learnt) p t =
                ground arith in
              e ∙ warmed),
          k,
        )
    | inr off ↦ (p, t, ground arith, record { tier = tier; blocks = λ j h. h })
  ]

  run_warmed-expected :
      {P : Predictor} (sts : List (Step F)) (p : Prefetcher P) (ex : Executor F)
      → ((b : ℕ) (l : P.Learnt) → All (λ e. IsReadable bank b e) (P.candidates b l))
      → IsTier bank live ex.tier
      → All (IsRunnable bank live max_used ex.tier) sts
      → (p' : Prefetcher P) × (ex' : Executor F) × (run_warmed kernel bank d_model max_used sts p ex
          ≡ ok (p', ex'))
        × (ex'.d_out ≡ expected kernel bank ex.d_x sts ex.d_out)
  unfolding run_warmed
  run_warmed-expected [] p ex readable tier runnable = (p, ex, refl, refl)
  run_warmed-expected {P = P} (st ∷ sts) p ex readable tier runnable =
      let (e, ran, r) = run_block-Ran st ex tier runnable.0 in
      let q : Prefetcher P = record p { learnt = P.observe st.block st.ids p.learnt } in
      let (w, t, warmed, k) =
        warm-Kept st.block q e.tier r.kept.tier (r.kept.blocks st.block runnable.0.there)
          (readable st.block) in
      let (p', f, rest, out) =
        run_warmed-expected sts w (record e { tier = t }) readable k.tier
          (still-IsRunnable bank live max_used e.tier t sts k
            (still-IsRunnable bank live max_used ex.tier e.tier sts r.kept runnable.1)) in
      (
        p',
        f,
        rw (ran, warmed, rest) refl,
        out
            ∙ subst₂
                (λ x o.
                  expected kernel bank x sts o ≡ expected kernel bank ex.d_x (st ∷ sts) ex.d_out)
                (sym r.same_x) (sym r.output) refl,
      )

-- Let each block of the tier be sound for `live` experts, with `live` positive, let the input have
-- the size of the model, let the tier have the blocks of the plan, whose steps have at most `live`
-- distinct experts, within the capacity of the executor, with as many weights and all readable, and let
-- the predictor name only experts that the bank can read. Then the run without prefetch and the run
-- with it both return, with the same output, which is the kernel's on the bytes of the bank.
pub run_blocks_with_prefetch-run_model :
    {F : Type 0} {P : Predictor}
    (kernel : ℕ → List F → List F → List Contents → List F → Bool → List F) (bank : Bank)
    (d_model max_used live : ℕ) (x : List F) (sts : List (Step F)) (p : Prefetcher P)
    (ex : Executor F)
    → 0 < live
    → length x ≡ d_model
    → ((b : ℕ) (l : P.Learnt) → All (λ e. IsReadable bank b e) (P.candidates b l))
    → IsTier bank live ex.tier
    → All (IsRunnable bank live max_used ex.tier) sts
    → (e1 : Executor F) × (e2 : Executor F) × (run_model kernel bank d_model max_used x sts ex
        ≡ ok (e1, expected kernel bank x sts ex.d_out))
      × (run_blocks_with_prefetch kernel bank d_model max_used x sts p ex
          ≡ ok (e2, expected kernel bank x sts ex.d_out))
unfolding run_model run_blocks_with_prefetch upload_x
run_blocks_with_prefetch-run_model kernel bank d_model max_used live x sts p ex positive sized
      readable tier runnable =
    let fits : (length x == d_model) ≡ true = ground arith in
    let e = record ex { d_x = x } in
    let (e1, ran, out) =
      run_steps-expected kernel bank d_model max_used live positive sts e tier runnable in
    let (p', e2, warmed, out') =
      run_warmed-expected kernel bank d_model max_used live positive sts p e readable tier
        runnable in
    (e1, e2, rw (fits, ran, out) refl, rw (fits, warmed, out') refl)
