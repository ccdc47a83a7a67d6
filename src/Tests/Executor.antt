-- ===== src/Tests/Executor.antt =====
-- Two blocks of a token on a bank of sixteen experts, with and without prefetch, and what the routed
-- experts of four calls teach the frequency predictor.
use sabah_mo_e_accelerator.Base.{
  ℕ, ◌+◌, ◌/◌, ◌≤◌, length, ◌≡◌, refl, Bool, true, false, List, [], ◌∷◌, ◌++◌, none, some, ltb,
  if◌then◌else◌, ok, raise, Error, ◌>>=◌, ℕ_discrete, has, lookup, insert, fromkeys_from, All,
  arith,
}
use sabah_mo_e_accelerator.Tier.Types.{Bank}
use sabah_mo_e_accelerator.Tier.Streams.Memory.{IsReadable}
use sabah_mo_e_accelerator.Tier.Build.{HotTier, assemble, new_pools, new_pool, new_shared}
use sabah_mo_e_accelerator.Tier.Ensure.{State}
use sabah_mo_e_accelerator.Tier.Ensure.Exact.{Delivered}
use sabah_mo_e_accelerator.Tier.Blocks.{tier_ensure}
use sabah_mo_e_accelerator.Tier.Blocks.Sound.{Kept, tier_ensure-Kept}
use sabah_mo_e_accelerator.Tier.Blocks.Start.{assemble-IsTier}
use sabah_mo_e_accelerator.Executor.{
  Contents, Predictor, Prefetcher, Executor, Step, external_predictor, first_of, run_model,
  run_blocks_with_prefetch,
}
use sabah_mo_e_accelerator.Executor.Frequency.{learnt_from, frequent, frequent-routed}
use sabah_mo_e_accelerator.Executor.Same.{IsRunnable, expected, run_blocks_with_prefetch-run_model}

abbrev bank : Bank
bank = record {
  n_experts = 16;
  n_experts_used = 2;
  direct = false;
  pinned_block = λ b. false;
  expert_bytes = λ b r. 2;
  slice = λ b e r. if ltb e 16 then ok (e ∷ b ∷ []) else raise Error.index_error;
}

abbrev tier : HotTier
unfolding new_pools new_pool new_shared
tier = assemble bank (λ b. 1000) 2 (0 ∷ 1 ∷ []) 4

program : Unit {0}
unfolding run_model run_blocks_with_prefetch ℕ_discrete has lookup insert fromkeys_from assemble
    new_pools new_pool new_shared first_of
program = tt

abbrev read_all : List Contents → List ℕ
read_all [] = []
read_all ((some g, u, d) ∷ cs) = g ++ read_all cs
read_all ((none, u, d) ∷ cs) = read_all cs

abbrev kernel : ℕ → List ℕ → List ℕ → List Contents → List ℕ → Bool → List ℕ
kernel b x out cs w accumulate = x ++ read_all cs ++ (if accumulate then out else [])

abbrev guess : Predictor
guess = external_predictor (λ b. 7 ∷ []) none

abbrev prefetcher : Prefetcher guess
prefetcher = record { enabled = true; calls = 0; issued = 0; learnt = tt }

abbrev steps : List (Step ℕ)
steps =
    record { block = 0; ids = 3 ∷ 5 ∷ []; weights = 1 ∷ 1 ∷ [] }
    ∷ record { block = 1; ids = 7 ∷ 4 ∷ []; weights = 1 ∷ 1 ∷ [] }
    ∷ []

abbrev executor : Executor ℕ
executor = record { tier = tier; d_x = []; d_out = [] }

-- The output is that of the last block: each block reads the same input.
output :
    (run_model kernel bank 1 8 (9 ∷ []) steps executor >>= λ r. ok r.1)
    ≡ ok (9 ∷ 7 ∷ 1 ∷ 4 ∷ 1 ∷ [])
unfolding program
output = refl

readable : (b e : ℕ) → ltb e 16 ≡ true → IsReadable bank b e
readable b e h r = (e ∷ b ∷ [], rw h)

guess-IsReadable :
    (b : ℕ) (l : guess.Learnt) → All (λ e. IsReadable bank b e) (guess.candidates b l)
unfolding first_of
guess-IsReadable b l = (readable b 7 refl, tt)

steps-IsRunnable : All (IsRunnable bank 2 8 tier) steps
unfolding program
steps-IsRunnable = (
  record {
    there = refl;
    readable = (readable 0 3 refl, (readable 0 5 refl, tt));
    few = omega arith;
    weighted = refl;
    short = omega arith;
  },
  (
    record {
      there = refl;
      readable = (readable 1 7 refl, (readable 1 4 refl, tt));
      few = omega arith;
      weighted = refl;
      short = omega arith;
    },
    tt,
  ),
)

run_blocks_with_prefetch-run_model_example :
    (e1 : Executor ℕ) × (e2 : Executor ℕ) × (run_model kernel bank 1 8 (9 ∷ []) steps executor
      ≡ ok (e1, expected kernel bank (9 ∷ []) steps []))
    × (run_blocks_with_prefetch kernel bank 1 8 (9 ∷ []) steps prefetcher executor
        ≡ ok (e2, expected kernel bank (9 ∷ []) steps []))
unfolding tier assemble
run_blocks_with_prefetch-run_model_example =
    run_blocks_with_prefetch-run_model kernel bank 1 8 2 (9 ∷ []) steps prefetcher executor
      (omega arith) refl guess-IsReadable
      (assemble-IsTier bank (λ b. 1000) 2 (0 ∷ 1 ∷ []) 4 (omega arith)) steps-IsRunnable

tier_ensure-Kept_example :
    (t' : HotTier) × (s : State) × (slots : List ℕ) × (tier_ensure bank 0 (3 ∷ 5 ∷ []) tier
      ≡ ok (t', slots))
    × Kept bank 2 tier t'
    × (t'.shared ≡ s.shared)
    × (s.pool.block ≡ 0)
    × Delivered bank s (3 ∷ 5 ∷ []) slots
unfolding tier assemble new_pools ℕ_discrete has lookup insert fromkeys_from
tier_ensure-Kept_example =
    tier_ensure-Kept bank 2 0 tier (assemble-IsTier bank (λ b. 1000) 2 (0 ∷ 1 ∷ []) 4 (omega arith))
      refl (3 ∷ 5 ∷ []) (readable 0 3 refl, (readable 0 5 refl, tt)) (omega arith) (omega arith)

abbrev routed : List (ℕ × List ℕ)
routed = (0, 3 ∷ 4 ∷ []) ∷ (1, 9 ∷ []) ∷ (0, 5 ∷ 4 ∷ []) ∷ (0, 5 ∷ []) ∷ []

abbrev learnt_routed : List (ℕ × List (ℕ × ℕ))
unfolding learnt_from
learnt_routed = learnt_from 0 (λ n. n + 2) (λ n. n / 2) ltb true routed []

abbrev frequent_two : List ℕ
unfolding frequent learnt_routed
frequent_two = frequent 0 (λ n. n + 2) (λ n. n / 2) ltb 2 0 learnt_routed

-- Expert 5 was routed last, and expert 4 before it.
most_frequent : frequent_two ≡ 5 ∷ 4 ∷ []
unfolding frequent_two learnt_routed frequent learnt_from ℕ_discrete lookup insert
most_frequent = refl

frequent-routed_example :
    All (IsReadable bank 0) (
      frequent 0
        (λ n. n + 2)
        (λ n. n / 2)
        ltb
        2
        0
        (learnt_from 0 (λ n. n + 2) (λ n. n / 2) ltb true routed []))
    × (length (
          frequent 0
            (λ n. n + 2)
            (λ n. n / 2)
            ltb
            2
            0
            (learnt_from 0 (λ n. n + 2) (λ n. n / 2) ltb true routed []))
        ≤ 2)
frequent-routed_example =
    frequent-routed 0 (λ n. n + 2) (λ n. n / 2) ltb (λ b e. IsReadable bank b e) 2 true routed 0
      (
        (readable 0 3 refl, (readable 0 4 refl, tt)),
        (
          (readable 1 9 refl, tt),
          ((readable 0 5 refl, (readable 0 4 refl, tt)), ((readable 0 5 refl, tt), tt)),
        ),
      )
