-- ===== src/Executor.antt =====
-- sabah/runtime/executor.py and sabah/runtime/mtp_prefetch.py: the blocks of a token on the device,
-- without and with prefetch behind them. `F` is a number, `kernel` the block kernel: from the block,
-- the input, the old output, the bytes in the slots, the weights and the flag to the new output. A
-- predictor is any implementation of `observe` and `candidates`.
pub mod Slots
pub mod Same
pub mod Frequency
use sabah_mo_e_accelerator.Base.{
  ℕ, ◌+◌, Bool, true, false, List, [], ◌∷◌, Option, none, some, map, length, take, ltb, ◌==◌,
  if◌then◌else◌, Result, ok, raise, Error, ◌>>=◌,
}
use sabah_mo_e_accelerator.Tier.Types.{Role, gate, up, down, Bank, Bytes, Command, Shared}
use sabah_mo_e_accelerator.Tier.Streams.{mark_submitted}
use sabah_mo_e_accelerator.Tier.Streams.Memory.{holds}
use sabah_mo_e_accelerator.Tier.Ensure.{count}
use sabah_mo_e_accelerator.Tier.Build.{HotTier}
use sabah_mo_e_accelerator.Tier.Blocks.{tier_ensure, tier_prefetch}

-- What the three pointers of an expert lead to.
abbrev pub Contents : Type 0
Contents = Option Bytes × Option Bytes × Option Bytes

unfoldable pub slot_contents : List Command → ℕ → List ℕ → List Contents
unfolding holds
slot_contents cs b [] = []
slot_contents cs b (s ∷ slots) =
    (holds cs b s gate, holds cs b s up, holds cs b s down) ∷ slot_contents cs b slots

-- The calls of `observe` and `candidates`; the state is what the predictor has learnt.
pub record Predictor : Type 1 where
  pub Learnt : Type 0
  pub observe : ℕ → List ℕ → Learnt → Learnt
  pub candidates : ℕ → Learnt → List ℕ

-- `NullPredictor` and `ExternalPredictor`; a limit of zero is no limit.
abbrev pub null_predictor : Predictor
null_predictor = record { Learnt = Unit; observe = λ b ids l. l; candidates = λ b l. [] }

unfoldable pub first_of : Option ℕ → List ℕ → List ℕ
unfolding take
first_of none out = out
first_of (some k) out = if k == 0 then out else take k out

abbrev pub external_predictor : (ℕ → List ℕ) → Option ℕ → Predictor
external_predictor fn top_k = record {
  Learnt = Unit;
  observe = λ b ids l. l;
  candidates = λ b l. first_of top_k (fn b);
}

-- `ExpertPrefetcher`, with what its predictor has learnt.
pub record Prefetcher (P : Predictor) : Type 0 where
  pub enabled : Bool
  pub calls : ℕ
  pub issued : ℕ
  pub learnt : P.Learnt

-- The state of `MoEExecutor`: its tier, and the input and the output on the device.
pub record Executor (F : Type 0) : Type 0 where
  pub tier : HotTier
  pub d_x : List F
  pub d_out : List F

-- An entry of `block_plan`.
pub record Step (F : Type 0) : Type 0 where
  pub block : ℕ
  pub ids : List ℕ
  pub weights : List F

abbrev pub submitted : ℕ → Shared → Shared
unfolding mark_submitted
submitted b s =
    count (λ t. record t { blocks_executed = t.blocks_executed + 1 }) (mark_submitted b s)

-- `warm`, which `warm_ahead` calls: no candidates need no call of the tier.
unfoldable pub warm_with :
    {P : Predictor} → Bank → ℕ → List ℕ → Prefetcher P → HotTier → Result (Prefetcher P × HotTier)
unfolding tier_prefetch
warm_with bank b [] p t = ok (record p { calls = p.calls + 1 }, t)
warm_with bank b (e ∷ es) p t = tier_prefetch bank b (e ∷ es) t >>= λ r.
    ok (record p { calls = p.calls + 1; issued = p.issued + r.1 }, r.0)

unfoldable pub warm :
    {P : Predictor} → Bank → ℕ → Prefetcher P → HotTier → Result (Prefetcher P × HotTier)
unfolding warm_with
warm {P = P} bank b p t =
    if p.enabled then warm_with bank b (P.candidates b p.learnt) p t else ok (p, t)

module _ {F : Type 0} (kernel : ℕ → List F → List F → List Contents → List F → Bool → List F)
    (bank : Bank) (d_model max_used : ℕ) where
  -- `upload_x`
  unfoldable pub upload_x : List F → Executor F → Result (Executor F)
  upload_x x ex =
      if length x == d_model then ok (record ex { d_x = x }) else raise Error.value_error

  -- `run_block`
  unfoldable pub run_block : Step F → Bool → Executor F → Result (Executor F)
  unfolding tier_ensure slot_contents submitted
  run_block st accumulate ex =
      if length st.ids == length st.weights
      then (if ltb max_used (length st.ids)
          then raise Error.value_error
          else (tier_ensure bank st.block st.ids ex.tier >>= λ r.
              let t = r.0 in
              let contents = slot_contents t.shared.commands st.block r.1 in
              ok (record {
                tier = record t { shared = submitted st.block t.shared };
                d_x = ex.d_x;
                d_out = kernel st.block ex.d_x ex.d_out contents st.weights accumulate;
              })))
      else raise Error.value_error

  unfoldable pub run_steps : List (Step F) → Executor F → Result (Executor F)
  unfolding run_block
  run_steps [] ex = ok ex
  run_steps (st ∷ sts) ex = run_block st false ex >>= λ ex'. run_steps sts ex'

  -- `run_model`: the executor, and the output that `download_out` copies.
  unfoldable pub run_model : List F → List (Step F) → Executor F → Result (Executor F × List F)
  unfolding upload_x run_steps
  run_model x sts ex = upload_x x ex >>= λ e. run_steps sts e >>= λ e'. ok (e', e'.d_out)

  -- The loop of `run_blocks_with_prefetch`.
  unfoldable pub run_warmed :
      {P : Predictor}
      → List (Step F)
      → Prefetcher P
      → Executor F
      → Result (Prefetcher P × Executor F)
  unfolding run_block warm
  run_warmed [] p ex = ok (p, ex)
  run_warmed {P = P} (st ∷ sts) p ex = run_block st false ex >>= λ e.
      warm bank st.block (record p { learnt = P.observe st.block st.ids p.learnt }) e.tier >>= λ w.
      run_warmed sts w.0 (record e { tier = w.1 })

  unfoldable pub run_blocks_with_prefetch :
      {P : Predictor}
      → List F
      → List (Step F)
      → Prefetcher P
      → Executor F
      → Result (Executor F × List F)
  unfolding upload_x run_warmed
  run_blocks_with_prefetch x sts p ex =
      upload_x x ex >>= λ e. run_warmed sts p e >>= λ r. ok (r.1, r.1.d_out)
