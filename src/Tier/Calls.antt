-- ===== src/Tier/Calls.antt =====
-- Sequences of calls of `HotTier.ensure` and `HotTier.prefetch` of sabah/runtime/hot_tier.py on one
-- block, in any order: the lock makes each call one step.
pub mod Ready
pub mod Starved
pub mod Others
use sabah_mo_e_accelerator.Base.{
  ℕ, ◌≤◌, List, [], ◌∷◌, length, All, fromkeys, ℕ_discrete, Result, ok, ◌>>=◌,
}
use sabah_mo_e_accelerator.Tier.Types.{Bank}
use sabah_mo_e_accelerator.Tier.Streams.Memory.{IsReadable}
use sabah_mo_e_accelerator.Tier.Ensure.{State, ensure}
use sabah_mo_e_accelerator.Tier.Prefetch.{prefetch}

pub data Call : Type 0 where
  ensure_call prefetch_call : List ℕ → Call

unfoldable pub step : Bank → ℕ → Call → State → Result State
unfolding ensure prefetch
step bank prefetch_slots (ensure_call want) s = ensure bank prefetch_slots want s >>= λ r. ok r.0
step bank prefetch_slots (prefetch_call es) s = prefetch bank prefetch_slots es s >>= λ r. ok r.0

unfoldable pub run : Bank → ℕ → List Call → State → Result State
unfolding step
run bank prefetch_slots [] s = ok s
run bank prefetch_slots (c ∷ cs) s = step bank prefetch_slots c s >>= run bank prefetch_slots cs

-- The bank can read the experts of the call, and an `ensure` asks for at most `live` of them.
abbrev pub Allowed : Bank → ℕ → ℕ → Call → Type 0
Allowed bank block live (ensure_call want) =
    All (λ e. IsReadable bank block e) want × (length (fromkeys ℕ_discrete want) ≤ live)
Allowed bank block live (prefetch_call es) = All (λ e. IsReadable bank block e) es
