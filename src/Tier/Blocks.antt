-- ===== src/Tier/Blocks.antt =====
-- `ensure` and `prefetch` of sabah/runtime/hot_tier.py on the whole tier: the pool of the block is
-- looked up, and the blocks share the rest.
pub mod Sound
pub mod Start
use sabah_mo_e_accelerator.Base.{
  ℕ, List, Option, none, some, lookup, insert, ℕ_discrete, Result, ok, raise, key_error, ◌>>=◌,
}
use sabah_mo_e_accelerator.Tier.Types.{Bank, Pool}
use sabah_mo_e_accelerator.Tier.Ensure.{State, ensure}
use sabah_mo_e_accelerator.Tier.Prefetch.{prefetch}
use sabah_mo_e_accelerator.Tier.Build.{HotTier}

-- `self.pools[block]`
abbrev pub pool_or_error : Option Pool → Result Pool
pool_or_error none = raise key_error
pool_or_error (some p) = ok p

-- The tier with a new state of a block.
abbrev pub set_block : ℕ → State → HotTier → HotTier
set_block b s t = record t { pools = insert ℕ_discrete b s.pool t.pools; shared = s.shared }

unfoldable pub tier_ensure : Bank → ℕ → List ℕ → HotTier → Result (HotTier × List ℕ)
unfolding ensure
tier_ensure bank b want t = pool_or_error (lookup ℕ_discrete b t.pools) >>= λ p.
    ensure bank t.prefetch_slots want (record { pool = p; shared = t.shared }) >>= λ r.
    ok (set_block b r.0 t, r.1)

unfoldable pub tier_prefetch : Bank → ℕ → List ℕ → HotTier → Result (HotTier × ℕ)
unfolding prefetch
tier_prefetch bank b es t = pool_or_error (lookup ℕ_discrete b t.pools) >>= λ p.
    prefetch bank t.prefetch_slots es (record { pool = p; shared = t.shared }) >>= λ r.
    ok (set_block b r.0 t, r.1)
