-- ===== src/Tier/Blocks/Start.antt =====
-- A new tier is sound on all its blocks.
use sabah_mo_e_accelerator.Base.{
  ℕ, ◌≤◌, ◌≡◌, refl, subst, inl, inr, List, [], has, lookup, ℕ_discrete, Bool-cases, arith,
}
use sabah_mo_e_accelerator.Tier.Types.{Bank}
use sabah_mo_e_accelerator.Tier.Pool.{new}
use sabah_mo_e_accelerator.Tier.Build.{assemble, new_pool, new_shared, reserve}
use sabah_mo_e_accelerator.Tier.Build.Bounds.{new_pools-lookup, new_pool-IsSound, new_pool-usable}
use sabah_mo_e_accelerator.Tier.Blocks.Sound.{IsLive, IsTier}

-- The constructor's tier, when a block has at least as many slots as a token has experts.
pub assemble-IsTier :
    (bank : Bank) (bases : ℕ → ℕ) (prefetch_slots : ℕ) (blocks : List ℕ) (slots : ℕ)
    → bank.n_experts_used ≤ slots
    → IsTier bank bank.n_experts_used (assemble bank bases prefetch_slots blocks slots)
unfolding assemble lookup reserve new_pool new
assemble-IsTier bank bases prefetch_slots blocks slots enough = record {
  pools = λ b p h. elim (Bool-cases (has ℕ_discrete b blocks)) [
    | inr away ↦ absurd (ground (arith, new_pools-lookup bank bases slots blocks [] b))
    | inl here ↦
        let q : new_pool bank bases slots b ≡ p =
          ground (arith, new_pools-lookup bank bases slots blocks [] b) in
        subst
          (λ x.
            IsLive bank bank.n_experts_used (reserve prefetch_slots slots bank.n_experts_used) b
              new_shared x)
          q (live b)
  ];
}
  where
    live :
        (b : ℕ)
        → IsLive bank bank.n_experts_used
            (reserve prefetch_slots slots bank.n_experts_used)
            b
            new_shared
            (new_pool bank bases slots b)
    live b = record {
      block = refl;
      sound = new_pool-IsSound bank bases slots b new_shared;
      room = omega (arith, new_pool-usable bank bases slots b);
      fits = omega arith;
    }
