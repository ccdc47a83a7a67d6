-- ===== src/Tier/Blocks/Sound.antt =====
-- A call on one block keeps the whole tier sound.
use sabah_mo_e_accelerator.Base.{
  ℕ, ◌-◌, ◌≤◌, ◌<◌, ◌≡◌, refl, sym, ap, subst, ◌∙◌, inl, inr, true, false, List, some, lookup,
  lookup-insert, length, fromkeys, ℕ_discrete, is_some, ◌==◌, Option-cases, ok, All, arith,
}
use sabah_mo_e_accelerator.Tier.Types.{Role, Bank, Pool, Shared}
use sabah_mo_e_accelerator.Tier.Streams.Memory.{IsReadable, holds}
use sabah_mo_e_accelerator.Tier.Ensure.{State}
use sabah_mo_e_accelerator.Tier.Ensure.Admit.{IsSound, usable}
use sabah_mo_e_accelerator.Tier.Ensure.Exact.{Delivered, ensure-Served}
use sabah_mo_e_accelerator.Tier.Prefetch.Advice.{prefetch-Advised}
use sabah_mo_e_accelerator.Tier.Build.{HotTier}
use sabah_mo_e_accelerator.Tier.Calls.Others.{ensure-Same, prefetch-Same}
use sabah_mo_e_accelerator.Tier.Blocks.{set_block, tier_ensure, tier_prefetch}

-- A pool of the tier is sound, and can serve `live` experts beside the reserve.
pub record IsLive (bank : Bank) (live reserve b : ℕ) (shared : Shared) (p : Pool) : Type 0 where
  pub block : p.block ≡ b
  pub sound : IsSound bank (record { pool = p; shared = shared })
  pub room : p.n_slots - reserve ≤ usable p
  pub fits : live ≤ p.n_slots - reserve

pub record IsTier (bank : Bank) (live : ℕ) (t : HotTier) : Type 0 where
  pub pools :
      (b : ℕ) (p : Pool)
      → lookup ℕ_discrete b t.pools ≡ some p
      → IsLive bank live t.prefetch_slots b t.shared p

-- A pool stays sound while its slots have what they had.
IsLive-same :
    (bank : Bank) (live reserve b : ℕ) (sh sh' : Shared) (p : Pool)
    → ((slot : ℕ) (r : Role) → holds sh'.commands b slot r ≡ holds sh.commands b slot r)
    → IsLive bank live reserve b sh p
    → IsLive bank live reserve b sh' p
IsLive-same bank live reserve b sh sh' p same l = record {
  block = l.block;
  room = l.room;
  fits = l.fits;
  sound = record {
    valid = l.sound.valid;
    loaded = λ e slot h r.
        let (x, read, held) = l.sound.loaded e slot h r in
        (
          x,
          read,
          subst (λ n. holds sh'.commands n slot r ≡ holds sh.commands n slot r) (sym l.block)
                (same slot r)
              ∙ held,
        );
  };
}

pub share-IsTier :
    (bank : Bank) (live : ℕ) (t : HotTier) (sh : Shared)
    → ((b slot : ℕ) (r : Role) → holds sh.commands b slot r ≡ holds t.shared.commands b slot r)
    → IsTier bank live t
    → IsTier bank live (record t { shared = sh })
share-IsTier bank live t sh same i = record {
  pools = λ b p h. IsLive-same bank live t.prefetch_slots b t.shared sh p (same b) (i.pools b p h);
}

-- The new state of a block is live, and the other blocks' slots have what they had.
set_block-IsTier :
    (bank : Bank) (live b : ℕ) (s : State) (t : HotTier)
    → IsTier bank live t
    → IsLive bank live t.prefetch_slots b s.shared s.pool
    → ((other slot : ℕ) (r : Role)
        → (other == b) ≡ false
        → holds s.shared.commands other slot r ≡ holds t.shared.commands other slot r)
    → IsTier bank live (set_block b s t)
set_block-IsTier bank live b s t i l same = record {
  pools = λ j p h. elim (ℕ_discrete b j) [
    | yes e ↦
        let q : s.pool ≡ p = ground (arith, lookup-insert ℕ_discrete b j s.pool t.pools) in
        subst (λ x. IsLive bank live t.prefetch_slots j s.shared x) q
          (subst (λ n. IsLive bank live t.prefetch_slots n s.shared s.pool) e l)
    | no n ↦
        let old : lookup ℕ_discrete j t.pools ≡ some p =
          ground (arith, lookup-insert ℕ_discrete b j s.pool t.pools) in
        let apart : (j == b) ≡ false = ground arith in
        IsLive-same bank live t.prefetch_slots j t.shared s.shared p (λ slot r. same j slot r apart)
          (i.pools j p old)
  ];
}

-- What a call on a block leaves: a sound tier with the same blocks.
pub record Kept (bank : Bank) (live : ℕ) (t t' : HotTier) : Type 0 where
  pub tier : IsTier bank live t'
  pub blocks :
      (j : ℕ)
      → is_some (lookup ℕ_discrete j t.pools) ≡ true
      → is_some (lookup ℕ_discrete j t'.pools) ≡ true

set_block-blocks :
    (b j : ℕ) (s : State) (t : HotTier)
    → is_some (lookup ℕ_discrete j t.pools) ≡ true
    → is_some (lookup ℕ_discrete j (set_block b s t).pools) ≡ true
set_block-blocks b j s t h = ground (arith, lookup-insert ℕ_discrete b j s.pool t.pools)

module _ (bank : Bank) (live b : ℕ) (t : HotTier) (i : IsTier bank live t)
    (there : is_some (lookup ℕ_discrete b t.pools) ≡ true) where
  -- Let each block of the tier be sound for `live` experts, with `live` positive, and let the tier have
  -- the block. Then `ensure` of readable experts, at most `live` distinct ones, succeeds, the slots it
  -- answers with have the bytes of the request, and the tier has its blocks and is as sound as before.
  pub tier_ensure-Kept :
      (want : List ℕ)
      → All (λ e. IsReadable bank b e) want
      → length (fromkeys ℕ_discrete want) ≤ live
      → 0 < live
      → (t' : HotTier) × (s : State) × (slots : List ℕ) × (tier_ensure bank b want t
          ≡ ok (t', slots))
        × Kept bank live t t'
        × (t'.shared ≡ s.shared)
        × (s.pool.block ≡ b)
        × Delivered bank s want slots
  unfolding tier_ensure
  tier_ensure-Kept want readable few positive = elim (Option-cases (lookup ℕ_discrete b t.pools)) [
    | inl n ↦ absurd (ground arith)
    | inr (p, found) ↦
        let l = i.pools b p found in
        let s0 : State = record { pool = p; shared = t.shared } in
        let (s, slots, served, r) =
          ensure-Served bank t.prefetch_slots want s0 l.sound
            (subst (λ n. All (λ e. IsReadable bank n e) want) (sym l.block) readable)
            (omega (arith, l.room, l.fits)) (omega (arith, l.fits)) (omega (arith, l.fits)) in
        (
          set_block b s t,
          s,
          slots,
          rw (found, served),
          record {
            tier =
                set_block-IsTier bank live b s t i
                  (record {
                    block = r.same_block ∙ l.block;
                    sound = r.sound;
                    room = omega (arith, r.room, l.room, r.same_size);
                    fits = omega (arith, l.fits, r.same_size);
                  })
                  (λ other slot role apart.
                    (ensure-Same bank other slot role t.prefetch_slots want s0 (s, slots)
                      (ap (λ n. other == n) l.block ∙ apart) served).1);
            blocks = λ j h. set_block-blocks b j s t h;
          },
          refl,
          r.same_block ∙ l.block,
          r.delivered,
        )
  ]

  pub tier_prefetch-Kept :
      (es : List ℕ)
      → All (λ e. IsReadable bank b e) es
      → (t' : HotTier) × (n : ℕ) × (tier_prefetch bank b es t ≡ ok (t', n)) × Kept bank live t t'
  unfolding tier_prefetch
  tier_prefetch-Kept es readable = elim (Option-cases (lookup ℕ_discrete b t.pools)) [
    | inl n ↦ absurd (ground arith)
    | inr (p, found) ↦
        let l = i.pools b p found in
        let s0 : State = record { pool = p; shared = t.shared } in
        let (s, n, advised, a, issued) =
          prefetch-Advised bank t.prefetch_slots es s0 l.sound
            (subst (λ n. All (λ e. IsReadable bank n e) es) (sym l.block) readable) in
        (
          set_block b s t,
          n,
          rw (found, advised),
          record {
            tier =
                set_block-IsTier bank live b s t i
                  (record {
                    block = a.same_block ∙ l.block;
                    sound = a.sound;
                    room = omega (arith, a.spent, a.grown, l.room, a.same_size);
                    fits = omega (arith, l.fits, a.same_size);
                  })
                  (λ other slot role apart.
                    (prefetch-Same bank other slot role t.prefetch_slots es s0 (s, n)
                      (ap (λ n. other == n) l.block ∙ apart) advised).1);
            blocks = λ j h. set_block-blocks b j s t h;
          },
        )
  ]
