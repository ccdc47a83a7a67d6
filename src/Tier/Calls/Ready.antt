-- ===== src/Tier/Calls/Ready.antt =====
-- No sequence of calls makes the tier raise, as long as each request fits what the prefetch reserve
-- leaves.
use sabah_mo_e_accelerator.Base.{
  ℕ, ◌-◌, ◌≤◌, ◌<◌, ◌≡◌, refl, sym, subst, ◌∙◌, List, [], ◌∷◌, some, has, lookup, All, ℕ_discrete,
  ok, arith, Returns,
}
use sabah_mo_e_accelerator.Tier.Types.{Bank, Pool, Shared, block_expert_bytes}
use sabah_mo_e_accelerator.Tier.Pool.{new}
use sabah_mo_e_accelerator.Tier.Streams.Memory.{IsReadable}
use sabah_mo_e_accelerator.Tier.Ensure.{State}
use sabah_mo_e_accelerator.Tier.Ensure.Admit.{IsSound, usable}
use sabah_mo_e_accelerator.Tier.Ensure.Exact.{ensure-Served}
use sabah_mo_e_accelerator.Tier.Prefetch.Advice.{prefetch-Advised}
use sabah_mo_e_accelerator.Tier.Build.{HotTier, build, new_pool}
use sabah_mo_e_accelerator.Tier.Build.Bounds.{Built, build-Built, new_pool-IsSound, new_pool-usable}
use sabah_mo_e_accelerator.Tier.Calls.{Call, ensure_call, prefetch_call, step, run, Allowed}

-- The state is sound, and the slots outside the reserve are usable.
pub record IsReady (bank : Bank) (prefetch_slots : ℕ) (s s' : State) : Type 0 where
  pub sound : IsSound bank s'
  pub room : s'.pool.n_slots - prefetch_slots ≤ usable s'.pool
  pub same_block : s'.pool.block ≡ s.pool.block
  pub same_size : s'.pool.n_slots ≡ s.pool.n_slots

module _ (bank : Bank) (prefetch_slots live : ℕ) (s : State) where
  step-IsReady :
      (c : Call) (t : State)
      → IsReady bank prefetch_slots s t
      → Allowed bank s.pool.block live c
      → live ≤ s.pool.n_slots - prefetch_slots
      → 0 < live
      → (u : State) × (step bank prefetch_slots c t ≡ ok u) × IsReady bank prefetch_slots s u
  unfolding step
  step-IsReady (ensure_call want) t ready (readable, few) fits some_live =
      let (u, slots, served, r) =
        ensure-Served bank prefetch_slots want t ready.sound
          (subst (λ b. All (λ e. IsReadable bank b e) want) (sym ready.same_block) readable)
          (omega (arith, ready.room, ready.same_size)) (omega (arith, ready.same_size))
          (omega (arith, ready.same_size)) in
      (
        u,
        rw served,
        record {
          sound = r.sound;
          room = omega (arith, r.room, ready.room, r.same_size);
          same_block = r.same_block ∙ ready.same_block;
          same_size = r.same_size ∙ ready.same_size;
        },
      )
  step-IsReady (prefetch_call es) t ready readable fits some_live =
      let (u, n, advised, a, i) =
        prefetch-Advised bank prefetch_slots es t ready.sound
          (subst (λ b. All (λ e. IsReadable bank b e) es) (sym ready.same_block) readable) in
      (
        u,
        rw advised,
        record {
          sound = a.sound;
          room = omega (arith, a.spent, a.grown, ready.room, a.same_size);
          same_block = a.same_block ∙ ready.same_block;
          same_size = a.same_size ∙ ready.same_size;
        },
      )

  -- From a ready state, let each `ensure` of a sequence of calls ask for at most `live` distinct
  -- experts, where `live` is positive and at most the slots outside the prefetch reserve, and let the
  -- bank read all experts of the calls. Then no call raises, and the last state is ready: sound, for
  -- the same block and slots, with as many usable slots as are outside the reserve.
  pub run-IsReady :
      (cs : List Call) (t : State)
      → IsReady bank prefetch_slots s t
      → All (Allowed bank s.pool.block live) cs
      → live ≤ s.pool.n_slots - prefetch_slots
      → 0 < live
      → (u : State) × (run bank prefetch_slots cs t ≡ ok u) × IsReady bank prefetch_slots s u
  unfolding run
  run-IsReady [] t ready allowed fits some_live = (t, refl, ready)
  run-IsReady (c ∷ cs) t ready allowed fits some_live =
      let (u, stepped, ready') = step-IsReady c t ready allowed.0 fits some_live in
      let (v, rest, done) = run-IsReady cs u ready' allowed.1 fits some_live in
      (v, rw (stepped, rest), done)

-- For a new tier whose first block has experts of positive size, let the slots of a block be at
-- least the experts of a token, of which there is one, and let each `ensure` of a sequence of calls
-- ask for at most as many distinct experts, all readable. Then the block has a pool, no call on it
-- raises, and the last state is sound.
pub build-run :
    (bank : Bank) (bases : ℕ → ℕ) (capacity prefetch_slots b : ℕ) (bs : List ℕ) (t : HotTier)
    (shared : Shared) (cs : List Call)
    → 0 < block_expert_bytes bank b
    → build bank bases capacity prefetch_slots (b ∷ bs) ≡ ok t
    → 0 < bank.n_experts_used
    → bank.n_experts_used ≤ t.slots_per_block
    → All (Allowed bank b bank.n_experts_used) cs
    → (p : Pool) × (u : State) × (lookup ℕ_discrete b t.pools ≡ some p)
      × (run bank t.prefetch_slots cs (record { pool = p; shared = shared }) ≡ ok u)
      × IsSound bank u
unfolding new_pool new has
build-run bank bases capacity prefetch_slots b bs t shared cs sized built used enough allowed =
    let (t', built', r') = build-Built bank bases capacity prefetch_slots b bs sized in
    let r : Built bank bases capacity prefetch_slots (b ∷ bs) t =
      subst (Returns (Built bank bases capacity prefetch_slots (b ∷ bs))) (sym built' ∙ built) r' in
    let p = new_pool bank bases t.slots_per_block b in
    let s : State = record { pool = p; shared = shared } in
    let (u, ran, ready) =
      run-IsReady bank t.prefetch_slots bank.n_experts_used s cs s
        (record {
          sound = new_pool-IsSound bank bases t.slots_per_block b shared;
          room = omega (arith, new_pool-usable bank bases t.slots_per_block b);
          same_block = refl;
          same_size = refl;
        })
        allowed (ground (arith, r.live)) used in
    (p, u, ground (arith, r.pools b), ran, ready.sound)
