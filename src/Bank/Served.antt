-- ===== src/Bank/Served.antt =====
-- `HotTier` on an `ExpertBank`: what the device holds is what the shards have.
use sabah_mo_e_accelerator.Base.{
  ℕ, ◌<◌, ◌≤◌, ◌≡◌, refl, ◌∙◌, ◌⊎◌, inl, inr, Bool-cases, Option-cases, Bool, true, false, List, [],
  ◌∷◌, Option, none, some, has, lookup, length, ltb, ◌&&◌, ℕ_discrete, fromkeys, All, Result, ok,
  raise, arith,
}
use sabah_mo_e_accelerator.Tier.Types.{Role, Bytes, Bank, Pool, Shared, block_expert_bytes}
use sabah_mo_e_accelerator.Tier.Streams.Memory.{IsReadable, holds}
use sabah_mo_e_accelerator.Tier.Ensure.{State}
use sabah_mo_e_accelerator.Tier.Ensure.Admit.{IsSound}
use sabah_mo_e_accelerator.Tier.Build.{HotTier, build}
use sabah_mo_e_accelerator.Tier.Calls.{Call, ensure_call, prefetch_call, run, Allowed}
use sabah_mo_e_accelerator.Tier.Calls.Ready.{build-run}
use sabah_mo_e_accelerator.Bank.Types.{Mode, Profile, ExpertBank}
use sabah_mo_e_accelerator.Bank.Slice.{expert_bytes, pinned_block, expert_slice, read_range}
use sabah_mo_e_accelerator.Bank.Slice.Exact.{IsExact, expert_slice-read_range}
use sabah_mo_e_accelerator.Bank.Build.{build_bank}
use sabah_mo_e_accelerator.Bank.Build.Built.{build_bank-IsExact}

abbrev or_zero : Result ℕ → ℕ
or_zero (ok n) = n
or_zero (raise e) = 0

abbrev is_ram : Mode → Bool
is_ram Mode.mmap = false
is_ram Mode.ram = true
is_ram Mode.other_mode = false

-- What `HotTier` uses of the bank: `direct` is the test of `_submit_copy`.
unfoldable pub tier_bank : ExpertBank → Bank
unfolding expert_bytes pinned_block expert_slice
tier_bank bank = record {
  n_experts = bank.n_experts;
  n_experts_used = bank.n_experts_used;
  direct = is_ram bank.mode && bank.pinned;
  pinned_block = pinned_block bank;
  expert_bytes = λ b r. or_zero (expert_bytes bank b r);
  slice = expert_slice bank;
}

-- The expert is one of the bank's, and the shard has its whole range in each role.
pub record IsStored (bank : ExpertBank) (b e : ℕ) : Type 0 where
  pub known : has ℕ_discrete b bank.blocks ≡ true
  pub low : e < bank.n_experts
  pub stored : (r : Role) → (x : Bytes) × (read_range bank b e r ≡ ok x)

slice-stored :
    (bank : ExpertBank) (b e : ℕ) (r : Role)
    → IsExact bank
    → has ℕ_discrete b bank.blocks ≡ true
    → e < bank.n_experts
    → expert_slice bank b e r ≡ read_range bank b e r
slice-stored bank b e r exact known low =
    let l : ltb e bank.n_experts ≡ true = ground arith in
    expert_slice-read_range bank b e r exact ∙ rw (l, known) refl

stored-IsReadable :
    (bank : ExpertBank) (b e : ℕ)
    → IsExact bank
    → IsStored bank b e
    → IsReadable (tier_bank bank) b e
unfolding tier_bank
stored-IsReadable bank b e exact s r =
    let (x, h) = s.stored r in (x, slice-stored bank b e r exact s.known s.low ∙ h)

-- The calls ask for experts that the shards have, an `ensure` for at most `live` distinct ones.
abbrev pub Stored : ExpertBank → ℕ → ℕ → Call → Type 0
Stored bank b live (ensure_call want) =
    All (λ e. IsStored bank b e) want × (length (fromkeys ℕ_discrete want) ≤ live)
Stored bank b live (prefetch_call es) = All (λ e. IsStored bank b e) es

All-IsReadable :
    (bank : ExpertBank) (b : ℕ) (es : List ℕ)
    → IsExact bank
    → All (λ e. IsStored bank b e) es
    → All (λ e. IsReadable (tier_bank bank) b e) es
All-IsReadable bank b [] exact h = tt
All-IsReadable bank b (e ∷ es) exact h =
    (stored-IsReadable bank b e exact h.0, All-IsReadable bank b es exact h.1)

Stored-Allowed :
    (bank : ExpertBank) (b live : ℕ) (cs : List Call)
    → IsExact bank
    → All (Stored bank b live) cs
    → All (Allowed (tier_bank bank) b live) cs
Stored-Allowed bank b live [] exact h = tt
Stored-Allowed bank b live (ensure_call want ∷ cs) exact h =
    ((All-IsReadable bank b want exact h.0.0, h.0.1), Stored-Allowed bank b live cs exact h.1)
Stored-Allowed bank b live (prefetch_call es ∷ cs) exact h =
    (All-IsReadable bank b es exact h.0, Stored-Allowed bank b live cs exact h.1)

-- What `slice` returns is what the shard has.
slice-ok :
    (bank : ExpertBank) (b e : ℕ) (r : Role) (c : Bytes)
    → IsExact bank
    → expert_slice bank b e r ≡ ok c
    → read_range bank b e r ≡ ok c
slice-ok bank b e r c exact h =
    let q = expert_slice-read_range bank b e r exact in
    elim (Bool-cases (ltb e bank.n_experts)) [
      | inr high ↦ absurd (ground arith)
      | inl low ↦ elim (Bool-cases (has ℕ_discrete b bank.blocks)) [
        | inr away ↦ absurd (ground arith)
        | inl here ↦ ground arith
      ]
    ]

-- The expert is not in the pool, or the device holds the bytes of its range in its slot.
abbrev pub Held : ExpertBank → ℕ → Role → State → Type 0
Held bank e r s =
    (lookup ℕ_discrete e s.pool.slot_of ≡ none)
    ⊎ ((slot : ℕ) × (c : Bytes) × (lookup ℕ_discrete e s.pool.slot_of ≡ some slot)
        × (read_range bank s.pool.block e r ≡ ok c)
        × (holds s.shared.commands s.pool.block slot r ≡ some c))

sound-Held :
    (bank : ExpertBank) (e : ℕ) (r : Role) (s : State)
    → IsExact bank
    → IsSound (tier_bank bank) s
    → Held bank e r s
unfolding tier_bank
sound-Held bank e r s exact sound = elim (Option-cases (lookup ℕ_discrete e s.pool.slot_of)) [
  | inl n ↦ inl n
  | inr (slot, l) ↦
      let (c, read, held) = sound.loaded e slot l r in
      inr (slot, c, l, slice-ok bank s.pool.block e r c exact read, held)
]

-- Let a bank be built from any model, in either mode, with any blocks pinned, and let a tier be built
-- on it whose first block has experts of positive size and whose blocks have at least as many slots
-- as a token has experts, of which there is one. Then any sequence of calls on that block, each
-- `ensure` for at most as many distinct experts, all stored in the shards, returns, and after it each
-- expert that has a slot has there, in each role, the bytes that the shard has in its range.
pub build_bank-run :
    (model : Profile) (mode : Mode) (blocks : Option (List ℕ)) (pinned : Bool) (warm : List ℕ)
    (shards : List Bytes) (x : ExpertBank) (bases : ℕ → ℕ) (capacity prefetch_slots b : ℕ)
    (bs : List ℕ) (t : HotTier) (shared : Shared) (cs : List Call) (e : ℕ) (r : Role)
    → build_bank model mode blocks pinned warm shards ≡ ok x
    → 0 < block_expert_bytes (tier_bank x) b
    → build (tier_bank x) bases capacity prefetch_slots (b ∷ bs) ≡ ok t
    → 0 < x.n_experts_used
    → x.n_experts_used ≤ t.slots_per_block
    → All (Stored x b x.n_experts_used) cs
    → (p : Pool) × (u : State) × (lookup ℕ_discrete b t.pools ≡ some p)
      × (run (tier_bank x) t.prefetch_slots cs (record { pool = p; shared = shared }) ≡ ok u)
      × Held x e r u
unfolding tier_bank
build_bank-run model mode blocks pinned warm shards x bases capacity prefetch_slots b bs t shared cs
      e r made sized built used enough stored =
    let exact = build_bank-IsExact model mode blocks pinned warm shards x made in
    let (p, u, found, ran, sound) =
      build-run (tier_bank x) bases capacity prefetch_slots b bs t shared cs sized built used enough
        (Stored-Allowed x b x.n_experts_used cs exact stored) in
    (p, u, found, ran, sound-Held x e r u exact sound)
