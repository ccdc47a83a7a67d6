-- ===== src/Tests/Bank.antt =====
-- A bank of one block with two experts of one byte in each role, in a shard of six bytes.
use sabah_mo_e_accelerator.Base.{
  ℕ, zero, suc, ◌≡◌, refl, true, false, List, [], ◌∷◌, none, some, has, lookup, insert, ltb,
  if◌then◌else◌, ℕ_discrete, Result, ok, raise, Error, key_error, ◌>>=◌, arith, All, fromkeys_from,
  sorted_set, sort, slice, take,
}
use sabah_mo_e_accelerator.Tier.Types.{Role, gate, up, down, Pool}
use sabah_mo_e_accelerator.Tier.Ensure.{State}
use sabah_mo_e_accelerator.Tier.Build.{HotTier, build, assemble, new_pools, new_pool, new_shared}
use sabah_mo_e_accelerator.Tier.Calls.{Call, ensure_call, run}
use sabah_mo_e_accelerator.Bank.Types.{
  Mode, Descriptor, Profile, ExpertBank, key_discrete, range_discrete,
}
use sabah_mo_e_accelerator.Bank.Slice.{expert_slice, read_range}
use sabah_mo_e_accelerator.Bank.Slice.Exact.{IsExact, expert_slice-read_range}
use sabah_mo_e_accelerator.Bank.Warm.{load_warm}
use sabah_mo_e_accelerator.Bank.Warm.Pins.{IsPinned, load_warm-IsPinned}
use sabah_mo_e_accelerator.Bank.Build.{build_bank}
use sabah_mo_e_accelerator.Bank.Build.Built.{build_bank-IsExact}
use sabah_mo_e_accelerator.Bank.Served.{tier_bank, IsStored, Stored, Held, build_bank-run}

abbrev tensor : Role → ℕ → Descriptor
tensor r o = record { block = 0; role = r; qtype = 8; per_expert_bytes = 1; shard = 0; offset = o }

abbrev model : Profile
model = record {
  supported = true;
  experts_contiguous = true;
  n_experts = 2;
  n_experts_used = 1;
  expert_tensors = tensor gate 0 ∷ tensor up 2 ∷ tensor down 4 ∷ [];
}

abbrev shard : List ℕ
shard = 10 ∷ 11 ∷ 20 ∷ 21 ∷ 30 ∷ 31 ∷ []

program : Unit {0}
unfolding build_bank load_warm expert_slice read_range ℕ_discrete key_discrete range_discrete has
    lookup insert sorted_set sort slice take tier_bank build new_pools new_pool new_shared
    fromkeys_from
program = tt

abbrev no_bank : ExpertBank
no_bank = record {
  mode = Mode.mmap;
  pinned = false;
  n_experts = 0;
  n_experts_used = 0;
  warm_blocks = [];
  desc = [];
  blocks = [];
  ram_of = [];
  warm_of = [];
  warm_loaded_bytes = 0;
  ranges = [];
  file_handles = [];
}

abbrev bank_or : Result ExpertBank → ExpertBank
bank_or (ok b) = b
bank_or (raise e) = no_bank

abbrev cold : ExpertBank
unfolding program
cold = bank_or (build_bank model Mode.mmap none false [] (shard ∷ []))

cold-built : build_bank model Mode.mmap none false [] (shard ∷ []) ≡ ok cold
unfolding program
cold-built = refl

second_up : expert_slice cold 0 1 up ≡ ok (21 ∷ [])
unfolding program
second_up = refl

second_down_in_ram :
    (build_bank model Mode.ram none true [] (shard ∷ []) >>= λ b. expert_slice b 0 1 down)
    ≡ ok (31 ∷ [])
unfolding program
second_down_in_ram = refl

second_gate_pinned :
    (build_bank model Mode.mmap none true (0 ∷ []) (shard ∷ []) >>= λ b. expert_slice b 0 1 gate)
    ≡ ok (11 ∷ [])
unfolding program
second_gate_pinned = refl

short_shard :
    (build_bank model Mode.mmap none false [] ((10 ∷ []) ∷ []) >>= λ b. expert_slice b 0 1 gate)
    ≡ raise Error.io_error
unfolding program
short_shard = refl

-- A supported profile without the tensor of a role builds no bank.
missing_role :
    build_bank
      (record model { expert_tensors = tensor gate 0 ∷ tensor up 2 ∷ [] })
      Mode.mmap
      none
      false
      []
      (shard ∷ [])
    ≡ raise key_error
unfolding program
missing_role = refl

build_bank-IsExact_example : IsExact cold
build_bank-IsExact_example =
    build_bank-IsExact model Mode.mmap none false [] (shard ∷ []) cold cold-built

expert_slice-read_range_example : expert_slice cold 0 1 up ≡ (
    if ltb 1 cold.n_experts
    then (if has ℕ_discrete 0 cold.blocks then read_range cold 0 1 up else raise key_error)
    else raise Error.index_error)
expert_slice-read_range_example =
    expert_slice-read_range cold 0 1 up
      (build_bank-IsExact model Mode.mmap none false [] (shard ∷ []) cold cold-built)

abbrev pair_or : Result (ExpertBank × ℕ) → ExpertBank × ℕ
pair_or (ok t) = t
pair_or (raise e) = (no_bank, 0)

abbrev warmed : ExpertBank × ℕ
unfolding program
warmed = pair_or (load_warm (0 ∷ []) cold)

cold-warmed : load_warm (0 ∷ []) cold ≡ ok warmed
unfolding program
cold-warmed = refl

warmed_bytes : warmed.1 ≡ 6
unfolding program
warmed_bytes = refl

load_warm-IsPinned_example : IsPinned (0 ∷ []) cold warmed.0 warmed.1
load_warm-IsPinned_example =
    load_warm-IsPinned (0 ∷ []) cold warmed
      (build_bank-IsExact model Mode.mmap none false [] (shard ∷ []) cold cold-built) cold-warmed

abbrev bases : ℕ → ℕ
bases b = 1000

abbrev tier_or : HotTier → Result HotTier → HotTier
tier_or s (ok t) = t
tier_or s (raise e) = s

abbrev tier : HotTier
unfolding program
tier =
    tier_or (assemble (tier_bank cold) bases 0 (0 ∷ []) 0)
      (build (tier_bank cold) bases 6 0 (0 ∷ []))

tier-built : build (tier_bank cold) bases 6 0 (0 ∷ []) ≡ ok tier
unfolding program
tier-built = refl

read_first : (r : Role) → (x : List ℕ) × (read_range cold 0 0 r ≡ ok x)
unfolding program
read_first gate = (10 ∷ [], refl)
read_first up = (20 ∷ [], refl)
read_first down = (30 ∷ [], refl)

read_second : (r : Role) → (x : List ℕ) × (read_range cold 0 1 r ≡ ok x)
unfolding program
read_second gate = (11 ∷ [], refl)
read_second up = (21 ∷ [], refl)
read_second down = (31 ∷ [], refl)

stored : (e : ℕ) → ltb e 2 ≡ true → IsStored cold 0 e
unfolding program
stored zero h = record { known = refl; low = omega arith; stored = read_first }
stored (suc zero) h = record { known = refl; low = omega arith; stored = read_second }
stored (suc (suc e)) h = absurd (ground arith)

abbrev calls : List Call
calls = ensure_call (1 ∷ []) ∷ ensure_call (0 ∷ []) ∷ []

calls-Stored : All (Stored cold 0 1) calls
unfolding program
calls-Stored = (((stored 1 refl, tt), omega arith), (((stored 0 refl, tt), omega arith), tt))

build_bank-run_example :
    (p : Pool) × (u : State) × (lookup ℕ_discrete 0 tier.pools ≡ some p)
    × (run (tier_bank cold) tier.prefetch_slots calls (record { pool = p; shared = new_shared })
        ≡ ok u)
    × Held cold 0 up u
unfolding program
build_bank-run_example =
    build_bank-run model Mode.mmap none false [] (shard ∷ []) cold bases 6 0 0 [] tier new_shared
      calls 0 up cold-built (omega arith) tier-built (omega arith) (omega arith) calls-Stored
