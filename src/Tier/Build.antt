-- ===== src/Tier/Build.antt =====
-- `HotTier.__init__` of sabah/runtime/hot_tier.py: how the capacity becomes slots, and the state
-- that the tier starts from. Device allocations that fail are not modelled: `bases` gives the
-- address of each block's pool.
pub mod Bounds
use sabah_mo_e_accelerator.Base.{
  ℕ, zero, suc, ◌+◌, ◌-◌, ◌*◌, ◌/◌, min, max, false, List, [], ◌∷◌, lookup, insert, length,
  replicate, Result, ok, raise, Error, ◌>>=◌, if◌then◌else◌, ℕ_discrete, ◌==◌,
}
use sabah_mo_e_accelerator.Tier.Types.{
  Role, gate, up, down, Bank, block_expert_bytes, Pool, Shared, reset,
}
use sabah_mo_e_accelerator.Tier.Streams.{staging_slots}
use sabah_mo_e_accelerator.Tier.Pool.{new, bytes_used}

-- `HotTier`. The blocks share one `Shared`.
pub record HotTier : Type 0 where
  pub pools : List (ℕ × Pool)
  pub slots_per_block : ℕ
  pub capacity_bytes : ℕ
  pub prefetch_slots : ℕ
  pub shared : Shared

abbrev pub largest_from : ℕ → List ℕ → ℕ
largest_from m [] = m
largest_from m (x ∷ xs) = largest_from (max m x) xs

-- `max(per.values())`, which raises on no blocks.
unfoldable pub largest : List ℕ → Result ℕ
largest [] = raise Error.value_error
largest (x ∷ xs) = ok (largest_from x xs)

abbrev pub block_sizes : Bank → List ℕ → List ℕ
block_sizes bank [] = []
block_sizes bank (b ∷ bs) = block_expert_bytes bank b ∷ block_sizes bank bs

-- The same number of slots for every block.
unfoldable pub slots_each : ℕ → ℕ → ℕ → ℕ → Result ℕ
slots_each capacity biggest n_blocks n_experts =
    if biggest * n_blocks == 0
    then raise Error.zero_division_error
    else ok (min (capacity / (biggest * n_blocks)) n_experts)

-- The offset of each role in a slot.
unfoldable pub role_offsets : Bank → ℕ → Role → ℕ
role_offsets bank b gate = 0
role_offsets bank b up = bank.expert_bytes b gate
role_offsets bank b down = bank.expert_bytes b gate + bank.expert_bytes b up

unfoldable pub new_pool : Bank → (ℕ → ℕ) → ℕ → ℕ → Pool
unfolding new
new_pool bank bases slots b =
    new b (block_expert_bytes bank b) slots (role_offsets bank b) (bases b)

unfoldable pub new_pools : Bank → (ℕ → ℕ) → ℕ → List ℕ → List (ℕ × Pool) → List (ℕ × Pool)
unfolding new_pool
new_pools bank bases slots [] pools = pools
new_pools bank bases slots (b ∷ bs) pools =
    new_pools bank bases slots bs (insert ℕ_discrete b (new_pool bank bases slots b) pools)

-- `sum(p.bytes_used() for p in self.pools.values())`
unfoldable pub total_bytes : List (ℕ × Pool) → ℕ
unfolding bytes_used
total_bytes [] = 0
total_bytes (e ∷ pools) = bytes_used e.1 + total_bytes pools

-- The slots that stay free for prefetch, so that `live` experts always fit.
unfoldable pub reserve : ℕ → ℕ → ℕ → ℕ
reserve prefetch_slots slots live = min prefetch_slots (slots - live)

-- What the blocks share at the start.
unfoldable pub new_shared : Shared
unfolding reset
new_shared = record {
  tel = reset;
  stage_i = 0;
  stage_inflight = replicate staging_slots false;
  ev_free = [];
  ev_all = 0;
  read_ev = [];
  stall_i = 0;
  stall_pending = 0;
  commands = [];
}

-- The tier once the number of slots of a block is known.
unfoldable pub assemble : Bank → (ℕ → ℕ) → ℕ → List ℕ → ℕ → HotTier
unfolding new_pools total_bytes reserve new_shared
assemble bank bases prefetch_slots blocks slots =
    let pools = new_pools bank bases slots blocks [] in
    record {
      pools = pools;
      slots_per_block = slots;
      capacity_bytes = total_bytes pools;
      prefetch_slots = reserve prefetch_slots slots bank.n_experts_used;
      shared = new_shared;
    }

-- `HotTier.__init__`
unfoldable pub build : Bank → (ℕ → ℕ) → ℕ → ℕ → List ℕ → Result HotTier
unfolding largest slots_each assemble
build bank bases capacity prefetch_slots blocks = largest (block_sizes bank blocks) >>= λ biggest.
    slots_each capacity biggest (length blocks) bank.n_experts >>= λ slots.
    ok (assemble bank bases prefetch_slots blocks slots)
