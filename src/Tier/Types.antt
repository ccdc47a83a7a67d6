-- ===== src/Tier/Types.antt =====
-- The state of sabah/runtime/hot_tier.py, and the bank that it reads (an interface, which
-- sabah/runtime/expert_bank.py implements).
use sabah_mo_e_accelerator.Base.{
  ℕ, ◌≡◌, ◌+◌, Bool, List, [], Option, none, some, lookup, ℕ_discrete, insert, Result,
}

-- `bank.ROLES`
pub data Role : Type 0 where
  gate up down : Role

abbrev pub Bytes : Type 0
Bytes = List ℕ

-- What the tier uses of a bank. `direct` is `mode == "ram" and pinned`.
pub record Bank : Type 0 where
  pub n_experts : ℕ
  pub n_experts_used : ℕ
  pub direct : Bool
  pub pinned_block : ℕ → Bool
  pub expert_bytes : ℕ → Role → ℕ
  pub slice : ℕ → ℕ → Role → Result Bytes

-- `bank.block_expert_bytes`
abbrev pub block_expert_bytes : Bank → ℕ → ℕ
block_expert_bytes bank b =
    bank.expert_bytes b gate + bank.expert_bytes b up + bank.expert_bytes b down

-- The states of an expert.
pub data Residence : Type 0 where
  ram_only transferring gpu_resident evict_pending : Residence

-- A device event. The names stand for the distinct handles that `sabah_event_create` returns: the
-- staging events, the pooled transfer events in the order of creation, a block's read event, and
-- the two events of a stall interval.
pub data Event : Type 0 where
  stage pooled read wait_begin wait_end : ℕ → Event

-- What is submitted to the device: copies on the copy stream (one role in place, or the three
-- roles of an expert through a staging buffer), and the uses of events.
pub data Command : Type 0 where
  h2d_direct : (block slot : ℕ) → Role → Bytes → Command
  h2d_staged : (buffer block slot : ℕ) → Bytes → Bytes → Bytes → Command
  record_copy record_compute compute_wait copy_wait event_sync : Event → Command

pub record BlockCounts : Type 0 where
  pub requests : ℕ
  pub hits : ℕ
  pub misses : ℕ
  pub bytes_fetched : ℕ

-- `Telemetry`, without the two times in milliseconds.
pub record Telemetry : Type 0 where
  pub hits : ℕ
  pub misses : ℕ
  pub requests : ℕ
  pub byte_hits : ℕ
  pub byte_misses : ℕ
  pub duplicate_transfers_suppressed : ℕ
  pub evictions : ℕ
  pub bytes_fetched : ℕ
  pub blocks_executed : ℕ
  pub tokens : ℕ
  pub host_stage_bytes : ℕ
  pub prefetch_issued : ℕ
  pub prefetch_hits : ℕ
  pub per_block : List (ℕ × BlockCounts)

abbrev pub zero_counts : BlockCounts
zero_counts = record { requests = 0; hits = 0; misses = 0; bytes_fetched = 0 }

-- `Telemetry.reset`
unfoldable pub reset : Telemetry
reset = record {
  hits = 0;
  misses = 0;
  requests = 0;
  byte_hits = 0;
  byte_misses = 0;
  duplicate_transfers_suppressed = 0;
  evictions = 0;
  bytes_fetched = 0;
  blocks_executed = 0;
  tokens = 0;
  host_stage_bytes = 0;
  prefetch_issued = 0;
  prefetch_hits = 0;
  per_block = [];
}

abbrev counts_or_zero : Option BlockCounts → BlockCounts
counts_or_zero none = zero_counts
counts_or_zero (some c) = c

-- `tel.per_block[b]`, a `defaultdict`.
unfoldable pub block_counts : ℕ → Telemetry → BlockCounts
block_counts b t = counts_or_zero (lookup ℕ_discrete b t.per_block)

unfoldable pub update_counts : ℕ → (BlockCounts → BlockCounts) → Telemetry → Telemetry
unfolding block_counts
update_counts b f t = record t {
  per_block = insert ℕ_discrete b (f (block_counts b t)) t.per_block;
}

-- `BlockPool`: the slots of one transformer block. `base` is the address of its VRAM.
pub record Pool : Type 0 where
  pub block : ℕ
  pub slot_bytes : ℕ
  pub n_slots : ℕ
  pub role_offsets : Role → ℕ
  pub base : ℕ
  pub free_slots : List ℕ
  pub slot_of : List (ℕ × ℕ)
  pub expert_of : List (ℕ × ℕ)
  pub state : List (ℕ × Residence)
  pub lru : List ℕ
  pub inflight : List (ℕ × ℕ)

-- The part of `HotTier` that its blocks share. The head of `ev_free` is the end of the Python
-- list; `ev_all` counts the transfer events created; `commands` has the newest first.
pub record Shared : Type 0 where
  pub tel : Telemetry
  pub stage_i : ℕ
  pub stage_inflight : List Bool
  pub ev_free : List ℕ
  pub ev_all : ℕ
  pub read_ev : List ℕ
  pub stall_i : ℕ
  pub stall_pending : ℕ
  pub commands : List Command

-- The totals of requests, hits and misses are the same.
abbrev pub SameTotals : Shared → Shared → Type 0
SameTotals s s' =
    (s'.tel.hits ≡ s.tel.hits) × (s'.tel.misses ≡ s.tel.misses) × (s'.tel.requests ≡ s.tel.requests)
