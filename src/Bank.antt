-- ===== src/Bank.antt =====
-- sabah/runtime/expert_bank.py and sabah/runtime/identity.py: read access to the slice of each
-- expert in the shards of a model. `Types` has the state, `Build` the constructor, `Slice` the
-- reads, `Warm` the pinned part.
pub mod Types
pub mod Files
pub mod Slice
pub mod Warm
pub mod Build
pub mod Served
