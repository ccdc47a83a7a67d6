-- ===== src/Tier.antt =====
-- sabah/runtime/hot_tier.py: which experts of a block are in which VRAM slots, and the copies that
-- bring them there. `Types` has the state, `Streams` the events and copies, `Pool` the slots of a
-- block, `Ensure` and `Prefetch` the two ways in, `Tier` the constructor.
pub mod Types
pub mod Streams
pub mod Pool
pub mod Ensure
pub mod Prefetch
pub mod Build
pub mod Calls
pub mod Blocks
