-- ===== src/Slab.antt =====
-- tools/slab_replay.py: the replacement policies, and the replay of a trace.
pub mod Arc
pub mod Lru
pub mod Lfu
pub mod TwoQ
pub mod PerLayer
pub mod Replay
