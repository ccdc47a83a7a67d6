-- ===== src/Tests.antt =====
-- Runs of the models on small inputs, and each theorem at an input that meets its hypotheses.
mod Tier
mod Slab
mod Ngram
mod Residency
mod Bank
mod Planner
mod Executor
mod Hardware
mod Inspector
mod Locality
mod Proxy
