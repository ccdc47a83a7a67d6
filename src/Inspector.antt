-- ===== src/Inspector.antt =====
-- sabah/core/model_inspector.py: from the tensor table of a model to its profile. `Types` has the
-- table and the profile, `Scan` the expert tensors and their proof of contiguity, `Profile` the
-- function `inspect_model`.
pub mod Types
pub mod Scan
pub mod Profile
