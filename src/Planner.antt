-- ===== src/Planner.antt =====
-- sabah/planner/planner.py: from a model and a machine to an execution plan. `Types` has the numbers,
-- the inputs and the plan, `Warm` the choice of pinned blocks, `Rates` the hit-rate curves, `Plan`
-- the function `plan`, in its stages.
pub mod Types
pub mod Warm
pub mod Rates
pub mod Plan
