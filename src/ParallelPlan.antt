-- ===== src/ParallelPlan.antt =====
-- scripts/validate-parallel-plan.py, which checks the plans of parallel runs and orders their tasks.
pub mod Graph
pub mod Termination
pub mod Coloring
pub mod Acyclic
pub mod Checks
pub mod Validation
pub mod Passing
pub mod Order
pub mod Tables
pub mod Rounds
pub mod Complete
pub mod Dispatch
mod Examples
