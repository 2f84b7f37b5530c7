-- ===== src/WorkflowState.antt =====
-- The Workflow State IR (scripts/workflow_state.py, and the delta applier of
-- scripts/apply-workflow-delta.py). `Model` has the data, `Validation`, `Mutation` and `Chain` the
-- operations; the other modules prove.
pub mod Model
pub mod Paths
pub mod Validation
pub mod Mutation
pub mod Chain
pub mod Replay
pub mod Soundness
pub mod Phases
pub mod WellFormed
pub mod Items
pub mod Updates
pub mod Passing
pub mod Preserved
pub mod Progress
pub mod Kept
pub mod Examples
pub mod Refs
pub mod Legal
