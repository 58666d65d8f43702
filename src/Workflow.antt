-- ===== src/Workflow.antt =====
-- The durable review workflow, workers/src/pr_reliability_workers/workflows.
pub mod Types
pub mod Machine
pub mod Coroutine
pub mod Activities
pub mod Run
pub mod Invariant
pub mod Sound
pub mod Ending
pub mod Stages
pub mod Approval
pub mod Safety
pub mod Signals
mod Tests
