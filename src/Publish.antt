-- ===== src/Publish.antt =====
-- The publish activity, workers/src/pr_reliability_workers/activities/publish.py.
pub mod Tables
pub mod Review
pub mod Prepare
pub mod Operation
pub mod Once
pub mod Finished
pub mod Again
pub mod Authority
pub mod Creation
pub mod Tests
