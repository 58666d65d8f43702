-- ===== src/Starts.antt =====
-- The start of runs under the repository policy, workers/src/pr_reliability_workers/dispatch.py.
pub mod Tables
pub mod Dispatch
pub mod Admission
pub mod Tests
