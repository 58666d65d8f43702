-- ===== src/Context.antt =====
-- The context selector, workers/src/pr_reliability_workers/context.
pub mod Paths
pub mod Prefix
pub mod Dependencies
pub mod Selector
pub mod Include
pub mod Total
pub mod Closest
pub mod Local
mod Tests
