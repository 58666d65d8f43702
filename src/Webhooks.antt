-- ===== src/Webhooks.antt =====
-- The webhook handlers of the API, apps/api/src/pr_reliability_api/webhooks.
pub mod Tables
pub mod Runs
pub mod PullRequests
pub mod Receive
pub mod Checks
pub mod Route
mod Generations
mod Numbering
mod Starting
mod Duplicates
mod Staleness
mod Reruns
mod Authentic
mod Handover
mod Tests
