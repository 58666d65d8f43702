-- ===== src/Repositories.antt =====
-- Installations, repositories and their policy, apps/api/src/pr_reliability_api/repositories.
pub mod Tables
pub mod Store
pub mod Lifecycle
pub mod Access
pub mod Grants
pub mod Revoke
pub mod Ordering
pub mod Tests
