-- ===== src/Approvals.antt =====
-- Human decisions on findings and their way to the workflow: the tables, the inbox, and the dispatch.
pub mod Tables
pub mod Inbox
pub mod Dispatch
pub mod Decisions
pub mod Sending
pub mod Once
pub mod Repeat
pub mod Tests
pub mod States
