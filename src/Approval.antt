-- ===== src/Approval.antt =====
-- core/src/approval: the component that keeps the requests for an approval and answers them.
pub mod Defs
pub mod Manager
pub mod Lifecycle
pub mod Evolution
pub mod Runs
