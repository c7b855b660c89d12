-- ===== src/Approval/Evolution.antt =====
-- The operations of approval/inner_manager.rs keep to the lifecycle of requests, and do not panic.
pub mod Writes
pub mod Votes
pub mod Requests
