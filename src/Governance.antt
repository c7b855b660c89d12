-- ===== src/Governance.antt =====
-- core/src/governance: what a governance says of who may do what, and with how many signatures.
pub mod Stages
pub mod Errors
pub mod Interface
pub mod Namespaces
pub mod Policies
pub mod Roles
pub mod Sourcing
pub mod Payload
pub mod Answers
pub mod Inner
