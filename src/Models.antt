-- ===== src/Models.antt =====
-- core/src/commons/models: the data that the components exchange, and its operations.
pub mod Values
pub mod Errors
pub mod Crypto
pub mod Signatures
pub mod Requests
pub mod Evaluations
pub mod Approvals
pub mod Events
pub mod Subjects
pub mod Proofs
pub mod Verification
