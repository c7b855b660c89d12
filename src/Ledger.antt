-- ===== src/Ledger.antt =====
-- core/src/ledger: the component that keeps the events of the subjects and the subjects themselves.
pub mod Defs
pub mod Checks
pub mod Agreement
pub mod Signers
pub mod Sourcing
pub mod Chain
pub mod Validated
pub mod Recorded
