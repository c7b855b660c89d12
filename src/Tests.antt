-- ===== src/Tests.antt =====
-- Tests of the definitions, and the theorems at concrete inputs.
mod Samples
mod Identifiers
mod Models
mod Validators
mod Governances
mod Sources
mod Databases
mod Approvals
mod Ledgers
