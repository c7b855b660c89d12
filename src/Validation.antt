-- ===== src/Validation.antt =====
-- core/src/validation: a validator signs the proof of an event, at most one for each number of the
-- sequence of a subject.
pub mod Successors
pub mod Defs
pub mod Checks
pub mod Process
pub mod Order
pub mod Steps
pub mod Forks
pub mod Endorsed
pub mod Agreement
