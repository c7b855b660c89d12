-- ===== src/Database.antt =====
-- core/src/database: the in-memory store, the keys of its entries, and the layers over it.
pub mod Memory
pub mod Iterators
pub mod Keys
pub mod Collections
pub mod Approvals
pub mod Layers
pub mod Registers
