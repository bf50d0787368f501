-- ===== src/Entries.antt =====
-- Vault entries: core/crates/vipervault-core/src/entries/.
pub mod Error
pub mod Validate
pub mod Types
pub mod Update
pub mod WellFormed
pub mod Rejected
