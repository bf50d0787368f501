-- ===== src/Import.antt =====
-- Importing: core/crates/vipervault-core/src/import and its errors.
pub mod Error
pub mod Signed
pub mod Session
pub mod Commit
