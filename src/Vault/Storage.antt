-- ===== src/Vault/Storage.antt =====
-- Files on disk: core/crates/vipervault-core/src/vault/storage.rs, its errors in vault/error.rs.
-- The operating system is a parameter; an operation tells the disks that it passes through, so that a
-- crash may happen in the middle of it.
pub mod Disk
pub mod Writer
pub mod Backend
pub mod Locked
pub mod Hoare
pub mod Atomic
pub mod Crash
pub mod Saved
pub mod Reread
