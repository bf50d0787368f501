-- ===== src/Vault.antt =====
-- The vault container: core/crates/vipervault-core/src/vault.
pub mod Types
pub mod Codec
pub mod Duress
pub mod Create
pub mod Migrate
pub mod Storage
