-- ===== src/Entries/Error.antt =====
-- Errors of entries and CRUD operations: core/crates/vipervault-core/src/entries/error.rs.
pub data EntryError : Type 0 where
  empty_field field_too_large forbidden_chars suspicious_unicode vault_locked : EntryError
  entry_not_found duplicate_entry reauth_required policy_denied invalid_type : EntryError
  invalid_data : EntryError
