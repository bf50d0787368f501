-- ===== src/Import/Error.antt =====
-- The errors of core/crates/vipervault-core/src/import/error.rs.

pub data ImportError : Type 0 where
  policy_denied auth_failed invalid_format payload_too_large invalid_data : ImportError
