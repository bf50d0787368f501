-- ===== src/Policy/Matrix.antt =====
-- What the policy matrix of core/policy.rs decides: one condition for every gate.
use viper_vault.Base.{true, false, ◌≡◌, ◌↔◌, arith}
use viper_vault.Session.{SensitiveOperation, primary, not_debugged}
use viper_vault.Policy.{
  PolicyContext, allow_plaintext_import, allow_biometric_unlock, allow_signed_backup_transfer,
  allow_otpauth_import, allow_clipboard_copy, allow_secret_reveal, allow_sensitive_operation,
  requires_short_autolock, requires_strong_reauth_for_sensitive_ops, allow_plaintext_export,
}

-- The session of the real vault in a clean runtime.
abbrev pub IsTrusted : PolicyContext → Type 0
IsTrusted p = (p.outcome ≡ primary) × (p.runtime_state ≡ not_debugged)

-- Every sensitive operation is allowed exactly in a primary session whose runtime state is
-- `NotDebugged`: the matrix has no operation that a decoy session or another runtime state passes.
pub allow_sensitive_operation_iff :
    (p : PolicyContext) (op : SensitiveOperation)
    → (allow_sensitive_operation p op ≡ true) ↔ IsTrusted p
unfolding allow_sensitive_operation
allow_sensitive_operation_iff p op = ground arith

-- The gates of import, unlock, export and clipboard agree with the operation matrix: each allows
-- exactly the trusted sessions.
pub gates_iff :
    (p : PolicyContext)
    → ((allow_plaintext_export p ≡ true) ↔ IsTrusted p)
      × ((allow_plaintext_import p ≡ true) ↔ IsTrusted p)
      × ((allow_biometric_unlock p ≡ true) ↔ IsTrusted p)
      × ((allow_signed_backup_transfer p ≡ true) ↔ IsTrusted p)
      × ((allow_otpauth_import p ≡ true) ↔ IsTrusted p)
      × ((allow_clipboard_copy p ≡ true) ↔ IsTrusted p)
      × ((allow_secret_reveal p ≡ true) ↔ IsTrusted p)
unfolding allow_plaintext_export allow_plaintext_import allow_biometric_unlock
    allow_signed_backup_transfer allow_otpauth_import allow_clipboard_copy allow_secret_reveal
gates_iff p = (
  ground arith,
  ground arith,
  ground arith,
  ground arith,
  ground arith,
  ground arith,
  ground arith,
)

-- Under policy no operation is both allowed and in need of a posture downgrade.
pub allowed-not_short_autolock :
    (p : PolicyContext) (op : SensitiveOperation)
    → allow_sensitive_operation p op ≡ true
    → (requires_short_autolock p ≡ false) × (requires_strong_reauth_for_sensitive_ops p ≡ false)
unfolding allow_sensitive_operation requires_short_autolock requires_strong_reauth_for_sensitive_ops
allowed-not_short_autolock p op h = ground arith
