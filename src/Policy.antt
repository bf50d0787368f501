-- ===== src/Policy.antt =====
-- The policy matrix: core/crates/vipervault-core/src/core/policy.rs. A live probe is the argument
-- `probed`, the state that `current_runtime_inspection_state` answers.
pub mod Matrix
use viper_vault.Base.{Bool, true, false, not, ◌&&◌}
use viper_vault.Session.{
  SensitiveOperation, export, signed_backup_transfer, reveal_secret, copy_secret, copy_totp,
  change_security_settings, UnlockOutcome, primary, RuntimeInspectionState, is_not_debugged,
  is_restrictive, is_tamper_suspected, is_decoy_outcome,
}

pub record PolicyContext : Type 0 where
  pub outcome : UnlockOutcome
  pub runtime_state : RuntimeInspectionState

abbrev pub from_parts : UnlockOutcome → RuntimeInspectionState → PolicyContext
from_parts o s = record { outcome = o; runtime_state = s }

-- `PolicyContext::new`, which captures the probed state.
abbrev pub new : UnlockOutcome → (probed : RuntimeInspectionState) → PolicyContext
new o probed = record { outcome = o; runtime_state = probed }

unfoldable pub is_decoy : PolicyContext → Bool
unfolding is_decoy_outcome
is_decoy p = is_decoy_outcome p.outcome

unfoldable pub is_runtime_restrictive : PolicyContext → Bool
unfolding is_restrictive
is_runtime_restrictive p = is_restrictive p.runtime_state

unfoldable pub policy_tamper_suspected : PolicyContext → Bool
unfolding is_tamper_suspected
policy_tamper_suspected p = is_tamper_suspected p.runtime_state

unfoldable pub allow_secret_export_for_state : PolicyContext → RuntimeInspectionState → Bool
unfolding is_decoy is_not_debugged
allow_secret_export_for_state p s = not (is_decoy p) && is_not_debugged s

unfoldable pub allow_secret_export : PolicyContext → Bool
unfolding allow_secret_export_for_state
allow_secret_export p = allow_secret_export_for_state p p.runtime_state

unfoldable pub allow_plaintext_export : PolicyContext → Bool
unfolding allow_secret_export
allow_plaintext_export p = allow_secret_export p

unfoldable pub allow_plaintext_import_for_state : PolicyContext → RuntimeInspectionState → Bool
unfolding is_decoy is_not_debugged
allow_plaintext_import_for_state p s = not (is_decoy p) && is_not_debugged s

unfoldable pub allow_plaintext_import : PolicyContext → Bool
unfolding allow_plaintext_import_for_state
allow_plaintext_import p = allow_plaintext_import_for_state p p.runtime_state

unfoldable pub allow_biometric_unlock_for_state : PolicyContext → RuntimeInspectionState → Bool
unfolding is_decoy is_not_debugged
allow_biometric_unlock_for_state p s = not (is_decoy p) && is_not_debugged s

unfoldable pub allow_biometric_unlock : PolicyContext → Bool
unfolding allow_biometric_unlock_for_state
allow_biometric_unlock p = allow_biometric_unlock_for_state p p.runtime_state

unfoldable pub allow_signed_backup_transfer_for_state :
    PolicyContext → RuntimeInspectionState → Bool
unfolding is_decoy is_not_debugged
allow_signed_backup_transfer_for_state p s = not (is_decoy p) && is_not_debugged s

unfoldable pub allow_signed_backup_transfer : PolicyContext → Bool
unfolding allow_signed_backup_transfer_for_state
allow_signed_backup_transfer p = allow_signed_backup_transfer_for_state p p.runtime_state

unfoldable pub allow_otpauth_import_for_state : PolicyContext → RuntimeInspectionState → Bool
unfolding is_decoy is_not_debugged
allow_otpauth_import_for_state p s = not (is_decoy p) && is_not_debugged s

unfoldable pub allow_otpauth_import : PolicyContext → Bool
unfolding allow_otpauth_import_for_state
allow_otpauth_import p = allow_otpauth_import_for_state p p.runtime_state

unfoldable pub allow_clipboard_copy_for_state : PolicyContext → RuntimeInspectionState → Bool
unfolding is_decoy is_not_debugged
allow_clipboard_copy_for_state p s = not (is_decoy p) && is_not_debugged s

unfoldable pub allow_clipboard_copy : PolicyContext → Bool
unfolding allow_clipboard_copy_for_state
allow_clipboard_copy p = allow_clipboard_copy_for_state p p.runtime_state

unfoldable pub allow_totp_copy : PolicyContext → Bool
unfolding allow_clipboard_copy
allow_totp_copy p = allow_clipboard_copy p

unfoldable pub allow_secret_reveal : PolicyContext → Bool
unfolding is_decoy is_not_debugged
allow_secret_reveal p = not (is_decoy p) && is_not_debugged p.runtime_state

unfoldable pub requires_short_autolock : PolicyContext → Bool
unfolding is_restrictive
requires_short_autolock p = is_restrictive p.runtime_state

unfoldable pub requires_strong_reauth_for_sensitive_ops : PolicyContext → Bool
unfolding is_restrictive
requires_strong_reauth_for_sensitive_ops p = is_restrictive p.runtime_state

unfoldable pub allow_sensitive_operation : PolicyContext → SensitiveOperation → Bool
unfolding allow_plaintext_export allow_signed_backup_transfer allow_secret_reveal
    allow_clipboard_copy allow_totp_copy is_decoy is_runtime_restrictive
allow_sensitive_operation p export = allow_plaintext_export p
allow_sensitive_operation p signed_backup_transfer = allow_signed_backup_transfer p
allow_sensitive_operation p reveal_secret = allow_secret_reveal p
allow_sensitive_operation p copy_secret = allow_clipboard_copy p
allow_sensitive_operation p copy_totp = allow_totp_copy p
allow_sensitive_operation p change_security_settings =
    not (is_decoy p) && not (is_runtime_restrictive p)

abbrev pub current_primary_runtime_policy : (probed : RuntimeInspectionState) → PolicyContext
current_primary_runtime_policy probed = from_parts primary probed

unfoldable pub allow_plaintext_export_under_runtime_policy :
    (probed : RuntimeInspectionState) → Bool
unfolding allow_plaintext_export
allow_plaintext_export_under_runtime_policy probed =
    allow_plaintext_export (current_primary_runtime_policy probed)

unfoldable pub allow_clipboard_exposure_under_runtime_policy :
    (probed : RuntimeInspectionState) → Bool
unfolding allow_clipboard_copy
allow_clipboard_exposure_under_runtime_policy probed =
    allow_clipboard_copy (current_primary_runtime_policy probed)
