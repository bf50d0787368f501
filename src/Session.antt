-- ===== src/Session.antt =====
-- The security metadata of a session: core/crates/vipervault-core/src/core/session.rs, the runtime
-- inspection state of core/antidebug.rs and the unlock outcome of vault/duress.rs.
-- What the probes of antidebug.rs answer is an argument of the operations that call them.
use viper_vault.Base.{Bool, true, false, not}

pub data AuthenticationStrength : Type 0 where
  strong biometric quick_unlock : AuthenticationStrength

pub data SensitiveOperation : Type 0 where
  export signed_backup_transfer reveal_secret copy_secret copy_totp : SensitiveOperation
  change_security_settings : SensitiveOperation

pub data RuntimeSecurityEvent : Type 0 where
  app_backgrounded device_locked biometric_set_changed quick_unlock_invalidated :
      RuntimeSecurityEvent
  runtime_became_restrictive : RuntimeSecurityEvent

pub data UnlockOutcome : Type 0 where
  primary decoy : UnlockOutcome

pub data RuntimeInspectionState : Type 0 where
  not_debugged debugged unknown tamper_suspected : RuntimeInspectionState

unfoldable pub is_strong : AuthenticationStrength → Bool
is_strong strong = true
is_strong _ = false

-- The match names every variant, and each is `true`.
unfoldable pub op_requires_strong_reauth : SensitiveOperation → Bool
op_requires_strong_reauth export = true
op_requires_strong_reauth signed_backup_transfer = true
op_requires_strong_reauth reveal_secret = true
op_requires_strong_reauth copy_secret = true
op_requires_strong_reauth copy_totp = true
op_requires_strong_reauth change_security_settings = true

unfoldable pub forces_lock : RuntimeSecurityEvent → Bool
forces_lock device_locked = true
forces_lock biometric_set_changed = true
forces_lock quick_unlock_invalidated = true
forces_lock runtime_became_restrictive = true
forces_lock app_backgrounded = false

unfoldable pub event_requires_strong_reauth : RuntimeSecurityEvent → Bool
event_requires_strong_reauth app_backgrounded = true
event_requires_strong_reauth _ = false

-- `matches!(state, RuntimeInspectionState::NotDebugged)`
unfoldable pub is_not_debugged : RuntimeInspectionState → Bool
is_not_debugged not_debugged = true
is_not_debugged _ = false

unfoldable pub is_restrictive : RuntimeInspectionState → Bool
unfolding is_not_debugged
is_restrictive s = not (is_not_debugged s)

unfoldable pub is_tamper_suspected : RuntimeInspectionState → Bool
is_tamper_suspected tamper_suspected = true
is_tamper_suspected _ = false

-- `outcome == UnlockOutcome::Decoy`
unfoldable pub is_decoy_outcome : UnlockOutcome → Bool
is_decoy_outcome decoy = true
is_decoy_outcome primary = false
