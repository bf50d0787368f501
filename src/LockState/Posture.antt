-- ===== src/LockState/Posture.antt =====
-- The session metadata of `VaultLockManager`: its getters, the posture that runtime events and
-- probes change, and the authorization of sensitive operations (core/lock_state.rs).
use viper_vault.Base.{
  Bool, true, false, not, ◌&&◌, ◌||◌, Option, none, some, Result, ok, err, if◌then◌else◌, Done,
}
use viper_vault.Session.{
  AuthenticationStrength, UnlockOutcome, RuntimeInspectionState, is_strong, is_restrictive,
  SensitiveOperation, op_requires_strong_reauth, RuntimeSecurityEvent, forces_lock,
  event_requires_strong_reauth,
}
use viper_vault.Policy.{PolicyContext, from_parts, allow_sensitive_operation}
use viper_vault.Entries.Error.{EntryError, vault_locked, policy_denied, reauth_required}
use viper_vault.LockState.Types.{Session, VaultState, locked, unlocked, VaultLockManager}
use viper_vault.LockState.Timer.{lock}

-- Reading a field of the unlocked session: `none` when the vault is locked.
abbrev pub of_session {ℓ} : {A : Type ℓ} → (Session → A) → VaultState → Option A
of_session f locked = none
of_session f (unlocked s) = some (f s)

-- Changing the unlocked session in place.
abbrev pub change_session : (Session → Session) → VaultState → VaultState
change_session f locked = locked
change_session f (unlocked s) = unlocked (f s)

unfoldable pub current_authentication_strength : VaultLockManager → Option AuthenticationStrength
current_authentication_strength m = of_session (λ s. s.auth_strength) m.state

unfoldable pub current_unlock_outcome : VaultLockManager → Option UnlockOutcome
current_unlock_outcome m = of_session (λ s. s.unlock_outcome) m.state

unfoldable pub current_runtime_state : VaultLockManager → Option RuntimeInspectionState
current_runtime_state m = of_session (λ s. s.runtime_state) m.state

unfoldable pub current_policy_context : VaultLockManager → Option PolicyContext
current_policy_context m = of_session (λ s. from_parts s.unlock_outcome s.runtime_state) m.state

unfoldable pub strong_reauth_required : VaultLockManager → Option Bool
strong_reauth_required m = of_session (λ s. s.strong_reauth_required) m.state

-- A restrictive state sets the sticky flag; a clean one leaves it as it is.
abbrev pub with_runtime : RuntimeInspectionState → Session → Session
with_runtime r s = record s {
  runtime_state = r;
  strong_reauth_required = (if is_restrictive r then true else s.strong_reauth_required);
}

unfoldable pub set_runtime_policy_state :
    VaultLockManager → RuntimeInspectionState → VaultLockManager × Option Done
unfolding is_restrictive
set_runtime_policy_state m r =
    (record m { state = change_session (with_runtime r) m.state }, of_session (λ _. tt) m.state)

unfoldable pub refresh_runtime_policy_state :
    VaultLockManager
    → (probed : RuntimeInspectionState) → VaultLockManager × Option RuntimeInspectionState
unfolding is_restrictive
refresh_runtime_policy_state m probed = (
  record m { state = change_session (with_runtime probed) m.state },
  of_session (λ _. probed) m.state,
)

abbrev pub is_unlocked : VaultState → Bool
is_unlocked locked = false
is_unlocked (unlocked s) = true

unfoldable pub mark_strong_reauth_required : VaultLockManager → VaultLockManager × Bool
mark_strong_reauth_required m = (
  record m { state = change_session (λ s. record s { strong_reauth_required = true }) m.state },
  is_unlocked m.state,
)

unfoldable pub clear_strong_reauth_requirement : VaultLockManager → VaultLockManager × Bool
clear_strong_reauth_requirement m = (
  record m { state = change_session (λ s. record s { strong_reauth_required = false }) m.state },
  is_unlocked m.state,
)

unfoldable pub requires_strong_reauth_for : VaultLockManager → SensitiveOperation → Option Bool
unfolding is_strong op_requires_strong_reauth
requires_strong_reauth_for m op =
    of_session
      (λ s.
        s.strong_reauth_required
        || (not (is_strong s.auth_strength) && op_requires_strong_reauth op))
      m.state

-- The last match of `authorize_sensitive_operation`.
unfoldable pub check_reauth : PolicyContext → Option Bool → Result EntryError PolicyContext
check_reauth p none = err vault_locked
check_reauth p (some true) = err reauth_required
check_reauth p (some false) = ok p

-- The policy gate, on the context that was read first; `reauth` is what the second read answers.
unfoldable pub check_policy :
    Option PolicyContext → SensitiveOperation → Option Bool → Result EntryError PolicyContext
unfolding check_reauth allow_sensitive_operation
check_policy none op reauth = err vault_locked
check_policy (some p) op reauth =
    if not (allow_sensitive_operation p op) then err policy_denied else check_reauth p reauth

unfoldable pub authorize_sensitive_operation :
    VaultLockManager → SensitiveOperation → Result EntryError PolicyContext
unfolding check_policy current_policy_context requires_strong_reauth_for
authorize_sensitive_operation m op =
    check_policy (current_policy_context m) op (requires_strong_reauth_for m op)

unfoldable pub handle_runtime_security_event :
    VaultLockManager → RuntimeSecurityEvent → VaultLockManager
unfolding lock forces_lock event_requires_strong_reauth mark_strong_reauth_required
handle_runtime_security_event m e =
    if forces_lock e
    then lock m
    else if event_requires_strong_reauth e
    then (mark_strong_reauth_required m).0
    else m
