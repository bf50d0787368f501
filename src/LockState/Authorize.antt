-- ===== src/LockState/Authorize.antt =====
-- When `authorize_sensitive_operation` of core/lock_state.rs lets an operation through, and that no
-- history of a session raises what it was unlocked with.
use viper_vault.Base.{◌≡◌, ◌↔◌, inl, inr, false, not, ◌||◌, ok, err, arith, if◌then◌else◌}
use viper_vault.Session.{
  strong, primary, not_debugged, is_strong, is_not_debugged, SensitiveOperation, is_decoy_outcome,
}
use viper_vault.Policy.{PolicyContext, from_parts}
use viper_vault.Entries.Error.{vault_locked, policy_denied, reauth_required}
use viper_vault.LockState.Types.{Session, locked, unlocked, VaultLockManager, VaultState-cases}
use viper_vault.LockState.Posture.{authorize_sensitive_operation}

-- The session is the real vault's, in a clean runtime, was opened by a strong authentication and
-- has no pending re-authentication.
pub record IsCleared (s : Session) : Type 0 where
  pub real : s.unlock_outcome ≡ primary
  pub clean : s.runtime_state ≡ not_debugged
  pub strongly : s.auth_strength ≡ strong
  pub settled : s.strong_reauth_required ≡ false

-- What authorization answers in every state: `VaultLocked` when the vault is locked; else
-- `PolicyDenied` in a decoy session or a runtime that is not clean, whatever the
-- re-authentication flag; else `ReauthRequired` when the flag is set or the session is not
-- strong; else the session's own policy context. The operation does not matter.
pub authorize_lem :
    (m : VaultLockManager) (op : SensitiveOperation)
    → authorize_sensitive_operation m op ≡ elim m.state [
      | locked ↦ err vault_locked
      | unlocked s ↦
          if is_decoy_outcome s.unlock_outcome || not (is_not_debugged s.runtime_state)
          then err policy_denied
          else if s.strong_reauth_required || not (is_strong s.auth_strength)
          then err reauth_required
          else ok (from_parts s.unlock_outcome s.runtime_state)
    ]
unfolding authorize_sensitive_operation
authorize_lem m op = ground arith

-- An operation is authorized exactly in an unlocked session that is cleared, and the context that
-- comes back is that session's.
pub authorize_iff :
    (m : VaultLockManager) (op : SensitiveOperation) (p : PolicyContext)
    → (authorize_sensitive_operation m op ≡ ok p) ↔ (
        (s : Session) × (m.state ≡ unlocked s)
        × IsCleared s
        × (p ≡ from_parts s.unlock_outcome s.runtime_state))
unfolding authorize_sensitive_operation
authorize_iff m op p = (forth, λ (s, e, c, q). ground arith)
  where
    forth :
        authorize_sensitive_operation m op ≡ ok p
        → (s : Session) × (m.state ≡ unlocked s)
          × IsCleared s
          × (p ≡ from_parts s.unlock_outcome s.runtime_state)
    forth h = elim (VaultState-cases m.state) [
      | inl e ↦ absurd (ground arith)
      | inr (s, e) ↦ (
        s,
        e,
        record {
          real = ground arith;
          clean = ground arith;
          strongly = ground arith;
          settled = ground arith;
        },
        ground arith,
      )
    ]
