-- ===== src/LockState/History.antt =====
-- What may happen to a session between two unlocks: the calls that other threads, the runtime and
-- the platform make on one `VaultLockManager` (core/lock_state.rs), as a list of complete steps.
use viper_vault.Base.{ℕ, List, [], ◌∷◌, Bytes}
use viper_vault.Session.{RuntimeInspectionState, RuntimeSecurityEvent}
use viper_vault.LockState.Types.{Session, VaultLockManager}
use viper_vault.LockState.Timer.{TimerEvent, timer_step, lock, unlock_session, notify_activity}
use viper_vault.LockState.Posture.{
  change_session, set_runtime_policy_state, refresh_runtime_policy_state,
  mark_strong_reauth_required, clear_strong_reauth_requirement, handle_runtime_security_event,
}

-- `rewrites` is the effect of `with_unlocked_payload_mut`: a new plaintext buffer.
pub data SessionStep : Type 0 where
  locks touches marks clears : SessionStep
  sets_runtime refreshes : RuntimeInspectionState → SessionStep
  receives : RuntimeSecurityEvent → SessionStep
  polls : TimerEvent → SessionStep
  rewrites : Bytes → SessionStep

abbrev pub rewrite_json : Bytes → VaultLockManager → VaultLockManager
rewrite_json json m = record m {
  state = change_session (λ s. record s { plaintext_json = json }) m.state;
}

unfoldable pub session_step : VaultLockManager → SessionStep → VaultLockManager
unfolding lock notify_activity mark_strong_reauth_required clear_strong_reauth_requirement
    set_runtime_policy_state refresh_runtime_policy_state handle_runtime_security_event timer_step
session_step m locks = lock m
session_step m touches = notify_activity m
session_step m marks = (mark_strong_reauth_required m).0
session_step m clears = (clear_strong_reauth_requirement m).0
session_step m (sets_runtime r) = (set_runtime_policy_state m r).0
session_step m (refreshes r) = (refresh_runtime_policy_state m r).0
session_step m (receives e) = handle_runtime_security_event m e
session_step m (polls e) = timer_step m e
session_step m (rewrites json) = rewrite_json json m

unfoldable pub run_session : VaultLockManager → List SessionStep → VaultLockManager
unfolding session_step
run_session m [] = m
run_session m (x ∷ xs) = run_session (session_step m x) xs

-- The manager's whole life: unlocks, each with the session that it stores and its timeout, and what
-- happens in between.
pub data ManagerStep : Type 0 where
  opens : Session → ℕ → ManagerStep
  proceeds : SessionStep → ManagerStep

unfoldable pub manager_step : VaultLockManager → ManagerStep → VaultLockManager
unfolding unlock_session session_step
manager_step m (opens s timeout) = unlock_session m s timeout
manager_step m (proceeds x) = session_step m x

unfoldable pub run_manager : VaultLockManager → List ManagerStep → VaultLockManager
unfolding manager_step
run_manager m [] = m
run_manager m (x ∷ xs) = run_manager (manager_step m x) xs
