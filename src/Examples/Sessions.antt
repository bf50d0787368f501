-- ===== src/Examples/Sessions.antt =====
-- Sessions of the vault manager (core/lock_state.rs, core/policy.rs): a real one and a decoy.
use viper_vault.Base.{
  ◌^◌, ℕ, ◌≡◌, ◌≢◌, ◌↔◌, refl, List, [], ◌∷◌, true, false, ok, inl, inr, ◌+◌, ◌≤◌, arith,
}
use viper_vault.Session.{
  strong, primary, decoy, not_debugged, app_backgrounded, reveal_secret, copy_totp,
}
use viper_vault.Policy.{from_parts}
use viper_vault.LockState.Types.{Session, locked, unlocked}
use viper_vault.LockState.Timer.{
  new, unlock_session, TimerEvent, started, fired, woken, overflowed, timer_step, run_timers,
  notify_activity,
}
use viper_vault.LockState.Posture.{authorize_sensitive_operation, handle_runtime_security_event}
use viper_vault.LockState.History.{
  clears, sets_runtime, touches, polls, refreshes, run_session, opens, proceeds, run_manager,
}
use viper_vault.LockState.Authorize.{IsCleared, authorize_iff}
use viper_vault.LockState.Ceiling.{barred_never_authorized, pending_never_authorized, event_revokes}
use viper_vault.LockState.AutoLock.{IsGuarded, run_manager-IsGuarded}
use viper_vault.LockState.Deadline.{IsWaiting}
use viper_vault.LockState.Waiting.{
  unlock_auto_locks, armed_manager, armed_guard, extended_guard, activity_extends, unlock-IsWaiting,
}
use viper_vault.LockState.Overtaken.{overtaken, overtaken_never_locks}

abbrev real_session : Session
real_session = record {
  plaintext_json = b'{' ∷ b'}' ∷ [];
  auth_strength = strong;
  strong_reauth_required = false;
  unlock_outcome = primary;
  runtime_state = not_debugged;
}

abbrev decoy_session : Session
decoy_session = record real_session { unlock_outcome = decoy }

abbrev pending_session : Session
pending_session = record real_session { strong_reauth_required = true }

authorize_iff_example :
    (authorize_sensitive_operation (unlock_session new real_session 60) reveal_secret
      ≡ ok (from_parts primary not_debugged))
    ↔ ((s : Session) × ((unlock_session new real_session 60).state ≡ unlocked s)
        × IsCleared s
        × (from_parts primary not_debugged ≡ from_parts s.unlock_outcome s.runtime_state))
authorize_iff_example =
    authorize_iff (unlock_session new real_session 60) reveal_secret
      (from_parts primary not_debugged)

barred_never_authorized_example :
    authorize_sensitive_operation
      (run_session (unlock_session new decoy_session 60) (clears ∷ sets_runtime not_debugged ∷ []))
      reveal_secret
    ≢ ok (from_parts decoy not_debugged)
unfolding unlock_session
barred_never_authorized_example =
    barred_never_authorized (unlock_session new decoy_session 60)
      (clears ∷ sets_runtime not_debugged ∷ []) reveal_secret (from_parts decoy not_debugged)
      (inr refl)

pending_never_authorized_example :
    authorize_sensitive_operation
      (run_session (unlock_session new pending_session 60) (touches ∷ refreshes not_debugged ∷ []))
      copy_totp
    ≢ ok (from_parts primary not_debugged)
unfolding unlock_session
pending_never_authorized_example =
    pending_never_authorized (unlock_session new pending_session 60)
      (touches ∷ refreshes not_debugged ∷ []) copy_totp (from_parts primary not_debugged)
      ((λ q. cc), ((λ q. cc), tt)) refl

event_revokes_example :
    authorize_sensitive_operation
      (run_session
        (handle_runtime_security_event (unlock_session new real_session 60) app_backgrounded)
        (sets_runtime not_debugged ∷ []))
      reveal_secret
    ≢ ok (from_parts primary not_debugged)
event_revokes_example =
    event_revokes (unlock_session new real_session 60) app_backgrounded
      (sets_runtime not_debugged ∷ []) reveal_secret (from_parts primary not_debugged)
      ((λ q. cc), tt)

run_manager-IsGuarded_example : IsGuarded (
    run_manager new (
      opens real_session 60
      ∷ proceeds (polls (started 0 5))
      ∷ opens decoy_session 30
      ∷ proceeds (polls (fired 0 90))
      ∷ []))
run_manager-IsGuarded_example =
    run_manager-IsGuarded
      (opens real_session 60
        ∷ proceeds (polls (started 0 5))
        ∷ opens decoy_session 30
        ∷ proceeds (polls (fired 0 90))
        ∷ [])
      new (tt, (refl, (tt, (refl, tt)))) (inl refl)

-- A timeout that the clock cannot add ends the task at its first poll, and nothing locks the vault.
overflow_stays :
    (run_timers
      (unlock_session new real_session (2 ^ 80))
      (overflowed 0 ∷ fired 0 (2 ^ 90) ∷ [])).state
    ≡ unlocked real_session
unfolding run_timers unlock_session
overflow_stays = refl

-- The first task of a new manager, polled at instant 5 and woken early at 40.
abbrev early_events : List TimerEvent
early_events = fired 0 40 ∷ woken 0 50 ∷ []

unlock_auto_locks_example :
    let q =
      run_timers (timer_step (unlock_session new real_session 60) (started 0 5)) early_events in
    (q.state ≡ unlocked real_session)
    × ((later : ℕ) → 5 + 60 ≤ later → (timer_step q (fired 0 later)).state ≡ locked)
unlock_auto_locks_example =
    unlock_auto_locks new real_session 60 5 early_events tt (omega arith)
      ((λ _. omega arith), (tt, tt))

activity_extends_example :
    IsWaiting
      (timer_step (notify_activity (armed_manager new real_session 60 5)) (woken 0 30))
      (extended_guard (armed_guard new 60 5) 30)
      (30 + 60)
      real_session
activity_extends_example =
    activity_extends (armed_manager new real_session 60 5) (armed_guard new 60 5) 65 real_session
      (unlock-IsWaiting new real_session 60 5 tt (omega arith)) 30

overtaken_never_locks_example :
    (run_timers (overtaken new real_session 60) (started 0 5 ∷ fired 0 1000 ∷ [])).state
    ≡ unlocked real_session
overtaken_never_locks_example =
    overtaken_never_locks new real_session 60 (started 0 5 ∷ fired 0 1000 ∷ []) tt (omega arith)
