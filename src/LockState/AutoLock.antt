-- ===== src/LockState/AutoLock.antt =====
-- The auto-lock guarantee of core/lock_state.rs when each call runs to its end before the next one:
-- an unlocked vault has a live timer of its own generation while no addition of an instant overflows.
use mathlib.Core.Path.{subst}
use viper_vault.Base.{Bool, false, ℕ, ◌≡◌, ◌⊎◌, inl, inr, refl, ap, ◌∙◌, List, [], ◌∷◌}
use viper_vault.Session.{
  RuntimeSecurityEvent, app_backgrounded, device_locked, biometric_set_changed,
  quick_unlock_invalidated, runtime_became_restrictive,
}
use viper_vault.LockState.Types.{Session, VaultState, locked, unlocked, Task, VaultLockManager}
use viper_vault.LockState.Timer.{set_state, notify_activity, notify_one, subject, timer_step}
use viper_vault.LockState.Posture.{change_session, handle_runtime_security_event}
use viper_vault.LockState.History.{
  locks, touches, marks, clears, sets_runtime, refreshes, receives, polls, rewrites, ManagerStep,
  opens, proceeds, manager_step, run_manager,
}
use viper_vault.LockState.Effects.{
  Effect, idle, retimed, ended, expired, panicked, overflows, timer_step-Effect,
}
use viper_vault.LockState.Guard.{
  IsGuard, fresh_guard, unlock-IsGuard, guard-set_state, guard-notify, guard-Effect,
}

-- A vault that is unlocked has a guard.
abbrev pub IsGuarded : VaultLockManager → Type 0
IsGuarded m = (m.state ≡ locked) ⊎ ((t : Task) × IsGuard m t)

change-locked : (f : Session → Session) (v : VaultState) → v ≡ locked → change_session f v ≡ locked
change-locked f locked h = refl
change-locked f (unlocked s) h = cc

change-IsGuarded :
    (m : VaultLockManager) (f : Session → Session)
    → IsGuarded m
    → IsGuarded (set_state (change_session f m.state) m)
change-IsGuarded m f (inl e) = inl (change-locked f m.state e)
change-IsGuarded m f (inr (t, g)) = inr (t, guard-set_state m t g (change_session f m.state))

notify-IsGuarded : (m : VaultLockManager) → IsGuarded m → IsGuarded (notify_activity m)
unfolding notify_activity
notify-IsGuarded m (inl e) = inl e
notify-IsGuarded m (inr (t, g)) = inr (notify_one m.notify t, guard-notify m t g)

receive-IsGuarded :
    (m : VaultLockManager) (e : RuntimeSecurityEvent)
    → IsGuarded m
    → IsGuarded (handle_runtime_security_event m e)
unfolding handle_runtime_security_event
receive-IsGuarded m app_backgrounded h = change-IsGuarded m _ h
receive-IsGuarded m device_locked h = inl refl
receive-IsGuarded m biometric_set_changed h = inl refl
receive-IsGuarded m quick_unlock_invalidated h = inl refl
receive-IsGuarded m runtime_became_restrictive h = inl refl

Effect-locked :
    (m n : VaultLockManager) {p : Bool} {i : ℕ}
    → Effect p i m n
    → m.state ≡ locked
    → n.state ≡ locked
Effect-locked m n (idle e) h = ap (λ x. x.state) e ∙ h
Effect-locked m n (retimed u f i k r e) h = ap (λ x. x.state) e ∙ h
Effect-locked m n (ended u i k why e) h = ap (λ x. x.state) e ∙ h
Effect-locked m n (expired u i k same e) h = ap (λ x. x.state) e
Effect-locked m n (panicked u i k p e) h = ap (λ x. x.state) e ∙ h

timer-IsGuarded : (m n : VaultLockManager) {i : ℕ} → Effect false i m n → IsGuarded m → IsGuarded n
timer-IsGuarded m n f (inr (t, g)) = elim (guard-Effect m t g n f) [
  | inl e ↦ inl e
  | inr (u, _, k) ↦ inr (u, k)
]
timer-IsGuarded m n f (inl e) = inl (Effect-locked m n f e)

-- The step is no poll in which `Instant::now() + timeout` overflows.
abbrev pub IsInRange : ManagerStep → Type 0
IsInRange (opens s timeout) = Unit {0}
IsInRange (proceeds (polls e)) = overflows e ≡ false
IsInRange (proceeds x) = Unit {0}

abbrev pub AllInRange : List ManagerStep → Type 0
AllInRange [] = Unit {0}
AllInRange (x ∷ xs) = IsInRange x × AllInRange xs

manager_step-IsGuarded :
    (m : VaultLockManager) (x : ManagerStep)
    → IsInRange x
    → IsGuarded m
    → IsGuarded (manager_step m x)
unfolding manager_step
manager_step-IsGuarded m (opens s timeout) r h =
    inr (fresh_guard m timeout, unlock-IsGuard m s timeout)
manager_step-IsGuarded m (proceeds locks) r h = inl refl
manager_step-IsGuarded m (proceeds touches) r h = notify-IsGuarded m h
manager_step-IsGuarded m (proceeds marks) r h = change-IsGuarded m _ h
manager_step-IsGuarded m (proceeds clears) r h = change-IsGuarded m _ h
manager_step-IsGuarded m (proceeds (sets_runtime v)) r h = change-IsGuarded m _ h
manager_step-IsGuarded m (proceeds (refreshes v)) r h = change-IsGuarded m _ h
manager_step-IsGuarded m (proceeds (receives e)) r h = receive-IsGuarded m e h
manager_step-IsGuarded m (proceeds (polls e)) r h =
    timer-IsGuarded m (timer_step m e)
      (subst (λ p. Effect p (subject e) m (timer_step m e)) r (timer_step-Effect m e)) h
manager_step-IsGuarded m (proceeds (rewrites json)) r h = change-IsGuarded m _ h

-- After any unlocks, locks, activity, events, probes, rewrites and timer steps, each run to its end
-- before the next, a manager that started locked or guarded is locked or guarded: it has a live task of
-- the current generation and `Notify`, whose handle it holds. No poll of a task adds a timeout to an
-- instant that the clock cannot represent: that addition panics and ends the task.
pub run_manager-IsGuarded :
    (xs : List ManagerStep) (m : VaultLockManager)
    → AllInRange xs
    → IsGuarded m
    → IsGuarded (run_manager m xs)
unfolding run_manager
run_manager-IsGuarded [] m r h = h
run_manager-IsGuarded (x ∷ xs) m r h =
    run_manager-IsGuarded xs (manager_step m x) r.1 (manager_step-IsGuarded m x r.0 h)
