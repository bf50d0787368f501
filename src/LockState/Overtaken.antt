-- ===== src/LockState/Overtaken.antt =====
-- A lock that runs while an unlock is under way (core/lock_state.rs): the unlock has taken its
-- generation and not yet stored its session when the whole of `lock` runs.
use viper_vault.Base.{
  Bool, ℕ, ◌+◌, ◌≤◌, ◌<◌, ◌≡◌, ◌≢◌, refl, ◌∙◌, Option, none, some, List, [], ◌∷◌, arith,
}
use viper_vault.LockState.Types.{Session, unlocked, Task, VaultLockManager}
use viper_vault.LockState.Timer.{
  u64_modulus, succ_generation, abort, abort_task, lock, TimerEvent, timer_step, run_timers,
}
use viper_vault.LockState.Effects.{
  Effect, idle, retimed, ended, expired, panicked, timer_step-Effect,
}
use viper_vault.LockState.Tasks.{
  AllTasks, AllTasks-update, AllTasks-remove, AllTasks-find, AllTasks-weaken,
}
use viper_vault.LockState.Waiting.{AreDated}
use viper_vault.LockState.Races.{unlocking, advance, advance_by}

-- Open, and no task has the current generation.
record IsUnattended (m : VaultLockManager) (s : Session) : Type 0 where
  opened : m.state ≡ unlocked s
  strangers : AllTasks (λ u. m.generation ≢ u.generation) m.tasks

Effect-IsUnattended :
    (m n : VaultLockManager) (s : Session) {p : Bool} {i : ℕ}
    → Effect p i m n
    → IsUnattended m s
    → IsUnattended n s
Effect-IsUnattended m n s (idle e) h = rw e h
Effect-IsUnattended m n s (retimed u f i k r e) h = rw e (record {
  opened = h.opened;
  strangers =
      AllTasks-update (λ x. m.generation ≢ x.generation) u.id f m.tasks
        (λ x k q. k (q ∙ r.generation x)) h.strangers;
})
Effect-IsUnattended m n s (ended u i k why e) h = rw e (record {
  opened = h.opened;
  strangers = AllTasks-remove (λ x. m.generation ≢ x.generation) u.id m.tasks h.strangers;
})
Effect-IsUnattended m n s (panicked u i k p e) h = rw e (record {
  opened = h.opened;
  strangers = AllTasks-remove (λ x. m.generation ≢ x.generation) u.id m.tasks h.strangers;
})
Effect-IsUnattended m n s (expired u i k same e) h =
    absurd (AllTasks-find (λ x. m.generation ≢ x.generation) u.id m.tasks h.strangers k same)

run_timers-unlocked :
    (es : List TimerEvent) (m : VaultLockManager) (s : Session)
    → IsUnattended m s
    → (run_timers m es).state ≡ unlocked s
unfolding run_timers
run_timers-unlocked [] m s h = h.opened
run_timers-unlocked (e ∷ es) m s h =
    run_timers-unlocked es (timer_step m e) s
      (Effect-IsUnattended m (timer_step m e) s (timer_step-Effect m e) h)

-- The manager when the lock has run after the unlock's first step, and the unlock then to its end.
abbrev pub overtaken : VaultLockManager → Session → ℕ → VaultLockManager
overtaken m s timeout =
    let (call, bumped) = advance (unlocking s timeout) m in (advance_by 5 call (lock bumped)).1

aborts-strangers :
    (o : Option ℕ) (g : ℕ) (ts : List Task)
    → AllTasks (λ u. g ≢ u.generation) ts
    → AllTasks (λ u. g ≢ u.generation) (abort_task o ts)
unfolding abort_task
aborts-strangers none g ts h = h
aborts-strangers (some i) g ts h = AllTasks-update (λ u. g ≢ u.generation) i abort ts (λ t k. k) h

overtaken-IsUnattended :
    (m : VaultLockManager) (s : Session) (timeout : ℕ)
    → AreDated m
    → m.generation + 2 < u64_modulus
    → IsUnattended (overtaken m s timeout) s
unfolding advance_by lock succ_generation abort_task
overtaken-IsUnattended m s timeout h fits = record {
  opened = refl;
  strangers = (
    (λ q. absurd (omega arith)),
    aborts-strangers m.auto_lock_task _ m.tasks
        (AllTasks-weaken (λ u. u.generation ≤ m.generation) _ m.tasks (λ t k q. omega arith) h),
  );
}

-- A lock that overtakes an unlock is lost, and with it the auto-lock: the vault ends unlocked on
-- the session, and no events of timers, at whatever instants, ever lock it. This holds from every
-- manager whose tasks captured published generations.
pub overtaken_never_locks :
    (m : VaultLockManager) (s : Session) (timeout : ℕ) (es : List TimerEvent)
    → AreDated m
    → m.generation + 2 < u64_modulus
    → (run_timers (overtaken m s timeout) es).state ≡ unlocked s
overtaken_never_locks m s timeout es h fits =
    run_timers-unlocked es (overtaken m s timeout) s (overtaken-IsUnattended m s timeout h fits)
