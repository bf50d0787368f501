-- ===== src/LockState/Waiting.antt =====
-- How a vault comes to wait for its auto-lock deadline (core/lock_state.rs): by an unlock whose
-- timer task is polled for the first time, and again after each noted activity.
use mathlib.Core.Path.{subst}
use viper_vault.Base.{
  ℕ, ◌+◌, ◌≤◌, ◌<◌, ◌≡◌, refl, ◌∙◌, true, false, Option, none, some, List, ◌∷◌, arith, ◌==◌,
}
use viper_vault.LockState.Types.{
  Session, locked, unlocked, Task, VaultLockManager, find_task, update_task,
}
use viper_vault.LockState.Timer.{
  u64_modulus, succ_generation, unlock_session, notify_activity, notify_one, abort, abort_task,
  TimerEvent, started, fired, woken, on_notified, poll, timer_step, run_timers,
}
use viper_vault.LockState.Guard.{fresh_guard, guard-notify, IsSameTask, notify_one-IsSameTask}
use viper_vault.LockState.Deadline.{IsOlder, IsWaiting, AllEarly, auto_lock_timing}
use viper_vault.LockState.Tasks.{
  find-update_self, AllTasks, AllTasks-update, AllTasks-map, AllTasks-weaken,
}

-- No task captured a generation that is not yet published.
abbrev pub AreDated : VaultLockManager → Type 0
AreDated m = AllTasks (λ u. u.generation ≤ m.generation) m.tasks

abort_task-dated :
    (o : Option ℕ) (g : ℕ) (ts : List Task)
    → AllTasks (λ u. u.generation ≤ g) ts
    → AllTasks (λ u. u.generation ≤ g) (abort_task o ts)
unfolding abort_task
abort_task-dated none g ts h = h
abort_task-dated (some i) g ts h = AllTasks-update (λ u. u.generation ≤ g) i abort ts (λ t k. k) h

-- The guard of an unlock, once its loop has computed the deadline.
abbrev pub armed_guard : VaultLockManager → ℕ → ℕ → Task
armed_guard m timeout now = record (fresh_guard m timeout) { deadline = some (now + timeout) }

abbrev pub armed_manager : VaultLockManager → Session → ℕ → ℕ → VaultLockManager
armed_manager m s timeout now = record {
  state = unlocked s;
  notify = m.next_notify;
  auto_lock_task = some m.next_task;
  generation = succ_generation m.generation;
  tasks = armed_guard m timeout now ∷ abort_task m.auto_lock_task m.tasks;
  next_notify = m.next_notify + 1;
  next_task = m.next_task + 1;
}

-- An unlock and the first poll of its task, in closed form.
pub unlock-armed :
    (m : VaultLockManager) (s : Session) (timeout now : ℕ)
    → timer_step (unlock_session m s timeout) (started m.next_task now)
      ≡ armed_manager m s timeout now
unfolding timer_step unlock_session find_task update_task poll
unlock-armed m s timeout now = ground arith

pub unlock-IsWaiting :
    (m : VaultLockManager) (s : Session) (timeout now : ℕ)
    → AreDated m
    → m.generation + 1 < u64_modulus
    → IsWaiting (armed_manager m s timeout now) (armed_guard m timeout now) (now + timeout) s
unfolding find_task succ_generation
unlock-IsWaiting m s timeout now h fits = record {
  guard = record {
    handle = refl;
    present = ground arith;
    current = refl;
    listening = refl;
    alive = refl;
  };
  opened = refl;
  due = refl;
  quiet = refl;
  older = (
    (λ n. absurd (n refl)),
    AllTasks-weaken (λ u. u.generation ≤ m.generation) _ (abort_task m.auto_lock_task m.tasks)
        (λ t k n. omega arith) (abort_task-dated m.auto_lock_task m.generation m.tasks h),
  );
}

-- From any manager whose tasks captured published generations (fewer than 2 ^ 64 - 1 of them): after
-- an unlock with a timeout, whose task is first polled at `now`, no timer events lock the vault
-- as long as that task does not fire at `now + timeout` or later, and when it does the vault is
-- locked.
pub unlock_auto_locks :
    (m : VaultLockManager) (s : Session) (timeout now : ℕ) (es : List TimerEvent)
    → AreDated m
    → m.generation + 1 < u64_modulus
    → AllEarly m.next_task (now + timeout) es
    → let q = run_timers (timer_step (unlock_session m s timeout) (started m.next_task now)) es in
      (q.state ≡ unlocked s)
      × ((later : ℕ)
          → now + timeout ≤ later
          → (timer_step q (fired m.next_task later)).state ≡ locked)
unlock_auto_locks m s timeout now es h fits early = rw (unlock-armed m s timeout now) (
    auto_lock_timing es (armed_manager m s timeout now) (armed_guard m timeout now) (now + timeout)
      s (unlock-IsWaiting m s timeout now h fits) early)

-- The guard after an activity that its loop has noted at `now`.
abbrev pub extended_guard : Task → ℕ → Task
extended_guard t now = record t { deadline = some (now + t.timeout); permit = false }

module _ (m : VaultLockManager) (t : Task) (d : ℕ) (s : Session) (w : IsWaiting m t d s) where
  noted : Task
  noted = record t { permit = true }

  noted-lem : notify_one m.notify t ≡ noted
  unfolding notify_one noted
  noted-lem = ground (arith, w.guard.listening)

  noted-present : find_task t.id (notify_activity m).tasks ≡ some noted
  unfolding noted
  noted-present =
      subst (λ u. find_task u.id (notify_activity m).tasks ≡ some u) noted-lem
        (guard-notify m t w.guard).present

  woken-lem :
      (now : ℕ)
      → timer_step (notify_activity m) (woken t.id now) ≡ record (notify_activity m) {
        tasks =
            update_task t.id
              (λ x. record x { deadline = some (now + x.timeout); permit = false })
              (notify_activity m).tasks;
      }
  unfolding timer_step noted on_notified notify_activity
  woken-lem now =
      let same : (m.generation == t.generation) ≡ true = ground (arith, w.guard.current) in
      rw (noted-present, timer_step) (rw (w.due, poll) (rw (same, on_notified) refl))

  -- Noted activity moves the deadline to `now` plus the timeout of the unlock, and the vault waits
  -- on.
  pub activity_extends :
      (now : ℕ)
      → IsWaiting
          (timer_step (notify_activity m) (woken t.id now))
          (extended_guard t now)
          (now + t.timeout)
          s
  unfolding noted notify_activity
  activity_extends now = rw (woken-lem now) (record {
    guard = record {
      handle = w.guard.handle;
      present =
          find-update_self t.id
            (λ x. record x { deadline = some (now + x.timeout); permit = false })
            (notify_activity m).tasks (λ u. refl) noted-present;
      current = w.guard.current;
      listening = w.guard.listening;
      alive = w.guard.alive;
    };
    opened = w.opened;
    due = refl;
    quiet = refl;
    older =
        AllTasks-update (IsOlder t.id m.generation) t.id _ (notify_activity m).tasks (λ x k. k)
          (AllTasks-map (IsOlder t.id m.generation) (notify_one m.notify) m.tasks
            (λ x k n.
              let same : IsSameTask (notify_one m.notify x) x = notify_one-IsSameTask m.notify x in
              rw same.generation (k (λ q. n (same.id ∙ q))))
            w.older);
  })
