-- ===== src/LockState/Timer.antt =====
-- Unlocking, locking, activity and the auto-lock task of `VaultLockManager` (core/lock_state.rs).
-- Each function is the whole body of the method, run with no other call in between;
-- `LockState.Races` takes the calls apart at their awaits.
use viper_vault.Base.{
  ℕ, ◌+◌, ◌%◌, ◌^◌, Bool, true, false, not, ◌||◌, ◌&&◌, Option, none, some, List, [], ◌∷◌, Bytes,
  ◌==◌, leb, if◌then◌else◌, map,
}
use viper_vault.Session.{
  AuthenticationStrength, strong, UnlockOutcome, primary, RuntimeInspectionState, is_strong,
  is_restrictive,
}
use viper_vault.LockState.Types.{
  Session, VaultState, locked, unlocked, Task, VaultLockManager, find_task, update_task,
  remove_task,
}

abbrev pub u64_modulus : ℕ
u64_modulus = 2 ^ 64

abbrev pub new : VaultLockManager
new = record {
  state = locked;
  notify = 0;
  auto_lock_task = none;
  generation = 1;
  tasks = [];
  next_notify = 1;
  next_task = 0;
}

-- The generation that `next_generation` publishes and returns; `fetch_add` wraps at 2 ^ 64.
unfoldable pub succ_generation : ℕ → ℕ
succ_generation g = (g + 1) % u64_modulus

unfoldable pub next_generation : VaultLockManager → VaultLockManager
unfolding succ_generation
next_generation m = record m { generation = succ_generation m.generation }

abbrev pub set_state : VaultState → VaultLockManager → VaultLockManager
set_state s m = record m { state = s }

-- `task.abort()`
abbrev pub abort : Task → Task
abort t = record t { aborted = true }

unfoldable pub abort_task : Option ℕ → List Task → List Task
unfolding update_task
abort_task none ts = ts
abort_task (some i) ts = update_task i abort ts

-- The handle is taken out of its slot, and its task aborted if there is one.
unfoldable pub cancel_auto_lock : VaultLockManager → VaultLockManager
unfolding abort_task
cancel_auto_lock m = record m { auto_lock_task = none; tasks = abort_task m.auto_lock_task m.tasks }

-- `let cycle_notify = Arc::new(Notify::new()); *guard = Arc::clone(&cycle_notify);`
unfoldable pub rotate_notify : VaultLockManager → VaultLockManager
rotate_notify m = record m { notify = m.next_notify; next_notify = m.next_notify + 1 }

abbrev pub spawned : ℕ → ℕ → ℕ → ℕ → Task
spawned i notify timeout generation = record {
  id = i;
  generation = generation;
  notify = notify;
  timeout = timeout;
  deadline = none;
  permit = false;
  aborted = false;
}

-- `tokio::spawn` of the timer loop, which captures `cycle_notify`, the timeout and the generation
unfoldable pub spawn_timer : ℕ → ℕ → ℕ → VaultLockManager → VaultLockManager
spawn_timer notify timeout generation m = record m {
  tasks = spawned m.next_task notify timeout generation ∷ m.tasks;
  next_task = m.next_task + 1;
}

-- `*self.auto_lock_task.lock().await = Some(task);`
unfoldable pub store_handle : ℕ → VaultLockManager → VaultLockManager
store_handle i m = record m { auto_lock_task = some i }

unfoldable pub restart_auto_lock : VaultLockManager → ℕ → ℕ → VaultLockManager
unfolding cancel_auto_lock rotate_notify spawn_timer store_handle
restart_auto_lock m timeout generation =
    let rotated : VaultLockManager = rotate_notify (cancel_auto_lock m) in
    store_handle rotated.next_task (spawn_timer rotated.notify timeout generation rotated)

-- The session that an unlock stores.
abbrev pub opened :
    Bytes → AuthenticationStrength → UnlockOutcome → RuntimeInspectionState → Session
opened json strength outcome runtime = record {
  plaintext_json = json;
  auth_strength = strength;
  strong_reauth_required = not (is_strong strength) || is_restrictive runtime;
  unlock_outcome = outcome;
  runtime_state = runtime;
}

-- `unlock_with_plaintext_json_with_context`, given the session that it builds from its arguments
unfoldable pub unlock_session : VaultLockManager → Session → ℕ → VaultLockManager
unfolding next_generation restart_auto_lock
unlock_session m s timeout =
    let bumped : VaultLockManager = next_generation m in
    restart_auto_lock (set_state (unlocked s) bumped) timeout bumped.generation

unfoldable pub unlock_with_plaintext_json_with_context :
    VaultLockManager
    → Bytes
    → ℕ
    → AuthenticationStrength
    → UnlockOutcome
    → RuntimeInspectionState
    → VaultLockManager
unfolding unlock_session is_strong is_restrictive
unlock_with_plaintext_json_with_context m json timeout strength outcome runtime =
    unlock_session m (opened json strength outcome runtime) timeout

unfoldable pub unlock_with_plaintext_json_with_strength :
    VaultLockManager
    → Bytes
    → ℕ
    → AuthenticationStrength
    → (probed : RuntimeInspectionState) → VaultLockManager
unfolding unlock_with_plaintext_json_with_context
unlock_with_plaintext_json_with_strength m json timeout strength probed =
    unlock_with_plaintext_json_with_context m json timeout strength primary probed

unfoldable pub unlock_with_plaintext_json :
    VaultLockManager → Bytes → ℕ → (probed : RuntimeInspectionState) → VaultLockManager
unfolding unlock_with_plaintext_json_with_context
unlock_with_plaintext_json m json timeout probed =
    unlock_with_plaintext_json_with_context m json timeout strong primary probed

unfoldable pub lock : VaultLockManager → VaultLockManager
unfolding next_generation cancel_auto_lock
lock m = cancel_auto_lock (set_state locked (next_generation m))

-- `notify_one` on the current `Notify`: the task that waits on that object gets a permit; a permit
-- of an object on which no task waits is never seen.
unfoldable pub notify_one : ℕ → Task → Task
notify_one n t = if t.notify == n then record t { permit = true } else t

unfoldable pub notify_activity : VaultLockManager → VaultLockManager
unfolding notify_one
notify_activity m = record m { tasks = map (notify_one m.notify) m.tasks }

-- What the runtime may do to the task of a given number at an instant: poll it for the first time,
-- take the branch of `sleep_until` or that of `notified`, or drop it once it is aborted. In the polls
-- `started` and `woken` the clock can represent `Instant::now() + timeout`; `overflowed` is a poll
-- in which it cannot, so that the addition panics. The range of `Instant` is the platform's.
pub data TimerEvent : Type 0 where
  started fired woken : ℕ → ℕ → TimerEvent
  dropped overflowed : ℕ → TimerEvent

-- The body of `sleep_until(deadline) => …`
unfoldable pub on_deadline : VaultLockManager → Task → VaultLockManager
unfolding remove_task
on_deadline m t = record m {
  state = (if m.generation == t.generation then locked else m.state);
  tasks = remove_task t.id m.tasks;
}

-- The body of `cycle_notify.notified() => …`
unfoldable pub on_notified : VaultLockManager → Task → ℕ → VaultLockManager
unfolding remove_task update_task
on_notified m t now =
    if not (m.generation == t.generation)
    then record m { tasks = remove_task t.id m.tasks }
    else record m {
      tasks =
          update_task t.id (λ u. record u { deadline = some (now + u.timeout); permit = false })
            m.tasks;
    }

-- The task is about to compute a deadline: at its first poll, or where it is notified in the
-- generation that it captured.
unfoldable pub is_adding : VaultLockManager → Task → Bool
is_adding m t = elim t.deadline [ none ↦ true | some d ↦ t.permit && m.generation == t.generation ]

-- One event, on the task that it names; an event that the task is not ready for does nothing.
unfoldable pub poll : VaultLockManager → Task → TimerEvent → VaultLockManager
unfolding on_deadline on_notified is_adding
poll m t (started i now) = elim t.deadline [
  | none ↦ record m {
    tasks = update_task t.id (λ u. record u { deadline = some (now + u.timeout) }) m.tasks;
  }
  | some d ↦ m
]
poll m t (fired i now) = elim t.deadline [
  | none ↦ m
  | some d ↦ if leb d now then on_deadline m t else m
]
poll m t (woken i now) = elim t.deadline [
  | none ↦ m
  | some d ↦ if t.permit then on_notified m t now else m
]
poll m t (dropped i) = if t.aborted then record m { tasks = remove_task t.id m.tasks } else m
poll m t (overflowed i) = if is_adding m t then record m { tasks = remove_task t.id m.tasks } else m

abbrev pub subject : TimerEvent → ℕ
subject (started i now) = i
subject (fired i now) = i
subject (woken i now) = i
subject (dropped i) = i
subject (overflowed i) = i

unfoldable pub timer_step : VaultLockManager → TimerEvent → VaultLockManager
unfolding find_task poll
timer_step m e = elim (find_task (subject e) m.tasks) [ none ↦ m | some t ↦ poll m t e ]

unfoldable pub run_timers : VaultLockManager → List TimerEvent → VaultLockManager
unfolding timer_step
run_timers m [] = m
run_timers m (e ∷ es) = run_timers (timer_step m e) es
