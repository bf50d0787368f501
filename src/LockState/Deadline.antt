-- ===== src/LockState/Deadline.antt =====
-- When the auto-lock timer of core/lock_state.rs locks the vault: at its deadline and not before,
-- whatever the timers of earlier cycles do meanwhile.
use native.Mathlib.Decide.{ℕ_discrete}
use viper_vault.Base.{
  Bool, ℕ, ◌≤◌, ◌<◌, ◌≡◌, ◌≢◌, refl, sym, ap, ◌∙◌, true, false, some, List, [], ◌∷◌, arith, ◌==◌,
  leb,
}
use viper_vault.LockState.Types.{
  Session, locked, unlocked, Task, VaultLockManager, find_task, remove_task,
}
use viper_vault.LockState.Timer.{
  TimerEvent, started, fired, woken, dropped, overflowed, is_adding, on_deadline, poll, subject,
  timer_step, run_timers,
}
use viper_vault.LockState.Effects.{
  Effect, idle, retimed, ended, expired, panicked, timer_step-Effect,
}
use viper_vault.LockState.Guard.{IsGuard}
use viper_vault.LockState.Tasks.{
  find-update_ne, find-remove_ne, AllTasks, AllTasks-update, AllTasks-remove, AllTasks-find,
}

-- Another task than number `i` belongs to an earlier cycle than `g`.
abbrev pub IsOlder : ℕ → ℕ → Task → Type 0
IsOlder i g u = (u.id ≢ i) → u.generation < g

-- The vault is open on `s`; its guard `t` sleeps until `d`, with no activity noted since; every
-- other task is of an earlier cycle.
pub record IsWaiting (m : VaultLockManager) (t : Task) (d : ℕ) (s : Session) : Type 0 where
  pub guard : IsGuard m t
  pub opened : m.state ≡ unlocked s
  pub due : t.deadline ≡ some d
  pub quiet : t.permit ≡ false
  pub older : AllTasks (IsOlder t.id m.generation) m.tasks

-- The event does not fire task `i` at an instant from `d` on.
abbrev pub IsEarly : ℕ → ℕ → TimerEvent → Type 0
IsEarly i d (fired j now) = j ≡ i → now < d
IsEarly i d (started j now) = Unit {0}
IsEarly i d (woken j now) = Unit {0}
IsEarly i d (dropped j) = Unit {0}
IsEarly i d (overflowed j) = Unit {0}

abbrev pub AllEarly : ℕ → ℕ → List TimerEvent → Type 0
AllEarly i d [] = Unit {0}
AllEarly i d (e ∷ es) = IsEarly i d e × AllEarly i d es

module _ (m : VaultLockManager) (t : Task) (d : ℕ) (s : Session) (w : IsWaiting m t d s) where
  -- An early event of the guard itself does nothing.
  poll-idle : (e : TimerEvent) → subject e ≡ t.id → IsEarly t.id d e → poll m t e ≡ m
  unfolding poll
  poll-idle (started i now) q h = rw (w.due, poll) refl
  poll-idle (fired i now) q h =
      let late : leb d now ≡ false = ground (arith, h q) in rw (w.due, poll) (rw late refl)
  poll-idle (woken i now) q h = rw (w.due, poll) (rw w.quiet refl)
  poll-idle (dropped i) q h = rw w.guard.alive refl
  poll-idle (overflowed i) q h =
      let rests : is_adding m t ≡ false = rw (w.due, is_adding) (rw w.quiet refl) in
      rw (rests, poll) refl

  guard-idle : (e : TimerEvent) → subject e ≡ t.id → IsEarly t.id d e → timer_step m e ≡ m
  unfolding timer_step
  guard-idle e q h =
      let here : find_task (subject e) m.tasks ≡ some t =
        ap (λ j. find_task j m.tasks) q ∙ w.guard.present in
      rw (here, timer_step) (poll-idle e q h)

  removed-IsWaiting :
      (u : Task) → t.id ≢ u.id → IsWaiting (record m { tasks = remove_task u.id m.tasks }) t d s
  removed-IsWaiting u ne = record {
    guard = record {
      handle = w.guard.handle;
      present = find-remove_ne t.id u.id m.tasks ne ∙ w.guard.present;
      current = w.guard.current;
      listening = w.guard.listening;
      alive = w.guard.alive;
    };
    opened = w.opened;
    due = w.due;
    quiet = w.quiet;
    older = AllTasks-remove (IsOlder t.id m.generation) u.id m.tasks w.older;
  }

  -- An event of another task changes neither the state nor the guard.
  other-IsWaiting :
      {p : Bool} {i : ℕ} (n : VaultLockManager) → Effect p i m n → t.id ≢ i → IsWaiting n t d s
  other-IsWaiting n (idle e) ne = rw e w
  other-IsWaiting n (retimed u f i h r e) ne = rw e (record {
    guard = record {
      handle = w.guard.handle;
      present = find-update_ne t.id u.id f m.tasks (λ q. ne (q ∙ i)) r.id ∙ w.guard.present;
      current = w.guard.current;
      listening = w.guard.listening;
      alive = w.guard.alive;
    };
    opened = w.opened;
    due = w.due;
    quiet = w.quiet;
    older =
        AllTasks-update (IsOlder t.id m.generation) u.id f m.tasks
          (λ x k q. ground (arith, r.generation x, k (λ p. q (r.id x ∙ p)))) w.older;
  })
  other-IsWaiting n (ended u i h why e) ne = rw e (removed-IsWaiting u (λ q. ne (q ∙ i)))
  other-IsWaiting n (panicked u i h p e) ne = rw e (removed-IsWaiting u (λ q. ne (q ∙ i)))
  other-IsWaiting n (expired u i h same e) ne =
      let old : u.generation < m.generation =
        AllTasks-find (IsOlder t.id m.generation) u.id m.tasks w.older h (λ q. ne (sym q ∙ i)) in
      absurd (omega (arith, same, old))

  early-IsWaiting : (e : TimerEvent) → IsEarly t.id d e → IsWaiting (timer_step m e) t d s
  early-IsWaiting e h = elim (ℕ_discrete t.id (subject e)) [
    | yes q ↦ rw (guard-idle e (sym q) h) w
    | no n ↦ other-IsWaiting (timer_step m e) (timer_step-Effect m e) n
  ]

  due-locks : (now : ℕ) → d ≤ now → (timer_step m (fired t.id now)).state ≡ locked
  unfolding timer_step
  due-locks now h =
      let reached : leb d now ≡ true = ground arith in
      let same : (m.generation == t.generation) ≡ true = ground (arith, w.guard.current) in
      rw (w.guard.present, timer_step) (rw (w.due, poll) (rw reached (rw (same, on_deadline) refl)))

-- While the guard sleeps until `d`, any events of timers in which it does not fire from `d` on
-- leave the vault unlocked on the same session; the guard's firing at any instant from `d` on then
-- locks the vault.
pub auto_lock_timing :
    (es : List TimerEvent) (m : VaultLockManager) (t : Task) (d : ℕ) (s : Session)
    → IsWaiting m t d s
    → AllEarly t.id d es
    → ((run_timers m es).state ≡ unlocked s)
      × ((now : ℕ) → d ≤ now → (timer_step (run_timers m es) (fired t.id now)).state ≡ locked)
unfolding run_timers
auto_lock_timing [] m t d s w h = (w.opened, due-locks m t d s w)
auto_lock_timing (e ∷ es) m t d s w h =
    auto_lock_timing es (timer_step m e) t d s (early-IsWaiting m t d s w e h.0) h.1
