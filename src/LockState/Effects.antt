-- ===== src/LockState/Effects.antt =====
-- The five things that an event of a timer task can do to the manager (core/lock_state.rs, the
-- spawned loop of `restart_auto_lock`).
use mathlib.Core.Path.{subst}
use viper_vault.Base.{
  ℕ, ◌+◌, ◌≡◌, ◌≢◌, ◌⊎◌, inl, inr, refl, ap, ◌∙◌, Bool, true, false, some, arith, ◌==◌, leb,
  Option-cases, Bool-cases,
}
use viper_vault.LockState.Types.{
  locked, Task, VaultLockManager, find_task, update_task, remove_task,
}
use viper_vault.LockState.Timer.{
  TimerEvent, started, fired, woken, dropped, overflowed, is_adding, on_deadline, on_notified, poll,
  subject, timer_step,
}
use viper_vault.LockState.Tasks.{find-id}

-- A change of a task's deadline and permit, and of nothing else.
pub record Retimes (f : Task → Task) : Type 0 where
  pub id : (t : Task) → (f t).id ≡ t.id
  pub generation : (t : Task) → (f t).generation ≡ t.generation
  pub notify : (t : Task) → (f t).notify ≡ t.notify
  pub aborted : (t : Task) → (f t).aborted ≡ t.aborted

-- The event is a poll whose addition overflows.
abbrev pub overflows : TimerEvent → Bool
overflows (overflowed i) = true
overflows e = false

-- From `m` to `n` by an event of task `i`: nothing, a new deadline, the end of a stale or aborted
-- task, the lock by a task of the current generation, or the end of a task by a panic, if `p` allows
-- it.
pub data Effect (p : Bool) (i : ℕ) (m n : VaultLockManager) : Type 0 where
  idle : n ≡ m → Effect p i m n
  retimed :
      (u : Task) (f : Task → Task)
      → u.id ≡ i
      → find_task u.id m.tasks ≡ some u
      → Retimes f
      → n ≡ record m { tasks = update_task u.id f m.tasks }
      → Effect p i m n
  ended :
      (u : Task)
      → u.id ≡ i
      → find_task u.id m.tasks ≡ some u
      → (m.generation ≢ u.generation) ⊎ (u.aborted ≡ true)
      → n ≡ record m { tasks = remove_task u.id m.tasks }
      → Effect p i m n
  expired :
      (u : Task)
      → u.id ≡ i
      → find_task u.id m.tasks ≡ some u
      → m.generation ≡ u.generation
      → n ≡ record m { state = locked; tasks = remove_task u.id m.tasks }
      → Effect p i m n
  panicked :
      (u : Task)
      → u.id ≡ i
      → find_task u.id m.tasks ≡ some u
      → p ≡ true
      → n ≡ record m { tasks = remove_task u.id m.tasks }
      → Effect p i m n

start_deadline : ℕ → Task → Task
start_deadline now u = record u { deadline = some (now + u.timeout) }

push_deadline : ℕ → Task → Task
push_deadline now u = record u { deadline = some (now + u.timeout); permit = false }

on_deadline-Effect :
    {p : Bool} (m : VaultLockManager) (u : Task)
    → find_task u.id m.tasks ≡ some u
    → Effect p u.id m (on_deadline m u)
unfolding on_deadline
on_deadline-Effect m u h = elim (Bool-cases (m.generation == u.generation)) [
  | inl e ↦ expired u refl h (ground arith) (ground arith)
  | inr e ↦ ended u refl h (inl (ground arith)) (ground arith)
]

on_notified-Effect :
    {p : Bool} (m : VaultLockManager) (u : Task) (now : ℕ)
    → find_task u.id m.tasks ≡ some u
    → Effect p u.id m (on_notified m u now)
unfolding on_notified push_deadline
on_notified-Effect m u now h = elim (Bool-cases (m.generation == u.generation)) [
  | inl e ↦
      retimed u (push_deadline now) refl h
        (record { id = λ t. refl; generation = λ t. refl; notify = λ t. refl; aborted = λ t. refl })
        (ground arith)
  | inr e ↦ ended u refl h (inl (ground arith)) (ground arith)
]

poll-Effect :
    (m : VaultLockManager) (u : Task) (e : TimerEvent)
    → find_task u.id m.tasks ≡ some u
    → Effect (overflows e) u.id m (poll m u e)
unfolding poll start_deadline
poll-Effect m u (started i now) h = elim (Option-cases u.deadline) [
  | inl e ↦
      rw (e, poll)
        (retimed u (start_deadline now) refl h
          (record {
            id = λ t. refl;
            generation = λ t. refl;
            notify = λ t. refl;
            aborted = λ t. refl;
          })
          refl)
  | inr (d, e) ↦ rw (e, poll) (idle refl)
]
poll-Effect m u (fired i now) h = elim (Option-cases u.deadline) [
  | inl e ↦ rw (e, poll) (idle refl)
  | inr (d, e) ↦
      rw (e, poll)
        (elim (Bool-cases (leb d now)) [
          | inl q ↦ rw q (on_deadline-Effect m u h)
          | inr q ↦ rw q (idle refl)
        ])
]
poll-Effect m u (woken i now) h = elim (Option-cases u.deadline) [
  | inl e ↦ rw (e, poll) (idle refl)
  | inr (d, e) ↦
      rw (e, poll)
        (elim (Bool-cases u.permit) [
          | inl q ↦ rw (q, poll) (on_notified-Effect m u now h)
          | inr q ↦ rw (q, poll) (idle refl)
        ])
]
poll-Effect m u (dropped i) h = elim (Bool-cases u.aborted) [
  | inl q ↦ rw (q, poll) (ended u refl h (inr q) refl)
  | inr q ↦ rw (q, poll) (idle refl)
]
poll-Effect m u (overflowed i) h = elim (Bool-cases (is_adding m u)) [
  | inl q ↦ rw (q, poll) (panicked u refl h refl refl)
  | inr q ↦ rw (q, poll) (idle refl)
]

-- Every event of a timer has one of the five effects, on the task that it names.
pub timer_step-Effect :
    (m : VaultLockManager) (e : TimerEvent) → Effect (overflows e) (subject e) m (timer_step m e)
unfolding timer_step
timer_step-Effect m e = elim (Option-cases (find_task (subject e) m.tasks)) [
  | inl q ↦ rw (q, timer_step) (idle refl)
  | inr (u, q) ↦
      rw (q, timer_step)
        (subst (λ j. Effect (overflows e) j m (poll m u e)) (find-id (subject e) m.tasks q)
          (poll-Effect m u e (own u q)))
]
  where
    own : (u : Task) → find_task (subject e) m.tasks ≡ some u → find_task u.id m.tasks ≡ some u
    own u q = ap (λ j. find_task j m.tasks) (find-id (subject e) m.tasks q) ∙ q
