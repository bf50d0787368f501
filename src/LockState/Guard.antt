-- ===== src/LockState/Guard.antt =====
-- The guard of an unlocked vault (core/lock_state.rs): the timer task whose handle the manager holds
-- and whose generation is the manager's. It survives every event but its own deadline and its own panic.
use viper_vault.Base.{
  ℕ, ◌<◌, ◌≡◌, ◌≢◌, ◌⊎◌, inl, inr, refl, sym, ap, ◌∙◌, true, false, none, some, arith, map,
}
use native.Mathlib.Decide.{ℕ_discrete}
use viper_vault.LockState.Types.{
  Session, VaultState, locked, Task, VaultLockManager, find_task, update_task, remove_task,
}
use viper_vault.LockState.Timer.{
  succ_generation, set_state, unlock_session, notify_activity, notify_one,
}
use viper_vault.LockState.Effects.{Effect, idle, retimed, ended, expired, panicked, Retimes}
use viper_vault.LockState.Tasks.{
  find-update_ne, find-update_self, find-remove_ne, find-map, AllTasks,
}

-- The stored handle is that of a task which is still there, was not aborted, captured the current
-- generation and waits on the current `Notify`.
pub record IsGuard (m : VaultLockManager) (t : Task) : Type 0 where
  pub handle : m.auto_lock_task ≡ some t.id
  pub present : find_task t.id m.tasks ≡ some t
  pub current : m.generation ≡ t.generation
  pub listening : t.notify ≡ m.notify
  pub alive : t.aborted ≡ false

-- The task of an unlock that has just returned.
abbrev pub fresh_guard : VaultLockManager → ℕ → Task
fresh_guard m timeout = record {
  id = m.next_task;
  generation = succ_generation m.generation;
  notify = m.next_notify;
  timeout = timeout;
  deadline = none;
  permit = false;
  aborted = false;
}

pub unlock-IsGuard :
    (m : VaultLockManager) (s : Session) (timeout : ℕ)
    → IsGuard (unlock_session m s timeout) (fresh_guard m timeout)
unfolding unlock_session find_task
unlock-IsGuard m s timeout = record {
  handle = refl;
  present = ground arith;
  current = refl;
  listening = refl;
  alive = refl;
}

-- Another task than the guard is older, so it cannot lock the vault.
abbrev pub OthersOlder : VaultLockManager → Task → Type 0
OthersOlder m t = AllTasks (λ u. (u.id ≢ t.id) → u.generation < m.generation) m.tasks

-- A permit changes nothing by which a task is known.
pub record IsSameTask (u t : Task) : Type 0 where
  pub id : u.id ≡ t.id
  pub generation : u.generation ≡ t.generation
  pub notify : u.notify ≡ t.notify
  pub aborted : u.aborted ≡ t.aborted

pub notify_one-IsSameTask : (n : ℕ) (t : Task) → IsSameTask (notify_one n t) t
unfolding notify_one
notify_one-IsSameTask n t = record {
  id = ground arith;
  generation = ground arith;
  notify = ground arith;
  aborted = ground arith;
}

module _ (m : VaultLockManager) (t : Task) (g : IsGuard m t) where
  pub guard-notify : IsGuard (notify_activity m) (notify_one m.notify t)
  unfolding notify_activity
  guard-notify =
      let same : IsSameTask (notify_one m.notify t) t = notify_one-IsSameTask m.notify t in
      record {
        handle = g.handle ∙ ap some (sym same.id);
        present =
            ap (λ j. find_task j (map (notify_one m.notify) m.tasks)) same.id
            ∙ find-map t.id (notify_one m.notify) m.tasks
                (λ u. (notify_one-IsSameTask m.notify u).id) g.present;
        current = g.current ∙ sym same.generation;
        listening = same.notify ∙ g.listening;
        alive = same.aborted ∙ g.alive;
      }

  -- The state is no part of what makes a guard.
  pub guard-set_state : (v : VaultState) → IsGuard (set_state v m) t
  guard-set_state v = record {
    handle = g.handle;
    present = g.present;
    current = g.current;
    listening = g.listening;
    alive = g.alive;
  }

  guard-update :
      (u : Task) (f : Task → Task)
      → find_task u.id m.tasks ≡ some u
      → Retimes f
      → (t' : Task) × (t'.id ≡ t.id) × IsGuard (record m { tasks = update_task u.id f m.tasks }) t'
  guard-update u f h r = elim (ℕ_discrete t.id u.id) [
    | yes e ↦ (
      f t,
      r.id t,
      record {
        handle = g.handle ∙ ap some (sym (r.id t));
        present =
            ap (λ j. find_task j (update_task u.id f m.tasks)) (r.id t)
            ∙ ap (λ j. find_task t.id (update_task j f m.tasks)) (sym e)
            ∙ find-update_self t.id f m.tasks r.id g.present;
        current = g.current ∙ sym (r.generation t);
        listening = r.notify t ∙ g.listening;
        alive = r.aborted t ∙ g.alive;
      },
    )
    | no n ↦ (
      t,
      refl,
      record {
        handle = g.handle;
        present = find-update_ne t.id u.id f m.tasks n r.id ∙ g.present;
        current = g.current;
        listening = g.listening;
        alive = g.alive;
      },
    )
  ]

  ended-ne :
      (u : Task)
      → find_task u.id m.tasks ≡ some u
      → (m.generation ≢ u.generation) ⊎ (u.aborted ≡ true)
      → t.id ≢ u.id
  ended-ne u h why e =
      let here : find_task t.id m.tasks ≡ some u = ap (λ j. find_task j m.tasks) e ∙ h in
      let same : t ≡ u = ground (arith, g.present) in
      let current : m.generation ≡ u.generation = g.current ∙ ap (λ x. x.generation) same in
      let alive : u.aborted ≡ false = ap (λ x. x.aborted) (sym same) ∙ g.alive in
      elim why [ inl n ↦ n current | inr a ↦ cc ]

  guard-remove :
      (u : Task) → t.id ≢ u.id → IsGuard (record m { tasks = remove_task u.id m.tasks }) t
  guard-remove u n = record {
    handle = g.handle;
    present = find-remove_ne t.id u.id m.tasks n ∙ g.present;
    current = g.current;
    listening = g.listening;
    alive = g.alive;
  }

  -- A timer event without a panic locks the vault or leaves a guard of the same number.
  pub guard-Effect :
      {i : ℕ} (n : VaultLockManager)
      → Effect false i m n
      → (n.state ≡ locked) ⊎ ((t' : Task) × (t'.id ≡ t.id) × IsGuard n t')
  guard-Effect n (idle e) = rw e (inr (t, refl, g))
  guard-Effect n (retimed u f i h r e) = rw e (inr (guard-update u f h r))
  guard-Effect n (ended u i h why e) = rw e (inr (t, refl, guard-remove u (ended-ne u h why)))
  guard-Effect n (panicked u i h p e) = cc
  guard-Effect n (expired u i h same e) = rw e (inl refl)
