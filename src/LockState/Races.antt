-- ===== src/LockState/Races.antt =====
-- The calls of core/lock_state.rs taken apart at their awaits: a call is a position in its body, and
-- an interleaving is a sequence of single steps of several calls. The timer tasks take their steps
-- in between.
use viper_vault.Base.{ℕ, suc, zero, ◌≡◌, refl}
use viper_vault.LockState.Types.{Session, locked, unlocked, VaultLockManager}
use viper_vault.LockState.Timer.{
  next_generation, set_state, cancel_auto_lock, rotate_notify, spawn_timer, store_handle,
  unlock_session, lock,
}

-- Where a call of `unlock_with_plaintext_json_with_context` or of `lock` stands. An unlock that has
-- its generation carries it along.
pub data Call : Type 0 where
  unlocking : Session → ℕ → Call
  storing_session : ℕ → Session → ℕ → Call
  cancelling_old : ℕ → ℕ → Call
  rotating : ℕ → ℕ → Call
  spawning : ℕ → ℕ → ℕ → Call
  storing_handle : ℕ → Call
  locking : Call
  storing_locked : Call
  cancelling : Call
  returned : Call

-- One step of a call: what it does between two awaits, under one of the manager's locks.
unfoldable pub advance : Call → VaultLockManager → Call × VaultLockManager
unfolding next_generation cancel_auto_lock rotate_notify spawn_timer store_handle
advance (unlocking s timeout) m =
    let bumped : VaultLockManager = next_generation m in
    (storing_session bumped.generation s timeout, bumped)
advance (storing_session g s timeout) m = (cancelling_old g timeout, set_state (unlocked s) m)
advance (cancelling_old g timeout) m = (rotating g timeout, cancel_auto_lock m)
advance (rotating g timeout) m =
    let rotated : VaultLockManager = rotate_notify m in (spawning rotated.notify g timeout, rotated)
advance (spawning n g timeout) m = (storing_handle m.next_task, spawn_timer n timeout g m)
advance (storing_handle i) m = (returned, store_handle i m)
advance locking m = (storing_locked, next_generation m)
advance storing_locked m = (cancelling, set_state locked m)
advance cancelling m = (returned, cancel_auto_lock m)
advance returned m = (returned, m)

-- A call run for a number of steps with nothing in between.
unfoldable pub advance_by : ℕ → Call → VaultLockManager → Call × VaultLockManager
unfolding advance
advance_by zero c m = (c, m)
advance_by (suc n) c m = let (c', m') = advance c m in advance_by n c' m'

-- The steps of an unlock and of a lock, run without interruption, are the whole calls.
pub advance-whole :
    (m : VaultLockManager) (s : Session) (timeout : ℕ)
    → (advance_by 6 (unlocking s timeout) m ≡ (returned, unlock_session m s timeout))
      × (advance_by 3 locking m ≡ (returned, lock m))
unfolding advance_by unlock_session lock
advance-whole m s timeout = (refl, refl)
