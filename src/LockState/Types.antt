-- ===== src/LockState/Types.antt =====
-- The state of `VaultLockManager` (core/lock_state.rs), with the spawned timer tasks
-- and their `Notify` objects that the runtime keeps for it.
use viper_vault.Base.{
  ℕ, Bool, Option, none, List, [], ◌∷◌, Bytes, ◌==◌, if◌then◌else◌, some, ◌≡◌, refl, ◌⊎◌, inl, inr,
}
use viper_vault.Session.{AuthenticationStrength, UnlockOutcome, RuntimeInspectionState}

-- The fields of `VaultState::Unlocked`.
pub record Session : Type 0 where
  pub plaintext_json : Bytes
  pub auth_strength : AuthenticationStrength
  pub strong_reauth_required : Bool
  pub unlock_outcome : UnlockOutcome
  pub runtime_state : RuntimeInspectionState

pub data VaultState : Type 0 where
  locked : VaultState
  unlocked : Session → VaultState

pub VaultState-cases : (v : VaultState) → (v ≡ locked) ⊎ ((s : Session) × (v ≡ unlocked s))
VaultState-cases locked = inl refl
VaultState-cases (unlocked s) = inr (s, refl)

-- A spawned auto-lock task: what its closure captured (generation, timeout, notify handle) and its
-- local `deadline`, which is none until the task is first polled. `permit` is the stored
-- permit of its `Notify`; `aborted` is set by `JoinHandle::abort`, after which the task may still
-- run until the runtime drops it.
pub record Task : Type 0 where
  pub id : ℕ
  pub generation : ℕ
  pub notify : ℕ
  pub timeout : ℕ
  pub deadline : Option ℕ
  pub permit : Bool
  pub aborted : Bool

-- `notify` names the current `Notify` object and `auto_lock_task` the task of the stored handle.
-- `next_notify` and `next_task` number the objects that are allocated later.
pub record VaultLockManager : Type 0 where
  pub state : VaultState
  pub notify : ℕ
  pub auto_lock_task : Option ℕ
  pub generation : ℕ
  pub tasks : List Task
  pub next_notify : ℕ
  pub next_task : ℕ

-- The runtime's tasks, looked up and changed by their number.
unfoldable pub find_task : ℕ → List Task → Option Task
find_task i [] = none
find_task i (t ∷ ts) = if t.id == i then some t else find_task i ts

unfoldable pub update_task : ℕ → (Task → Task) → List Task → List Task
update_task i f [] = []
update_task i f (t ∷ ts) = if t.id == i then f t ∷ ts else t ∷ update_task i f ts

unfoldable pub remove_task : ℕ → List Task → List Task
remove_task i [] = []
remove_task i (t ∷ ts) = if t.id == i then ts else t ∷ remove_task i ts
