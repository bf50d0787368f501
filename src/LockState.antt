-- ===== src/LockState.antt =====
-- The vault lock manager: core/crates/vipervault-core/src/core/lock_state.rs.
-- `Types` has its state, `Timer` the transitions that move the generation and the auto-lock task,
-- and `Posture` the session metadata and the authorization of sensitive operations.
pub mod Types
pub mod Timer
pub mod Posture
pub mod History
pub mod Authorize
pub mod Ceiling
pub mod Tasks
pub mod Effects
pub mod Guard
pub mod AutoLock
pub mod Deadline
pub mod Waiting
pub mod Races
pub mod Overtaken
