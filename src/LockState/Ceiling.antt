-- ===== src/LockState/Ceiling.antt =====
-- What one unlock established bounds the session until the next one (core/lock_state.rs): no call,
-- event or timer raises its strength, turns a decoy into the real vault, or takes back a pending
-- re-authentication, but for `clear_strong_reauth_requirement`.
use viper_vault.Base.{◌≡◌, ◌≢◌, ◌⊎◌, inl, inr, refl, true, false, List, [], ◌∷◌, ok, arith}
use viper_vault.Session.{
  decoy, is_strong, SensitiveOperation, RuntimeSecurityEvent, app_backgrounded, device_locked,
  biometric_set_changed, quick_unlock_invalidated, runtime_became_restrictive,
}
use viper_vault.Policy.{PolicyContext}
use viper_vault.LockState.Types.{Session, VaultState, locked, unlocked, VaultLockManager}
use viper_vault.LockState.Timer.{TimerEvent, timer_step, started, fired, woken, dropped, overflowed}
use viper_vault.LockState.Posture.{
  authorize_sensitive_operation, change_session, handle_runtime_security_event, with_runtime,
}
use viper_vault.LockState.Authorize.{IsCleared, authorize_iff}
use viper_vault.LockState.History.{
  SessionStep, locks, touches, marks, clears, sets_runtime, refreshes, receives, polls, rewrites,
  session_step, run_session,
}

-- A step of a timer locks the vault or leaves its state alone.
pub timer_step-state :
    (m : VaultLockManager) (e : TimerEvent)
    → ((timer_step m e).state ≡ locked) ⊎ ((timer_step m e).state ≡ m.state)
unfolding timer_step
timer_step-state m (started i now) = ground arith
timer_step-state m (fired i now) = ground arith
timer_step-state m (woken i now) = ground arith
timer_step-state m (dropped i) = ground arith
timer_step-state m (overflowed i) = ground arith

-- A change of the session that keeps how it was opened, and keeps a pending re-authentication
-- unless the step `x` clears it.
record IsBounded (x : SessionStep) (f : Session → Session) : Type 0 where
  strength : (s : Session) → (f s).auth_strength ≡ s.auth_strength
  outcome : (s : Session) → (f s).unlock_outcome ≡ s.unlock_outcome
  pending :
      (s : Session)
      → x ≢ clears
      → s.strong_reauth_required ≡ true
      → (f s).strong_reauth_required ≡ true

Bounded : (x : SessionStep) → VaultState → VaultState → Type 0
Bounded x v w = (w ≡ locked) ⊎ ((f : Session → Session) × (w ≡ change_session f v) × IsBounded x f)

change-id : (v : VaultState) → v ≡ change_session (λ s. s) v
change-id locked = refl
change-id (unlocked s) = refl

Bounded-same : (x : SessionStep) (v : VaultState) → Bounded x v v
unfolding Bounded
Bounded-same x v = inr (
  (λ s. s),
  change-id v,
  record { strength = λ s. refl; outcome = λ s. refl; pending = λ s _ h. h },
)

receive-Bounded :
    (m : VaultLockManager) (e : RuntimeSecurityEvent)
    → Bounded (receives e) m.state (handle_runtime_security_event m e).state
unfolding Bounded handle_runtime_security_event
receive-Bounded m app_backgrounded =
    inr (_, refl, record { strength = λ s. refl; outcome = λ s. refl; pending = λ s _ h. refl })
receive-Bounded m device_locked = inl refl
receive-Bounded m biometric_set_changed = inl refl
receive-Bounded m quick_unlock_invalidated = inl refl
receive-Bounded m runtime_became_restrictive = inl refl

session_step-Bounded :
    (m : VaultLockManager) (x : SessionStep) → Bounded x m.state (session_step m x).state
unfolding session_step Bounded
session_step-Bounded m locks = inl refl
session_step-Bounded m touches = Bounded-same touches m.state
session_step-Bounded m marks =
    inr (_, refl, record { strength = λ s. refl; outcome = λ s. refl; pending = λ s _ h. refl })
session_step-Bounded m clears = inr (
  _,
  refl,
  record { strength = λ s. refl; outcome = λ s. refl; pending = λ s n h. absurd (n refl) },
)
session_step-Bounded m (sets_runtime r) = inr (
  with_runtime r,
  refl,
  record { strength = λ s. refl; outcome = λ s. refl; pending = λ s n h. ground arith },
)
session_step-Bounded m (refreshes r) = inr (
  with_runtime r,
  refl,
  record { strength = λ s. refl; outcome = λ s. refl; pending = λ s n h. ground arith },
)
session_step-Bounded m (receives e) = receive-Bounded m e
session_step-Bounded m (polls e) = elim (timer_step-state m e) [
  | inl h ↦ inl h
  | inr h ↦ rw h (Bounded-same (polls e) m.state)
]
session_step-Bounded m (rewrites json) =
    inr (_, refl, record { strength = λ s. refl; outcome = λ s. refl; pending = λ s _ h. h })

-- A session that may not do sensitive work: opened without strong authentication, or the decoy.
abbrev pub IsBarred : Session → Type 0
IsBarred s = (is_strong s.auth_strength ≡ false) ⊎ (s.unlock_outcome ≡ decoy)

-- A session with a pending strong re-authentication.
abbrev pub IsPending : Session → Type 0
IsPending s = s.strong_reauth_required ≡ true

-- The predicate holds of the session, if there is one.
abbrev pub WhenUnlocked : (Session → Type 0) → VaultState → Type 0
WhenUnlocked P locked = Unit {0}
WhenUnlocked P (unlocked s) = P s

change-WhenUnlocked :
    (P : Session → Type 0) (f : Session → Session)
    → ((s : Session) → P s → P (f s))
    → (v : VaultState) → WhenUnlocked P v
    → WhenUnlocked P (change_session f v)
change-WhenUnlocked P f keep locked h = tt
change-WhenUnlocked P f keep (unlocked s) h = keep s h

step-WhenUnlocked :
    (P : Session → Type 0) (x : SessionStep)
    → ((f : Session → Session) → IsBounded x f → (s : Session) → P s → P (f s))
    → (m : VaultLockManager) → WhenUnlocked P m.state
    → WhenUnlocked P (session_step m x).state
unfolding Bounded
step-WhenUnlocked P x keep m h = elim (session_step-Bounded m x) [
  | inl e ↦ rw e tt
  | inr (f, e, b) ↦ rw e (change-WhenUnlocked P f (keep f b) m.state h)
]

run-IsBarred :
    (xs : List SessionStep) (m : VaultLockManager)
    → WhenUnlocked IsBarred m.state
    → WhenUnlocked IsBarred (run_session m xs).state
unfolding run_session
run-IsBarred [] m h = h
run-IsBarred (x ∷ xs) m h =
    run-IsBarred xs (session_step m x) (step-WhenUnlocked IsBarred x keep m h)
  where
    keep : (f : Session → Session) → IsBounded x f → (s : Session) → IsBarred s → IsBarred (f s)
    keep f b s (inl e) = inl (rw (b.strength s) e)
    keep f b s (inr e) = inr (rw (b.outcome s) e)

-- No step of the list clears the pending re-authentication.
abbrev pub NoClear : List SessionStep → Type 0
NoClear [] = Unit {0}
NoClear (x ∷ xs) = (x ≢ clears) × NoClear xs

run-IsPending :
    (xs : List SessionStep) (m : VaultLockManager)
    → NoClear xs
    → WhenUnlocked IsPending m.state
    → WhenUnlocked IsPending (run_session m xs).state
unfolding run_session
run-IsPending [] m n h = h
run-IsPending (x ∷ xs) m n h =
    run-IsPending xs (session_step m x) n.1
      (step-WhenUnlocked IsPending x (λ f b s p. b.pending s n.0 p) m h)

cleared-not-IsBarred : (s : Session) → IsCleared s → ¬ IsBarred s
unfolding is_strong
cleared-not-IsBarred s c h = ground arith

-- A decoy session, and one opened by biometrics or quick unlock, is refused every sensitive
-- operation after any history of calls, events and timers up to the next unlock; clearing the
-- re-authentication flag does not help it.
pub barred_never_authorized :
    (m : VaultLockManager) (xs : List SessionStep) (op : SensitiveOperation) (p : PolicyContext)
    → WhenUnlocked IsBarred m.state
    → authorize_sensitive_operation (run_session m xs) op ≢ ok p
barred_never_authorized m xs op p h granted =
    let (s, e, c, _) = (authorize_iff (run_session m xs) op p).0 granted in
    cleared-not-IsBarred s c (rw e at (run-IsBarred xs m h))

-- A pending strong re-authentication refuses every sensitive operation after any history of calls,
-- events, probes and timers in which `clear_strong_reauth_requirement` is not called, also if the
-- runtime has become clean again.
pub pending_never_authorized :
    (m : VaultLockManager) (xs : List SessionStep) (op : SensitiveOperation) (p : PolicyContext)
    → NoClear xs
    → WhenUnlocked IsPending m.state
    → authorize_sensitive_operation (run_session m xs) op ≢ ok p
pending_never_authorized m xs op p n h granted =
    let (s, e, c, _) = (authorize_iff (run_session m xs) op p).0 granted in
    let pending : IsPending s = (rw e at (run-IsPending xs m n h)) in cc c.settled

event-IsPending :
    (m : VaultLockManager) (e : RuntimeSecurityEvent)
    → WhenUnlocked IsPending (handle_runtime_security_event m e).state
unfolding handle_runtime_security_event
event-IsPending m app_backgrounded = mark m.state
  where
    mark :
        (v : VaultState)
        → WhenUnlocked IsPending
            (change_session (λ s. record s { strong_reauth_required = true }) v)
    mark locked = tt
    mark (unlocked s) = refl
event-IsPending m device_locked = tt
event-IsPending m biometric_set_changed = tt
event-IsPending m quick_unlock_invalidated = tt
event-IsPending m runtime_became_restrictive = tt

-- After any runtime security event, whatever the session was, every sensitive operation is refused,
-- and stays refused through any history that does not clear the requirement or unlock again.
pub event_revokes :
    (m : VaultLockManager) (e : RuntimeSecurityEvent) (xs : List SessionStep)
    (op : SensitiveOperation) (p : PolicyContext)
    → NoClear xs
    → authorize_sensitive_operation (run_session (handle_runtime_security_event m e) xs) op ≢ ok p
event_revokes m e xs op p n =
    pending_never_authorized (handle_runtime_security_event m e) xs op p n (event-IsPending m e)
