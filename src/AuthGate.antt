-- ===== src/AuthGate.antt =====
-- The authentication gate: core/crates/vipervault-core/src/core/auth_gate.rs. The gate's state is
-- its limiter; the operation's answer, the clock and the jitter's random bits are arguments. `none` is a
-- panic of the limiter; a number is the time that the gate slept.
pub mod Throttle
use viper_vault.Base.{ℕ, Bool, Option, none, some, Result, ok, err, if◌then◌else◌}
use viper_vault.RateLimit.{
  UnlockThrottlePolicy, UnlockRateLimiter, fresh, on_success, on_failure_delay,
}

pub record AuthGate : Type 0 where
  pub limiter : UnlockRateLimiter
  pub policy : UnlockThrottlePolicy

abbrev pub new : UnlockThrottlePolicy → AuthGate
new policy = record { limiter = fresh; policy = policy }

unfoldable pub reset : AuthGate → AuthGate
unfolding on_success
reset g = record g { limiter = on_success g.limiter }

-- What the caller gets: the time slept and the operation's own result.
abbrev pub Reply : Type 0 → Type 0 → Type 0
Reply E T = Option (ℕ × Result E T)

-- A failed authentication: the limiter registers it and the gate sleeps.
unfoldable pub throttle : {E T : Type 0} → AuthGate → (now random : ℕ) → E → AuthGate × Reply E T
unfolding on_failure_delay
throttle g now random e =
    let (l, delay) = on_failure_delay g.limiter g.policy now random in
    (record g { limiter = l }, elim delay [ none ↦ none | some d ↦ some (d, err e) ])

-- `run`, and `run_blocking`, which differs in how it sleeps.
unfoldable pub run :
    {E T : Type 0}
    → (is_auth_failure : E → Bool) → (should_reset_on_success : T → Bool) → AuthGate
    → (now random : ℕ) → (op : Result E T) → AuthGate × Reply E T
unfolding throttle reset
run fails resets g now random (ok v) = ((if resets v then reset g else g), some (0, ok v))
run fails resets g now random (err e) =
    if fails e then throttle g now random e else (g, some (0, err e))
