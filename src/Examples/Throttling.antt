-- ===== src/Examples/Throttling.antt =====
-- The unlock throttle (core/rate_limit.rs, core/auth_gate.rs).
use viper_vault.Base.{
  ℕ, ◌+◌, ◌≤◌, ◌≡◌, refl, List, [], ◌∷◌, none, some, true, false, Bool, Result, ok, err, arith, min,
}
use viper_vault.RateLimit.{
  secs, default_policy, UnlockRateLimiter, fresh, password_delay_for_failures, jitter, registered,
  on_failure_delay, duration_max,
}
use viper_vault.RateLimit.Delay.{jitter-returns, on_failure_delay_bounds}
use viper_vault.RateLimit.Streak.{run_failures}
use viper_vault.AuthGate.{AuthGate, new, run}
use viper_vault.AuthGate.Throttle.{Attempt, run_all, guesses, no_bypass, guess_waits}

abbrev seven : UnlockRateLimiter
seven = record { failures = 7; last_failure = some 0 }

on_failure_delay_bounds_example :
    (secs 10 ≤ secs 10) × (secs 10 ≤ secs 10 + default_policy.jitter_max) × (secs 10 ≤ duration_max)
unfolding on_failure_delay
on_failure_delay_bounds_example =
    on_failure_delay_bounds seven default_policy (secs 5) 0 (secs 10) (omega arith) refl

jitter-returns_example :
    ((j : ℕ) × (jitter default_policy.jitter_max 12345 ≡ some j) × (j ≤ default_policy.jitter_max))
    × (jitter duration_max 12345 ≡ none)
jitter-returns_example = jitter-returns default_policy.jitter_max 12345 (omega arith)

abbrev gate : AuthGate
gate = new default_policy

-- Two wrong passwords with a decoy unlock (which does not reset) and a malformed file between them.
abbrev attempts : List (Attempt Bool Bool)
attempts =
    record { now = 1; random = 0; op = err true }
    ∷ record { now = 2; random = 0; op = ok false }
    ∷ record { now = 3; random = 0; op = err false }
    ∷ record { now = 4; random = 0; op = err true }
    ∷ []

no_bypass_example : run_all (λ b. b) (λ b. b) gate attempts ≡ record gate {
  limiter = run_failures default_policy fresh (guesses (λ b. b) (λ b. b) attempts);
}
no_bypass_example = no_bypass (λ b. b) (λ b. b) attempts gate (tt, (refl, (tt, (tt, tt))))

guess_waits_example :
    (min
        (password_delay_for_failures (registered seven default_policy (secs 5)).failures)
        default_policy.max_delay
      ≤ secs 10)
    × (◌≡◌ {A = Result Bool Bool} (err true) (err true))
unfolding run
guess_waits_example =
    guess_waits {T = Bool} (λ b. b) (λ b. b) (record { limiter = seven; policy = default_policy })
      (secs 5) 0 true (secs 10) (err true) (omega arith) refl refl
