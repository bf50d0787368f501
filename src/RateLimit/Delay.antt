-- ===== src/RateLimit/Delay.antt =====
-- Bounds of the delay that core/rate_limit.rs asks for, and when drawing the jitter panics.
use viper_vault.Base.{
  ℕ, refl, ◌-◌, ◌*◌, ◌+◌, ◌/◌, ◌%◌, ◌≤◌, ◌<◌, ◌≡◌, none, some, min, arith, Option-cases, inl, inr,
}
use viper_vault.RateLimit.{
  UnlockThrottlePolicy, UnlockRateLimiter, nanos_per_milli, u64_modulus, duration_max, secs, jitter,
  password_delay_for_failures, registered, on_failure_delay,
}

-- More failures never wait less, and no wait is over five minutes.
pub schedule_mono :
    (a b : ℕ)
    → a ≤ b
    → (password_delay_for_failures a ≤ password_delay_for_failures b)
      × (password_delay_for_failures b ≤ secs 300)
unfolding password_delay_for_failures
schedule_mono a b h = (ground arith, ground arith)

jitter-le : (max random j : ℕ) → jitter max random ≡ some j → j ≤ max
unfolding jitter
jitter-le max random j h =
    let below : random % (max / nanos_per_milli % u64_modulus + 1)
        < max / nanos_per_milli % u64_modulus + 1 =
      omega arith in
    ground (arith, below)

-- Drawing the jitter answers a duration of at most the maximum, for every maximum below 2 ^ 64 - 1
-- milliseconds and all random bits; for `Duration::MAX` it always panics.
pub jitter-returns :
    (max random : ℕ)
    → max < (u64_modulus - 1) * nanos_per_milli
    → ((j : ℕ) × (jitter max random ≡ some j) × (j ≤ max)) × (jitter duration_max random ≡ none)
unfolding jitter
jitter-returns max random small = (
  elim (Option-cases (jitter max random)) [
    | inl e ↦ absurd (ground arith)
    | inr (j, e) ↦ (j, e, jitter-le max random j e)
  ],
  refl,
)

-- The delay of a failure lies between the scheduled wait, capped by the policy, and that wait plus
-- the largest jitter; it is never over `Duration::MAX`.
pub on_failure_delay_bounds :
    (l : UnlockRateLimiter) (p : UnlockThrottlePolicy) (now random delay : ℕ)
    → p.max_delay ≤ duration_max
    → (on_failure_delay l p now random).1 ≡ some delay
    → let base =
        min
          (password_delay_for_failures (on_failure_delay l p now random).0.failures)
          p.max_delay in
      (base ≤ delay) × (delay ≤ base + p.jitter_max) × (delay ≤ duration_max)
unfolding on_failure_delay
on_failure_delay_bounds l p now random delay fits h =
    elim (Option-cases (jitter p.jitter_max random)) [
      | inl e ↦ absurd (ground arith)
      | inr (j, e) ↦
          let small : j ≤ p.jitter_max = jitter-le p.jitter_max random j e in
          let base = min (password_delay_for_failures (registered l p now).failures) p.max_delay in
          let sum : delay ≡ min (base + j) duration_max = ground arith in
          (omega arith, omega arith, omega arith)
    ]
