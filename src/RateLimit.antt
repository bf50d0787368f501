-- ===== src/RateLimit.antt =====
-- The unlock rate limiter: core/crates/vipervault-core/src/core/rate_limit.rs.
-- A `Duration` and an `Instant` are a number of nanoseconds. The clock's answer is the argument
-- `now`, and the 64 random bits of the jitter are `random`; `none` is a panic.
pub mod Delay
pub mod Streak
use viper_vault.Base.{
  ℕ, ◌+◌, ◌-◌, ◌*◌, ◌/◌, ◌%◌, ◌^◌, Option, none, some, ◌==◌, leb, if◌then◌else◌, min,
}

abbrev pub secs : ℕ → ℕ
secs n = n * 1_000_000_000

abbrev pub nanos_per_milli : ℕ
nanos_per_milli = 1_000_000

abbrev pub u32_max : ℕ
u32_max = 4_294_967_295

abbrev pub u64_modulus : ℕ
u64_modulus = 18_446_744_073_709_551_616

-- `Duration::MAX`: u64::MAX seconds and 999_999_999 nanoseconds
abbrev pub duration_max : ℕ
duration_max = 18_446_744_073_709_551_615_999_999_999

-- `Duration::saturating_add`
abbrev pub saturating_add : ℕ → ℕ → ℕ
saturating_add a b = min (a + b) duration_max

pub record UnlockThrottlePolicy : Type 0 where
  pub quiet_period : ℕ
  pub max_delay : ℕ
  pub jitter_max : ℕ

abbrev pub default_policy : UnlockThrottlePolicy
default_policy = record {
  quiet_period = secs 600;
  max_delay = secs 60;
  jitter_max = 1000 * nanos_per_milli;
}

pub record UnlockRateLimiter : Type 0 where
  pub failures : ℕ
  pub last_failure : Option ℕ

-- `UnlockRateLimiter::default()`
abbrev pub fresh : UnlockRateLimiter
fresh = record { failures = 0; last_failure = none }

unfoldable pub on_success : UnlockRateLimiter → UnlockRateLimiter
on_success l = record { failures = 0; last_failure = none }

unfoldable pub password_delay_for_failures : ℕ → ℕ
password_delay_for_failures n =
    if leb n 2
    then 0
    else if leb n 4
    then secs 1
    else if leb n 6
    then secs 5
    else if leb n 8
    then secs 10
    else if leb n 10
    then secs 15
    else if leb n 12
    then secs 30
    else if leb n 15
    then secs 60
    else secs 300

-- `max_ms as u64 + 1` is 0 on overflow, in a build without overflow checks, and the remainder by it
-- panics; in a build with the checks the addition does.
unfoldable pub jitter : ℕ → (random : ℕ) → Option ℕ
jitter max random =
    let max_ms : ℕ = max / nanos_per_milli in
    let bound : ℕ = max_ms % u64_modulus + 1 in
    if max_ms == 0
    then some 0
    else if bound == u64_modulus
    then none
    else some (random % bound * nanos_per_milli)

-- The failure count after a quiet period since the last failure.
unfoldable pub decayed : UnlockRateLimiter → UnlockThrottlePolicy → (now : ℕ) → ℕ
decayed l policy now = elim l.last_failure [
  | none ↦ l.failures
  | some last ↦ if leb policy.quiet_period (now - last) then l.failures / 2 else l.failures
]

-- The limiter that `on_failure_delay` leaves; it is stored before the jitter is drawn.
unfoldable pub registered : UnlockRateLimiter → UnlockThrottlePolicy → (now : ℕ) → UnlockRateLimiter
unfolding decayed
registered l policy now = record {
  failures = min (decayed l policy now + 1) u32_max;
  last_failure = some now;
}

unfoldable pub on_failure_delay :
    UnlockRateLimiter
    → UnlockThrottlePolicy
    → (now : ℕ) → (random : ℕ) → UnlockRateLimiter × Option ℕ
unfolding registered password_delay_for_failures jitter
on_failure_delay l policy now random =
    let l' : UnlockRateLimiter = registered l policy now in
    let base : ℕ = password_delay_for_failures l'.failures in
    (
      l',
      elim (jitter policy.jitter_max random) [
        | none ↦ none
        | some j ↦ some (saturating_add (min base policy.max_delay) j)
      ],
    )
