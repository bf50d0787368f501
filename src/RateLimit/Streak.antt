-- ===== src/RateLimit/Streak.antt =====
-- The failure count of core/rate_limit.rs over a run of failed attempts.
use viper_vault.Base.{
  ℕ, ◌+◌, ◌-◌, ◌/◌, ◌≤◌, ◌<◌, ◌≡◌, refl, some, List, [], ◌∷◌, min, arith, length,
}
use viper_vault.RateLimit.{
  UnlockThrottlePolicy, UnlockRateLimiter, fresh, u32_max, decayed, registered,
}

-- The limiter after failures at the given instants.
unfoldable pub run_failures : UnlockThrottlePolicy → UnlockRateLimiter → List ℕ → UnlockRateLimiter
run_failures p l [] = l
run_failures p l (t ∷ ts) = run_failures p (registered l p t) ts

-- Each instant follows the one before it within less than the quiet period.
abbrev pub AreClose : ℕ → ℕ → List ℕ → Type 0
AreClose quiet last [] = Unit {0}
AreClose quiet last (t ∷ ts) = (t - last < quiet) × AreClose quiet t ts

close-decayed :
    (p : UnlockThrottlePolicy) (l : UnlockRateLimiter) (last t : ℕ)
    → l.last_failure ≡ some last
    → t - last < p.quiet_period
    → decayed l p t ≡ l.failures
unfolding decayed
close-decayed p l last t e h = ground arith

run_failures-close :
    (p : UnlockThrottlePolicy) (ts : List ℕ) (l : UnlockRateLimiter) (last : ℕ)
    → l.last_failure ≡ some last
    → l.failures ≤ u32_max
    → AreClose p.quiet_period last ts
    → (run_failures p l ts).failures ≡ min (l.failures + length ts) u32_max
unfolding run_failures registered
run_failures-close p [] l last e b h = omega arith
run_failures-close p (t ∷ ts) l last e b h =
    let count : decayed l p t ≡ l.failures = close-decayed p l last t e h.0 in
    omega (arith, count, run_failures-close p ts (registered l p t) t refl (omega arith) h.1)

-- Failures that follow one another within the quiet period are all counted, up to the 32-bit
-- maximum; the first failure after a success counts as one.
pub streak_count :
    (p : UnlockThrottlePolicy) (t : ℕ) (ts : List ℕ)
    → AreClose p.quiet_period t ts
    → (run_failures p fresh (t ∷ ts)).failures ≡ min (1 + length ts) u32_max
unfolding run_failures registered decayed
streak_count p t ts h =
    omega (arith, run_failures-close p ts (registered fresh p t) t refl (omega arith) h)

-- A failure that comes a quiet period or more after the last one finds the count halved.
pub quiet_halves :
    (p : UnlockThrottlePolicy) (l : UnlockRateLimiter) (last now : ℕ)
    → l.last_failure ≡ some last
    → l.failures ≤ u32_max
    → p.quiet_period ≤ now - last
    → ((registered l p now).failures ≡ l.failures / 2 + 1)
      × ((registered l p now).last_failure ≡ some now)
unfolding registered decayed
quiet_halves p l last now e b h = (ground arith, refl)
