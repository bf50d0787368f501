-- ===== src/AuthGate/Throttle.antt =====
-- What the gate of core/auth_gate.rs does to those who guess.
use viper_vault.Base.{
  ℕ, ◌≤◌, ◌≡◌, refl, ◌∙◌, Bool, true, false, some, Result, ok, err, arith, if◌then◌else◌, min, List,
  [], ◌∷◌, Bool-cases, inl, inr,
}
use viper_vault.RateLimit.{registered, on_failure_delay, password_delay_for_failures, duration_max}
use viper_vault.RateLimit.Delay.{on_failure_delay_bounds}
use viper_vault.RateLimit.Streak.{run_failures}
use viper_vault.AuthGate.{AuthGate, run}

-- One use of the gate: the clock, the random bits and the operation's answer.
pub record Attempt (E T : Type 0) : Type 0 where
  pub now : ℕ
  pub random : ℕ
  pub op : Result E T

module _ {E T : Type 0} (fails : E → Bool) (resets : T → Bool) where
  pub run_all : AuthGate → List (Attempt E T) → AuthGate
  run_all g [] = g
  run_all g (a ∷ as') = run_all (run fails resets g a.now a.random a.op).0 as'

  -- The operation failed to authenticate.
  unfoldable pub guessed : Result E T → Bool
  guessed (ok v) = false
  guessed (err e) = fails e

  -- The operation did not succeed in a way that resets the streak.
  abbrev pub KeepsStreak : Result E T → Type 0
  KeepsStreak (ok v) = resets v ≡ false
  KeepsStreak (err e) = Unit {0}

  abbrev pub AllKeep : List (Attempt E T) → Type 0
  AllKeep [] = Unit {0}
  AllKeep (a ∷ as') = KeepsStreak a.op × AllKeep as'

  -- The instants of the failed authentications.
  pub guesses : List (Attempt E T) → List ℕ
  unfolding guessed
  guesses [] = []
  guesses (a ∷ as') = let rest = guesses as' in if guessed a.op then a.now ∷ rest else rest

  run-limiter :
      (g : AuthGate) (now random : ℕ) (op : Result E T)
      → KeepsStreak op
      → (run fails resets g now random op).0
        ≡ (if guessed op then record g { limiter = registered g.limiter g.policy now } else g)
  unfolding run guessed
  run-limiter g now random (ok v) h = rw h refl
  run-limiter g now random (err e) h = ground arith

  -- Malformed inputs and successes that do not reset (a decoy unlock) neither reset nor lower the
  -- streak: after any such attempts among the guesses, the limiter is the one that the failed
  -- authentications alone lead to.
  pub no_bypass :
      (as' : List (Attempt E T)) (g : AuthGate)
      → AllKeep as'
      → run_all g as' ≡ record g { limiter = run_failures g.policy g.limiter (guesses as') }
  unfolding run_all guesses run_failures
  no_bypass [] g h = refl
  no_bypass (a ∷ as') g h = elim (Bool-cases (guessed a.op)) [
    | inl e ↦
        let step : (run fails resets g a.now a.random a.op).0
            ≡ record g { limiter = registered g.limiter g.policy a.now } =
          run-limiter g a.now a.random a.op h.0 ∙ rw e refl in
        rw step
          (rw e (no_bypass as' (record g { limiter = registered g.limiter g.policy a.now }) h.1))
    | inr e ↦
        let step : (run fails resets g a.now a.random a.op).0 ≡ g =
          run-limiter g a.now a.random a.op h.0 ∙ rw e refl in
        rw step (rw e (no_bypass as' g h.1))
  ]

  -- A failed authentication that returns has slept at least the scheduled wait for the streak that
  -- it makes, capped by the policy, and returns its own error.
  pub guess_waits :
      (g : AuthGate) (now random : ℕ) (e : E) (d : ℕ) (r : Result E T)
      → g.policy.max_delay ≤ duration_max
      → fails e ≡ true
      → (run fails resets g now random (err e)).1 ≡ some (d, r)
      → (min
            (password_delay_for_failures (registered g.limiter g.policy now).failures)
            g.policy.max_delay
          ≤ d)
        × (r ≡ err e)
  unfolding run
  guess_waits g now random e d r fits h returns =
      let slept : (on_failure_delay g.limiter g.policy now random).1 ≡ some d = ground arith in
      ((on_failure_delay_bounds g.limiter g.policy now random d fits slept).0, ground arith)
