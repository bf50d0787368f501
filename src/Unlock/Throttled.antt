-- ===== src/Unlock/Throttled.antt =====
-- Unlocking behind the gate: core/unlock.rs over core/auth_gate.rs.
use viper_vault.Base.{
  ℕ, ◌≡◌, refl, ◌∙◌, false, List, [], ◌∷◌, Result, ok, err, Bytes, arith, if◌then◌else◌, inl, inr,
  Bool-cases,
}
use viper_vault.Session.{UnlockOutcome, primary, decoy}
use viper_vault.Crypto.{Primitives}
use viper_vault.Vault.Types.{ParsedVaultFile}
use viper_vault.Vault.Duress.{VaultJson}
use viper_vault.RateLimit.{registered, on_failure_delay}
use viper_vault.RateLimit.Streak.{run_failures}
use viper_vault.AuthGate.{AuthGate, run, reset, throttle}
use viper_vault.AuthGate.Throttle.{guessed}
use viper_vault.Unlock.{
  UnlockError, auth_failed, kdf, parse, payload_decode, internal, is_auth_failed, reset_on_primary,
  unlock_vault_to_plaintext_json_with_outcome, unlock_plaintext_json_gated,
}

-- What the gate becomes by the answer of the unlock behind it.
pub gate_after :
    {A : Type 0} → AuthGate → (now : ℕ) → Result UnlockError (UnlockOutcome × A) → AuthGate
gate_after g now (ok (primary, x)) = reset g
gate_after g now (ok (decoy, x)) = g
gate_after g now (err auth_failed) = record g { limiter = registered g.limiter g.policy now }
gate_after g now (err (parse e)) = g
gate_after g now (err (kdf e)) = g
gate_after g now (err payload_decode) = g
gate_after g now (err internal) = g

gate-reset_on_primary :
    {A : Type 0} (g : AuthGate) (now random : ℕ) (r : Result UnlockError (UnlockOutcome × A))
    → (reset_on_primary (run is_auth_failed (λ _. false) g now random r)).0 ≡ gate_after g now r
unfolding run throttle on_failure_delay reset_on_primary is_auth_failed gate_after
gate-reset_on_primary g now random (ok (primary, x)) = refl
gate-reset_on_primary g now random (ok (decoy, x)) = refl
gate-reset_on_primary g now random (err auth_failed) = ground arith
gate-reset_on_primary g now random (err (parse e)) = refl
gate-reset_on_primary g now random (err (kdf e)) = refl
gate-reset_on_primary g now random (err payload_decode) = refl
gate-reset_on_primary g now random (err internal) = refl

-- One use of the gate: only a primary unlock resets it, only a failed authentication is registered, and
-- a decoy unlock or a malformed file leaves it as it was, also where the limiter panics.
pub gate-unlock_plaintext_json_gated :
    (c : Primitives) (j : VaultJson) (g : AuthGate) (now random : ℕ) (parsed : ParsedVaultFile)
    (password : Bytes)
    → (unlock_plaintext_json_gated c j g now random parsed password).0
      ≡ gate_after g now (unlock_vault_to_plaintext_json_with_outcome c j parsed password)
unfolding unlock_plaintext_json_gated
gate-unlock_plaintext_json_gated c j g now random parsed password =
    gate-reset_on_primary g now random
      (unlock_vault_to_plaintext_json_with_outcome c j parsed password)

-- A use of the gated unlock.
pub record GatedUnlock : Type 0 where
  pub now : ℕ
  pub random : ℕ
  pub parsed : ParsedVaultFile
  pub password : Bytes

-- It did not open the real payload.
abbrev pub IsNotPrimary : Result UnlockError (UnlockOutcome × Bytes) → Type 0
IsNotPrimary (ok (primary, x)) = ⊥
IsNotPrimary (ok (decoy, x)) = Unit {0}
IsNotPrimary (err e) = Unit {0}

gate_after-not_primary :
    (g : AuthGate) (now : ℕ) (r : Result UnlockError (UnlockOutcome × Bytes))
    → IsNotPrimary r
    → gate_after g now r ≡ (
        if guessed is_auth_failed (λ _. false) r
        then record g { limiter = registered g.limiter g.policy now }
        else g)
unfolding gate_after guessed is_auth_failed
gate_after-not_primary g now (ok (primary, x)) h = absurd h
gate_after-not_primary g now (ok (decoy, x)) h = refl
gate_after-not_primary g now (err auth_failed) h = refl
gate_after-not_primary g now (err (parse e)) h = refl
gate_after-not_primary g now (err (kdf e)) h = refl
gate_after-not_primary g now (err payload_decode) h = refl
gate_after-not_primary g now (err internal) h = refl

module _ (c : Primitives) (j : VaultJson) where
  -- The answer of the unlock behind the gate.
  unfoldable pub answer : GatedUnlock → Result UnlockError (UnlockOutcome × Bytes)
  answer u = unlock_vault_to_plaintext_json_with_outcome c j u.parsed u.password

  pub unlock_all : AuthGate → List GatedUnlock → AuthGate
  unlock_all g [] = g
  unlock_all g (u ∷ us) =
      unlock_all (unlock_plaintext_json_gated c j g u.now u.random u.parsed u.password).0 us

  abbrev pub NoneIsPrimary : List GatedUnlock → Type 0
  NoneIsPrimary [] = Unit {0}
  NoneIsPrimary (u ∷ us) = IsNotPrimary (answer u) × NoneIsPrimary us

  -- The instants of the failed authentications.
  pub failures_of : List GatedUnlock → List ℕ
  failures_of [] = []
  failures_of (u ∷ us) =
      let rest = failures_of us in
      if guessed is_auth_failed (λ _. false) (answer u) then u.now ∷ rest else rest

  -- However many wrong passwords, decoy unlocks and unreadable files come one after another, as long
  -- as none opens the real payload the gate's streak is that of the failed authentications alone:
  -- opening the decoy buys no further guesses at the primary password.
  pub decoy_never_resets :
      (us : List GatedUnlock) (g : AuthGate)
      → NoneIsPrimary us
      → unlock_all g us ≡ record g { limiter = run_failures g.policy g.limiter (failures_of us) }
  unfolding unlock_all failures_of run_failures answer
  decoy_never_resets [] g h = refl
  decoy_never_resets (u ∷ us) g h =
      let step : (unlock_plaintext_json_gated c j g u.now u.random u.parsed u.password).0 ≡ (
          if guessed is_auth_failed (λ _. false) (answer u)
          then record g { limiter = registered g.limiter g.policy u.now }
          else g) =
        gate-unlock_plaintext_json_gated c j g u.now u.random u.parsed u.password
        ∙ gate_after-not_primary g u.now (answer u) h.0 in
      elim (Bool-cases (guessed is_auth_failed (λ _. false) (answer u))) [
        | inl e ↦ rw step (
            rw e (
              decoy_never_resets us (record g { limiter = registered g.limiter g.policy u.now })
                h.1))
        | inr e ↦ rw step (rw e (decoy_never_resets us g h.1))
      ]
