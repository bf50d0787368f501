-- ===== src/Totp/Window.antt =====
-- The time window of `totp_verify` (totp/engine.rs).
use native.Mathlib.Nat.{div-le_self}
use viper_vault.Base.{
  ℕ, zero, suc, ◌+◌, ◌-◌, ◌*◌, ◌/◌, ◌^◌, ◌≡◌, refl, ap, ◌∙◌, Bool, true, false, ◌||◌, ◌≤◌, ◌<◌,
  some, Result, ok, >>=-eq-ok, >>-eq-ok, Bytes, length, leb, ◌==◌, ==_refl, map_err, arith, ◌⊎◌,
  inl, inr,
}
use viper_vault.Entries.Types.{TotpAlgorithm, TotpSecret, validate_totp}
use viper_vault.Totp.{
  TotpError, invalid_params, Base32, Hmac, validate_params, decode_base32_secret_strict,
  to_be_bytes, code_at, checked_key, totp_generate_raw, totp_generate_from_secret, window_counter,
  match_window, totp_verify,
}
use viper_vault.Totp.Truncate.{dynamic_truncate-bounded}

-- HMAC takes a key of any length, and its output has at least the 20 bytes of SHA-1.
abbrev pub IsHmac : Hmac → Type 0
IsHmac hmac =
    (a : TotpAlgorithm) (key msg : Bytes)
    → (mac : Bytes) × (hmac a key msg ≡ some mac) × (20 ≤ length mac)

split : (i k : ℕ) → i ≤ k → (i ≡ k) ⊎ (suc i ≤ k)
split i k h = ground arith

or-true : (b : Bool) → (b || true) ≡ true
or-true b = ground arith

module _ (code_of : ℕ → Result TotpError ℕ) (total : (c : ℕ) → (x : ℕ) × (code_of c ≡ ok x)) where
  matched : (base window code n i : ℕ) → match_window code_of base window code n i true ≡ ok true
  unfolding match_window
  matched base window code zero i = refl
  matched base window code (suc n) i =
      let (x, q) = total (window_counter base window i) in
      let ih = matched base window code n (suc i) in rw (q) ih

  hit :
      (base window code n i k : ℕ) (any : Bool)
      → i ≤ k
      → k < i + n
      → code_of (window_counter base window k) ≡ ok code
      → match_window code_of base window code n i any ≡ ok true
  unfolding match_window
  hit base window code zero i k any lo hi q = absurd (omega arith)
  hit base window code (suc n) i k any lo hi q = elim (split i k lo) [
    | inl same ↦
        let here : code_of (window_counter base window i) ≡ ok code =
          ap (λ a. code_of (window_counter base window a)) same ∙ q in
        rw (here, ==_refl code, or-true any) (matched base window code n (suc i))
    | inr later ↦
        let (x, found) = total (window_counter base window i) in
        rw (found) (hit base window code n (suc i) k (any || x == code) later (omega arith) q)
  ]

-- The step of the loop that tries a counter within the window.
step_of : (base c window : ℕ) → ℕ
step_of base c window = window + c - base

step-counter :
    (base c window : ℕ)
    → c ≤ base + window
    → base ≤ c + window
    → c < 2 ^ 64
    → (window_counter base window (step_of base c window) ≡ c)
      × (step_of base c window < 0 + (window * 2 + 1))
unfolding window_counter step_of
step-counter base c window above below fits = (ground arith, omega arith)

code_at-total :
    (hmac : Hmac) (a : TotpAlgorithm) (key : Bytes) (digits c : ℕ)
    → IsHmac hmac
    → 6 ≤ digits
    → digits ≤ 8
    → (x : ℕ) × (code_at hmac a key digits c ≡ ok x)
unfolding code_at
code_at-total hmac a key digits c good lo hi =
    let (mac, made, long) = good a key (to_be_bytes c) in
    let (x, code, _) = dynamic_truncate-bounded mac digits long lo hi in (x, rw (made, code) refl)

-- What a generation that succeeds has checked.
generated :
    (codec : Base32) (hmac : Hmac) (t : TotpSecret) (time : ℕ) {code : ℕ}
    → totp_generate_from_secret codec hmac t time ≡ ok code
    → (key : Bytes) × (map_err (λ _. invalid_params) (validate_totp t) ≡ ok tt)
      × (validate_params t.period_secs t.digits ≡ ok tt)
      × (decode_base32_secret_strict codec t.secret_b32 ≡ ok key)
      × (code_at hmac t.algorithm key t.digits (time / t.period_secs) ≡ ok code)
unfolding totp_generate_from_secret checked_key totp_generate_raw
generated codec hmac t time h =
    let (key, checked, made) = >>=-eq-ok (checked_key codec t) _ h in
    let (valid, rest) = >>-eq-ok (map_err (λ _. invalid_params) (validate_totp t)) _ checked in
    let (params, decoded) = >>-eq-ok (validate_params t.period_secs t.digits) _ rest in
    let (_, code) = >>-eq-ok (validate_params t.period_secs t.digits) _ made in
    (key, valid, params, decoded, code)

params-digits :
    (period digits : ℕ) → validate_params period digits ≡ ok tt → (6 ≤ digits) × (digits ≤ 8)
unfolding validate_params
params-digits period digits h = ground arith

-- A code that was generated at one time is accepted at every other time whose counter is at most
-- `window` steps away, before or after, up to the largest window that is allowed; the loop never
-- fails on the way.
pub totp_verify-generated :
    (codec : Base32) (hmac : Hmac) (t : TotpSecret) (made now code window : ℕ)
    → IsHmac hmac
    → window ≤ 10
    → made < 2 ^ 64
    → made / t.period_secs ≤ now / t.period_secs + window
    → now / t.period_secs ≤ made / t.period_secs + window
    → totp_generate_from_secret codec hmac t made ≡ ok code
    → totp_verify codec hmac t now code window ≡ ok true
unfolding totp_verify
totp_verify-generated codec hmac t made now code window good small fits above below h =
    let (key, valid, params, decoded, code_made) = generated codec hmac t made h in
    let (lo, hi) = params-digits t.period_secs t.digits params in
    let base : ℕ = now / t.period_secs in
    let c : ℕ = made / t.period_secs in
    let fits' : c < 2 ^ 64 = omega (arith, div-le_self made t.period_secs) in
    let (counter, inside) = step-counter base c window above below fits' in
    let allowed : leb window 10 ≡ true = ground arith in
    let found =
      hit (code_at hmac t.algorithm key t.digits)
        (λ x. code_at-total hmac t.algorithm key t.digits x good lo hi) base window code
        (window * 2 + 1) 0 (step_of base c window) false (omega arith) inside
        (ap (code_at hmac t.algorithm key t.digits) counter ∙ code_made) in
    rw (valid, params, allowed, decoded) found
