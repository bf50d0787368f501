-- ===== src/Totp/Truncate.antt =====
-- The truncation of totp/engine.rs always answers a code of the asked width.
use viper_vault.Base.{
  ℕ, ◌-◌, ◌+◌, ◌%◌, ◌^◌, ◌≡◌, refl, true, ◌≤◌, ◌<◌, ok, Bytes, length, leb, arith, ◌⊎◌, inl, inr,
  some,
}
use native.Mathlib.Nat.{mod-lt}
use mathlib.Core.Path.{subst}
use viper_vault.Totp.{bin_code, byte_at, checked_pow10, dynamic_truncate}

mod-bound : (n : ℕ) → n % 16 < 16
mod-bound n = omega arith

pub pow10-fits :
    (digits : ℕ)
    → 6 ≤ digits
    → digits ≤ 8
    → (checked_pow10 digits ≡ some (10 ^ digits)) × (0 < 10 ^ digits)
unfolding checked_pow10
pow10-fits digits lo hi =
    let cases : (6 ≡ digits) ⊎ ((7 ≡ digits) ⊎ (8 ≡ digits)) = ground arith in
    let Fits : ℕ → Type 0 = λ d. (checked_pow10 d ≡ some (10 ^ d)) × (0 < 10 ^ d) in
    elim cases [
      | inl h ↦ subst Fits h (refl, omega arith)
      | inr (inl h) ↦ subst Fits h (refl, omega arith)
      | inr (inr h) ↦ subst Fits h (refl, omega arith)
    ]

-- With the digits that the parameters allow, a MAC of at least 20 bytes always has a code, and the
-- code has at most that many decimal digits: the truncation's error branches are never taken.
pub dynamic_truncate-bounded :
    (mac : Bytes) (digits : ℕ)
    → 20 ≤ length mac
    → 6 ≤ digits
    → digits ≤ 8
    → (code : ℕ) × (dynamic_truncate mac digits ≡ ok code) × (code < 10 ^ digits)
unfolding dynamic_truncate
dynamic_truncate-bounded mac digits long lo hi =
    let offset : ℕ = byte_at mac (length mac - 1) % 16 in
    let (power, positive) = pow10-fits digits lo hi in
    let small = mod-bound (byte_at mac (length mac - 1)) in
    let enough : leb 20 (length mac) ≡ true = ground arith in
    let inside : leb (offset + 4) (length mac) ≡ true = ground arith in
    (
      bin_code mac offset % 10 ^ digits,
      rw (enough, inside, power) refl,
      mod-lt (bin_code mac offset) positive,
    )
