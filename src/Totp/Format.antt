-- ===== src/Totp/Format.antt =====
-- The printed form of a code: totp/format.rs, and `totp_generate_formatted` of totp/engine.rs.
use viper_vault.Base.{
  ℕ, zero, suc, ◌+◌, ◌-◌, ◌*◌, ◌/◌, ◌%◌, [], ◌∷◌, ◌++◌, Result, ok, ◌>>=◌, ◌>>◌, within, guard,
  ok_or,
}
use viper_vault.Text.{Str}
use viper_vault.Entries.Types.{TotpSecret}
use viper_vault.Totp.{
  Base32, Hmac, totp_generate_from_secret, TotpError, invalid_params, checked_pow10,
}

-- `format!("{:0width$}", n)` of a number below 10 ^ width: its decimal digits after leading zeros.
unfoldable pub zero_padded : (width n : ℕ) → Str
zero_padded zero n = []
zero_padded (suc w) n = zero_padded w (n / 10) ++ ((b'0' + n % 10) ∷ [])

unfoldable pub format_totp_code : (code digits : ℕ) → Result TotpError Str
unfolding checked_pow10 zero_padded
format_totp_code code digits = do
  guard (within 6 8 digits) invalid_params
  modulo ← ok_or (checked_pow10 digits) invalid_params
  ok (zero_padded digits (code % modulo))

-- engine.rs
unfoldable pub totp_generate_formatted :
    Base32 → Hmac → TotpSecret → (unix_time_secs : ℕ) → Result TotpError Str
unfolding totp_generate_from_secret format_totp_code
totp_generate_formatted codec hmac t time = do
  code ← totp_generate_from_secret codec hmac t time
  format_totp_code code t.digits

-- The number that a string of decimal digits stands for.
unfoldable pub read_decimal : Str → ℕ → ℕ
read_decimal [] acc = acc
read_decimal (c ∷ cs) acc = read_decimal cs (acc * 10 + (c - b'0'))
