-- ===== src/Totp.antt =====
-- TOTP generation and verification: core/crates/vipervault-core/src/totp/engine.rs, decode.rs,
-- error.rs. HMAC and the Base32 decoder are parameters.
use viper_vault.Base.{
  ℕ, zero, suc, ◌+◌, ◌-◌, ◌*◌, ◌/◌, ◌%◌, ◌^◌, min, ◌≡◌, Bool, true, false, not, ◌&&◌, ◌||◌, List,
  [], ◌∷◌, ◌++◌, Option, none, some, Result, ok, err, Done, ◌>>=◌, ◌>>◌, Bytes, to_le, ltb, leb,
  within, ◌==◌, if◌then◌else◌, length, all, any, guard, ok_or, map_err,
}
use viper_vault.Text.{Str, len, is_empty, is_ascii}
use viper_vault.Entries.Types.{TotpAlgorithm, TotpSecret, is_base32, validate_totp}
use viper_vault.Entries.Error.{EntryError}
pub mod Truncate
pub mod Window
pub mod Format
pub mod Export

pub data TotpError : Type 0 where
  invalid_params invalid_secret crypto_failure : TotpError

-- `base32ct`: decoding into a buffer of a given capacity, none for its error.
pub record Base32 : Type 0 where
  pub unpadded : Str → (capacity : ℕ) → Option Bytes
  pub padded : Str → (capacity : ℕ) → Option Bytes

-- `Hmac::new_from_slice(key)`, `update(msg)` and `finalize()`; none where the key is refused.
abbrev pub Hmac : Type 0
Hmac = TotpAlgorithm → (key msg : Bytes) → Option Bytes

-- `trim_end_matches('=')`
unfoldable pub trim_end : Str → Str
unfolding is_empty
trim_end [] = []
trim_end (c ∷ cs) = let rest = trim_end cs in if is_empty rest && c == b'=' then [] else c ∷ rest

unfoldable pub valid_length : ℕ → Bool
valid_length n = n == 0 || n == 2 || n == 4 || n == 5 || n == 7

unfoldable pub decode_base32_secret_strict : Base32 → Str → Result TotpError Bytes
unfolding is_empty is_ascii is_base32 trim_end valid_length
decode_base32_secret_strict codec s = do
  guard (not (is_empty s || ltb 1024 (len s))) invalid_secret
  guard (is_ascii s) invalid_secret
  guard (all is_base32 s) invalid_secret
  let trimmed : Str = trim_end s
  guard (not (is_empty trimmed)) invalid_secret
  guard (not (any (λ c. c == b'=') trimmed)) invalid_secret
  guard (valid_length (len trimmed % 8)) invalid_secret
  let capacity : ℕ = (len trimmed * 5 + 7) / 8
  out ←
      ok_or
        (if len trimmed == len s then codec.unpadded trimmed capacity else codec.padded s capacity)
        invalid_secret
  guard (leb 16 (length out)) invalid_secret
  ok out

unfoldable pub validate_params : (period_secs digits : ℕ) → Result TotpError Done
validate_params period_secs digits = do
  guard (within 10 120 period_secs) invalid_params
  guard (within 6 8 digits) invalid_params
  ok tt

-- `slice[i]`, asked only below the slice's length.
unfoldable pub byte_at : Bytes → ℕ → ℕ
byte_at [] i = 0
byte_at (b ∷ bs) zero = b
byte_at (b ∷ bs) (suc i) = byte_at bs i

-- `10u32.checked_pow(digits as u32)`
unfoldable pub checked_pow10 : ℕ → Option ℕ
checked_pow10 digits = if ltb (10 ^ digits) (2 ^ 32) then some (10 ^ digits) else none

-- The masks `& 0x0f` and `& 0x7f` are remainders, and the four shifted bytes share no bit, so that
-- `|` is their sum.
unfoldable pub bin_code : (mac : Bytes) → (offset : ℕ) → ℕ
unfolding byte_at
bin_code mac offset =
    (byte_at mac offset % 128) * 2 ^ 24
    + byte_at mac (offset + 1) * 2 ^ 16
    + byte_at mac (offset + 2) * 2 ^ 8
    + byte_at mac (offset + 3)

unfoldable pub dynamic_truncate : (mac : Bytes) → (digits : ℕ) → Result TotpError ℕ
unfolding byte_at bin_code checked_pow10
dynamic_truncate mac digits = do
  guard (leb 20 (length mac)) crypto_failure
  let offset : ℕ = byte_at mac (length mac - 1) % 16
  guard (leb (offset + 4) (length mac)) crypto_failure
  modulo ← ok_or (checked_pow10 digits) invalid_params
  ok (bin_code mac offset % modulo)

abbrev pub reverse : Bytes → Bytes
reverse [] = []
reverse (b ∷ bs) = reverse bs ++ (b ∷ [])

-- `counter.to_be_bytes()`
unfoldable pub to_be_bytes : ℕ → Bytes
unfolding to_le
to_be_bytes n = reverse (to_le 8 n)

-- The code of one counter: `hmac_sha1`, `hmac_sha256` or `hmac_sha512`, and the truncation.
unfoldable pub code_at :
    Hmac → TotpAlgorithm → (key : Bytes) → (digits counter : ℕ) → Result TotpError ℕ
unfolding dynamic_truncate to_be_bytes
code_at hmac algorithm key digits counter = do
  mac ← ok_or (hmac algorithm key (to_be_bytes counter)) crypto_failure
  dynamic_truncate mac digits

unfoldable pub totp_generate_raw :
    Hmac
    → (secret_raw : Bytes) → (unix_time_secs period_secs digits : ℕ) → TotpAlgorithm
    → Result TotpError ℕ
unfolding validate_params code_at
totp_generate_raw hmac key time period_secs digits algorithm = do
  validate_params period_secs digits
  code_at hmac algorithm key digits (time / period_secs)

-- `totp.validate().map_err(|_| TotpError::InvalidParams)?`, the check of the parameters, and the
-- decoded secret, with which generation and verification both begin.
unfoldable pub checked_key : Base32 → TotpSecret → Result TotpError Bytes
unfolding validate_totp validate_params decode_base32_secret_strict
checked_key codec t = do
  map_err (λ _. invalid_params) (validate_totp t)
  validate_params t.period_secs t.digits
  decode_base32_secret_strict codec t.secret_b32

unfoldable pub totp_generate_from_secret :
    Base32 → Hmac → TotpSecret → (unix_time_secs : ℕ) → Result TotpError ℕ
unfolding checked_key totp_generate_raw
totp_generate_from_secret codec hmac t time = do
  key ← checked_key codec t
  totp_generate_raw hmac key time t.period_secs t.digits t.algorithm

-- The counter of the i-th step of the loop: `base_counter` moved by i - window, saturating in u64.
unfoldable pub window_counter : (base window i : ℕ) → ℕ
window_counter base window i =
    if ltb i window then base - (window - i) else min (base + (i - window)) (2 ^ 64 - 1)

-- The loop from step i on, with the steps that remain and `any_match` so far.
unfoldable pub match_window :
    (code_of : ℕ → Result TotpError ℕ)
    → (base window code : ℕ) → (remaining i : ℕ) → (any_match : Bool) → Result TotpError Bool
unfolding window_counter
match_window code_of base window code zero i any_match = ok any_match
match_window code_of base window code (suc n) i any_match = do
  expected ← code_of (window_counter base window i)
  match_window code_of base window code n (suc i) (any_match || expected == code)

unfoldable pub totp_verify :
    Base32 → Hmac → TotpSecret → (unix_time_secs code window : ℕ) → Result TotpError Bool
unfolding validate_totp validate_params decode_base32_secret_strict match_window code_at
totp_verify codec hmac t time code window = do
  map_err (λ _. invalid_params) (validate_totp t)
  validate_params t.period_secs t.digits
  guard (leb window 10) invalid_params
  key ← decode_base32_secret_strict codec t.secret_b32
  match_window (code_at hmac t.algorithm key t.digits) (time / t.period_secs) window code
      (window * 2 + 1) 0 false
