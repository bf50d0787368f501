-- ===== src/Entries/Types.antt =====
-- The entry data model: core/crates/vipervault-core/src/entries/types.rs, without its serde DTOs.
-- A secret wrapper is the value that it holds, and an identifier is a 128-bit number.
use viper_vault.Base.{
  ℕ, Bool, not, ◌||◌, Option, none, some, Result, ok, err, Done, ◌>>◌, Bytes, ltb, ◌==◌, within,
  if◌then◌else◌, all,
}
use viper_vault.Text.{Str, len, is_empty, is_ascii}
use viper_vault.Entries.Error.{
  EntryError, empty_field, field_too_large, forbidden_chars, suspicious_unicode, invalid_type,
}
use viper_vault.Entries.Validate.{
  validate_title, validate_note, validate_username, validate_password,
}

pub data EntryType : Type 0 where
  password secure_note card totp : EntryType

pub data TotpAlgorithm : Type 0 where
  sha1 sha256 sha512 : TotpAlgorithm

pub record TotpSecret : Type 0 where
  pub issuer : Option Str
  pub account_name : Option Str
  pub secret_b32 : Str
  pub digits : ℕ
  pub period_secs : ℕ
  pub algorithm : TotpAlgorithm

-- `matches!(b, b'A'..=b'Z' | b'2'..=b'7' | b'=')`
unfoldable pub is_base32 : ℕ → Bool
is_base32 b = within b'A' b'Z' b || within b'2' b'7' b || b == b'='

-- The string part of `TotpSecret::validate`.
unfoldable pub validate_base32 : Str → Result EntryError Done
unfolding is_empty is_ascii is_base32
validate_base32 s =
    if is_empty s
    then err empty_field
    else if ltb 1024 (len s)
    then err field_too_large
    else if not (is_ascii s)
    then err suspicious_unicode
    else if not (all is_base32 s)
    then err forbidden_chars
    else ok tt

-- `TotpSecret::validate`
unfoldable pub validate_totp : TotpSecret → Result EntryError Done
validate_totp t =
    if not (t.digits == 6 || t.digits == 7 || t.digits == 8)
    then err invalid_type
    else if ltb t.period_secs 10 || ltb 120 t.period_secs
    then err invalid_type
    else validate_base32 t.secret_b32

pub record EntryMetadata : Type 0 where
  pub id : ℕ
  pub entry_type : EntryType

pub record EntrySecret : Type 0 where
  pub title : Str
  pub note : Option Str
  pub username : Option Str
  pub secret : Str
  pub extra : Option Bytes
  pub totp : Option TotpSecret

pub record VaultEntry : Type 0 where
  pub meta : EntryMetadata
  pub secret : EntrySecret

pub record EntrySummary : Type 0 where
  pub id : ℕ
  pub entry_type : EntryType
  pub title : Str

pub record EntryView : Type 0 where
  pub id : ℕ
  pub entry_type : EntryType
  pub title : Str
  pub note : Option Str
  pub username : Option Str
  pub secret : Str
  pub extra : Option Bytes
  pub totp : Option TotpSecret

pub data EntryUpdate : Type 0 where
  set_title set_secret : Str → EntryUpdate
  set_note set_username : Option Str → EntryUpdate
  set_extra : Option Bytes → EntryUpdate
  set_totp : Option TotpSecret → EntryUpdate
  replace :
      (title : Option Str)
      → (note username : Option (Option Str)) → (secret : Option Str)
      → (extra : Option (Option Bytes)) → (totp : Option (Option TotpSecret)) → EntryUpdate

-- `if let Some(ref x) = o { f(x)?; }`
abbrev pub when_some {ℓ} :
    {A : Type ℓ} → (A → Result EntryError Done) → Option A → Result EntryError Done
when_some f none = ok tt
when_some f (some x) = f x

unfoldable pub check_invariants : EntryType → Option TotpSecret → Result EntryError Done
check_invariants totp none = err invalid_type
check_invariants totp (some t) = validate_totp t
check_invariants _ none = ok tt
check_invariants _ (some t) = err invalid_type

unfoldable pub validate_invariants : VaultEntry → Result EntryError Done
unfolding check_invariants
validate_invariants e = check_invariants e.meta.entry_type e.secret.totp

-- The constructors; `id` is what `Uuid::new_v4` answers.
unfoldable pub new_password :
    (id : ℕ) → Str → Option Str → Str → Option Str → Result EntryError VaultEntry
unfolding validate_invariants
new_password id title username password' note = do
  validate_title title
  when_some validate_note note
  when_some validate_username username
  validate_password password'
  let entry : VaultEntry = record {
    meta = record { id = id; entry_type = password };
    secret = record {
      title = title;
      note = note;
      username = username;
      secret = password';
      extra = none;
      totp = none;
    };
  }
  validate_invariants entry
  ok entry

unfoldable pub new_secure_note : (id : ℕ) → Str → Str → Result EntryError VaultEntry
unfolding validate_invariants
new_secure_note id title note = do
  validate_title title
  validate_note note
  let entry : VaultEntry = record {
    meta = record { id = id; entry_type = secure_note };
    secret = record {
      title = title;
      note = some note;
      username = none;
      secret = note;
      extra = none;
      totp = none;
    };
  }
  validate_invariants entry
  ok entry

unfoldable pub new_totp : (id : ℕ) → Str → TotpSecret → Option Str → Result EntryError VaultEntry
unfolding validate_invariants
new_totp id title t note = do
  validate_title title
  when_some validate_note note
  validate_totp t
  let entry : VaultEntry = record {
    meta = record { id = id; entry_type = totp };
    secret = record {
      title = title;
      note = note;
      username = none;
      secret = t.secret_b32;
      extra = none;
      totp = some t;
    };
  }
  validate_invariants entry
  ok entry

unfoldable pub to_summary : VaultEntry → EntrySummary
to_summary e = record { id = e.meta.id; entry_type = e.meta.entry_type; title = e.secret.title }

unfoldable pub to_view : VaultEntry → EntryView
to_view e = record {
  id = e.meta.id;
  entry_type = e.meta.entry_type;
  title = e.secret.title;
  note = e.secret.note;
  username = e.secret.username;
  secret = e.secret.secret;
  extra = e.secret.extra;
  totp = e.secret.totp;
}
