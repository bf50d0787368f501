-- ===== src/Examples/Updates.antt =====
-- Entries, their constructors and their updates (entries/types.rs).
use viper_vault.Base.{◌≡◌, refl, [], ◌∷◌, none, some, err}
use viper_vault.Text.{len}
use viper_vault.Entries.Error.{empty_field, invalid_type}
use viper_vault.Entries.Validate.{
  validate_required_bounded, reject_controls_and_bidi, validate_title,
}
use viper_vault.Entries.Types.{
  VaultEntry, TotpSecret, sha1, totp, password, secure_note, new_totp, set_secret, set_totp,
  validate_totp, validate_base32, validate_invariants,
}
use viper_vault.Entries.Update.{apply_update}
use viper_vault.Entries.WellFormed.{
  IsWellFormed, constructed-IsWellFormed, by_totp, apply_update-IsWellFormed,
}
use viper_vault.Entries.Rejected.{rejected-invalid}

abbrev block : TotpSecret
block = record {
  issuer = none;
  account_name = none;
  secret_b32 = b'M' ∷ b'Z' ∷ [];
  digits = 6;
  period_secs = 30;
  algorithm = sha1;
}

abbrev mail : VaultEntry
mail = record {
  meta = record { id = 1; entry_type = password };
  secret = record {
    title = b'm' ∷ [];
    note = none;
    username = none;
    secret = b's' ∷ [];
    extra = none;
    totp = none;
  };
}

abbrev memo : VaultEntry
memo = record {
  meta = record { id = 2; entry_type = secure_note };
  secret = record {
    title = b'm' ∷ [];
    note = some (b'n' ∷ []);
    username = none;
    secret = b'n' ∷ [];
    extra = none;
    totp = none;
  };
}

abbrev token : VaultEntry
token = record {
  meta = record { id = 3; entry_type = totp };
  secret = record {
    title = b't' ∷ [];
    note = none;
    username = none;
    secret = b'M' ∷ b'Z' ∷ [];
    extra = none;
    totp = some block;
  };
}

constructed-IsWellFormed_example : IsWellFormed token × (token.meta.id ≡ 3)
unfolding new_totp validate_title validate_totp validate_base32 len validate_required_bounded
    reject_controls_and_bidi
constructed-IsWellFormed_example =
    constructed-IsWellFormed 3 token (by_totp (b't' ∷ []) block none refl)

apply_update-IsWellFormed_example : IsWellFormed (apply_update (set_secret (b'A' ∷ [])) token).0
unfolding apply_update new_totp validate_title validate_totp validate_base32 len
    validate_required_bounded reject_controls_and_bidi
apply_update-IsWellFormed_example =
    apply_update-IsWellFormed (set_secret (b'A' ∷ [])) token
      (record { titled = refl; noted = refl; named = refl; typed = (refl, refl) }) refl

rejected-invalid_example :
    ((apply_update (set_secret []) token).1 ≡ err empty_field)
    × (validate_invariants (apply_update (set_secret []) token).0 ≡ err empty_field)
    × ((apply_update (set_totp none) token).1 ≡ err invalid_type)
    × (validate_invariants (apply_update (set_totp none) token).0 ≡ err invalid_type)
unfolding validate_totp validate_base32 len
rejected-invalid_example = rejected-invalid token block [] empty_field refl refl refl
