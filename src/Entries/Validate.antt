-- ===== src/Entries/Validate.antt =====
-- Field validation: core/crates/vipervault-core/src/entries/validate.rs.
use viper_vault.Base.{
  ℕ, Bool, ◌||◌, Result, ok, err, Done, ◌>>◌, ltb, ◌==◌, within, if◌then◌else◌, any,
}
use viper_vault.Text.{Str, len, is_empty, is_control}
use viper_vault.Entries.Error.{
  EntryError, empty_field, field_too_large, forbidden_chars, suspicious_unicode,
}

abbrev pub max_title_len : ℕ
max_title_len = 256

abbrev pub max_username_len : ℕ
max_username_len = 320

abbrev pub max_note_len : ℕ
max_note_len = 8192

abbrev pub max_password_len : ℕ
max_password_len = 1024

unfoldable pub validate_required_bounded : Str → ℕ → Result EntryError Done
unfolding is_empty
validate_required_bounded s max_len =
    if is_empty s
    then err empty_field
    else if ltb max_len (len s)
    then err field_too_large
    else ok tt

unfoldable pub is_bidi : ℕ → Bool
is_bidi u =
    within 0x202A 0x202E u || within 0x2066 0x2069 u || u == 0x200E || u == 0x200F || u == 0x061C

unfoldable pub is_zero_width : ℕ → Bool
is_zero_width u = within 0x200B 0x200D u || u == 0xFEFF

-- Two passes over the characters, each with an early return.
unfoldable pub reject_controls_and_bidi : Str → Result EntryError Done
unfolding is_control is_bidi is_zero_width
reject_controls_and_bidi s =
    if any is_control s
    then err forbidden_chars
    else if any (λ u. is_bidi u || is_zero_width u) s
    then err suspicious_unicode
    else ok tt

unfoldable pub validate_title : Str → Result EntryError Done
validate_title s = do validate_required_bounded s max_title_len; reject_controls_and_bidi s

unfoldable pub validate_note : Str → Result EntryError Done
validate_note s = do validate_required_bounded s max_note_len; reject_controls_and_bidi s

unfoldable pub validate_username : Str → Result EntryError Done
validate_username s = do validate_required_bounded s max_username_len; reject_controls_and_bidi s

unfoldable pub validate_password : Str → Result EntryError Done
validate_password s = validate_required_bounded s max_password_len
