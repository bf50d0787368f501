-- ===== src/Entries/Rejected.antt =====
-- What an update that fails leaves behind (entries/types.rs): it never touches the metadata, but
-- it does not undo what it wrote before the error.
use viper_vault.Base.{◌≡◌, refl, ◌∙◌, Option, none, some, err, inl, inr, Done-cases, arith, Bytes}
use viper_vault.Text.{Str}
use viper_vault.Entries.Error.{EntryError, invalid_type}
use viper_vault.Entries.Types.{
  totp, TotpSecret, validate_totp, VaultEntry, EntryUpdate, set_title, set_secret, set_note,
  set_username, set_extra, set_totp, replace, validate_invariants,
}
use viper_vault.Entries.Update.{
  Update, ◌then_do◌, then-ok, then-err, check_self, write_title, write_note, write_username,
  write_extra, apply_set_secret, apply_set_totp, optional, apply_update,
}

-- The update leaves the metadata alone, whether it succeeds or fails.
record KeepsMeta (u : Update) : Type 0 where
  at : (e : VaultEntry) → (u e).0.meta ≡ e.meta

then-KeepsMeta : (u v : Update) → KeepsMeta u → KeepsMeta v → KeepsMeta (u then_do v)
then-KeepsMeta u v ku kv = record {
  at = λ e. elim (Done-cases (u e).1) [
    | inl q ↦ rw (then-ok u v e q) (kv.at (u e).0 ∙ ku.at e)
    | inr (x, q) ↦ rw (then-err u v e {x = x} q) (ku.at e)
  ];
}

optional-KeepsMeta :
    {A : Type 0} (f : A → Update) (o : Option A)
    → ((a : A) → KeepsMeta (f a))
    → KeepsMeta (optional f o)
optional-KeepsMeta f none k = record { at = λ e. refl }
optional-KeepsMeta f (some a) k = k a

self-KeepsMeta : KeepsMeta check_self
unfolding check_self
self-KeepsMeta = record { at = λ e. refl }

title-KeepsMeta : (t : Str) → KeepsMeta (write_title t)
unfolding write_title
title-KeepsMeta t = record { at = λ e. ground arith }

note-KeepsMeta : (n : Option Str) → KeepsMeta (write_note n)
unfolding write_note
note-KeepsMeta n = record { at = λ e. ground arith }

username-KeepsMeta : (n : Option Str) → KeepsMeta (write_username n)
unfolding write_username
username-KeepsMeta n = record { at = λ e. ground arith }

extra-KeepsMeta : (x : Option Bytes) → KeepsMeta (write_extra x)
unfolding write_extra
extra-KeepsMeta x = record { at = λ e. refl }

secret-KeepsMeta : (s : Str) → KeepsMeta (apply_set_secret s)
unfolding apply_set_secret
secret-KeepsMeta s = record { at = λ e. ground arith }

totp-KeepsMeta : (t : Option TotpSecret) → KeepsMeta (apply_set_totp t)
unfolding apply_set_totp
totp-KeepsMeta t = record { at = λ e. ground arith }

apply_update-KeepsMeta : (u : EntryUpdate) → KeepsMeta (apply_update u)
unfolding apply_update
apply_update-KeepsMeta (set_title t) =
    then-KeepsMeta (write_title t) check_self (title-KeepsMeta t) self-KeepsMeta
apply_update-KeepsMeta (set_note n) =
    then-KeepsMeta (write_note n) check_self (note-KeepsMeta n) self-KeepsMeta
apply_update-KeepsMeta (set_username u) =
    then-KeepsMeta (write_username u) check_self (username-KeepsMeta u) self-KeepsMeta
apply_update-KeepsMeta (set_secret s) = secret-KeepsMeta s
apply_update-KeepsMeta (set_extra x) =
    then-KeepsMeta (write_extra x) check_self (extra-KeepsMeta x) self-KeepsMeta
apply_update-KeepsMeta (set_totp t) = totp-KeepsMeta t
apply_update-KeepsMeta (replace title note username secret extra totp') =
    then-KeepsMeta _ check_self
      (then-KeepsMeta _ _
        (then-KeepsMeta _ _
          (then-KeepsMeta _ _
            (then-KeepsMeta _ _
              (then-KeepsMeta _ _ (optional-KeepsMeta write_title title title-KeepsMeta)
                (optional-KeepsMeta write_note note note-KeepsMeta))
              (optional-KeepsMeta write_username username username-KeepsMeta))
            (optional-KeepsMeta apply_set_secret secret secret-KeepsMeta))
          (optional-KeepsMeta write_extra extra extra-KeepsMeta))
        (optional-KeepsMeta apply_set_totp totp' totp-KeepsMeta))
      self-KeepsMeta

-- No update, failing or not, changes an entry's identifier or type.
pub meta-apply_update : (u : EntryUpdate) (e : VaultEntry) → (apply_update u e).0.meta ≡ e.meta
meta-apply_update u e = (apply_update-KeepsMeta u).at e

-- A TOTP entry that is given a secret which does not validate, or whose block is taken away: the
-- update is refused, and the entry that it leaves fails its own invariants with the same error.
pub rejected-invalid :
    (e : VaultEntry) (t : TotpSecret) (s : Str) (x : EntryError)
    → e.meta.entry_type ≡ totp
    → e.secret.totp ≡ some t
    → validate_totp (record t { secret_b32 = s }) ≡ err x
    → ((apply_update (set_secret s) e).1 ≡ err x)
      × (validate_invariants (apply_update (set_secret s) e).0 ≡ err x)
      × ((apply_update (set_totp none) e).1 ≡ err invalid_type)
      × (validate_invariants (apply_update (set_totp none) e).0 ≡ err invalid_type)
unfolding apply_update
rejected-invalid e t s x is_totp has bad = ground arith
