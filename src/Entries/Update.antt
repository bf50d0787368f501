-- ===== src/Entries/Update.antt =====
-- `VaultEntry::apply_update` of entries/types.rs. The entry is changed in place, so what was written
-- before an error stays: an update returns the entry beside its result.
use viper_vault.Base.{◌≡◌, refl, Option, none, some, Result, ok, err, Done, Bytes}
use viper_vault.Text.{Str}
use viper_vault.Entries.Error.{EntryError, invalid_type}
use viper_vault.Entries.Validate.{
  validate_title, validate_note, validate_username, validate_password,
}
use viper_vault.Entries.Types.{
  EntryType, password, secure_note, card, totp, TotpSecret, validate_totp, EntrySecret, VaultEntry,
  EntryUpdate, set_title, set_secret, set_note, set_username, set_extra, set_totp, replace,
  when_some, validate_invariants,
}

-- Code with `&mut self` on an entry that may return early with an error.
abbrev pub Update : Type 0
Update = VaultEntry → VaultEntry × Result EntryError Done

infixl 5 ◌then_do◌
-- One step, and the next one on the entry that it leaves.
unfoldable pub ◌then_do◌ : Update → Update → Update
◌then_do◌ u k e = elim (u e).1 [ ok _ ↦ k (u e).0 | err x ↦ ((u e).0, err x) ]

-- A check that changes nothing.
unfoldable pub check : Result EntryError Done → Update
check r e = (e, r)

-- An assignment to a field of `self.secret`.
unfoldable pub assign : (EntrySecret → EntrySecret) → Update
assign f e = (record e { secret = f e.secret }, ok tt)

unfoldable pub check_self : Update
unfolding validate_invariants
check_self e = (e, validate_invariants e)

unfoldable pub write_title : Str → Update
unfolding ◌then_do◌ check assign
write_title t = check (validate_title t) then_do assign (λ x. record x { title = t })

unfoldable pub write_note : Option Str → Update
unfolding ◌then_do◌ check assign
write_note n = check (when_some validate_note n) then_do assign (λ x. record x { note = n })

unfoldable pub write_username : Option Str → Update
unfolding ◌then_do◌ check assign
write_username u =
    check (when_some validate_username u) then_do assign (λ x. record x { username = u })

-- The branch of a TOTP entry: the block's secret is written, then the block is validated, then the
-- mirror is written.
unfoldable pub write_totp_secret : Option TotpSecret → Str → Update
unfolding ◌then_do◌ check assign
write_totp_secret none s = check (err invalid_type)
write_totp_secret (some t) s =
    let t' : TotpSecret = record t { secret_b32 = s } in
    assign (λ x. record x { totp = some t' })
    then_do check (validate_totp t')
    then_do assign (λ x. record x { secret = s })

unfoldable pub write_secret_of : EntryType → Option TotpSecret → Str → Update
unfolding write_totp_secret
write_secret_of password t s =
    check (validate_password s) then_do assign (λ x. record x { secret = s })
write_secret_of totp t s = write_totp_secret t s
write_secret_of secure_note t s = assign (λ x. record x { secret = s })
write_secret_of card t s = assign (λ x. record x { secret = s })

unfoldable pub write_secret : Str → Update
unfolding write_secret_of
write_secret s e = write_secret_of e.meta.entry_type e.secret.totp s e

unfoldable pub write_extra : Option Bytes → Update
unfolding assign
write_extra x = assign (λ y. record y { extra = x })

-- `if self.meta.entry_type != EntryType::Totp { return Err(…) }`
unfoldable pub check_is_totp : Update
check_is_totp e = (e, elim e.meta.entry_type [ totp ↦ ok tt | _ ↦ err invalid_type ])

unfoldable pub write_totp_block : Option TotpSecret → Update
unfolding ◌then_do◌ check assign
write_totp_block none = assign (λ x. record x { totp = none })
write_totp_block (some t) =
    check (validate_totp t) then_do assign (λ x. record x { secret = t.secret_b32; totp = some t })

unfoldable pub write_totp : Option TotpSecret → Update
unfolding check_is_totp write_totp_block
write_totp t = check_is_totp then_do write_totp_block t

-- `apply_update(EntryUpdate::SetSecret(s))` and `apply_update(EntryUpdate::SetTotp(t))`, which
-- `Replace` calls in turn.
unfoldable pub apply_set_secret : Str → Update
unfolding write_secret check_self
apply_set_secret s = write_secret s then_do check_self

unfoldable pub apply_set_totp : Option TotpSecret → Update
unfolding write_totp check_self
apply_set_totp t = write_totp t then_do check_self

-- `if let Some(x) = o { … }`
abbrev pub optional {ℓ} : {A : Type ℓ} → (A → Update) → Option A → Update
optional f none = λ e. (e, ok tt)
optional f (some x) = f x

unfoldable pub apply_update : EntryUpdate → Update
unfolding write_title write_note write_username write_extra apply_set_secret apply_set_totp
apply_update (set_title t) = write_title t then_do check_self
apply_update (set_note n) = write_note n then_do check_self
apply_update (set_username u) = write_username u then_do check_self
apply_update (set_secret s) = apply_set_secret s
apply_update (set_extra x) = write_extra x then_do check_self
apply_update (set_totp t) = apply_set_totp t
apply_update (replace title note username secret extra totp') =
    optional write_title title
    then_do optional write_note note
    then_do optional write_username username
    then_do optional apply_set_secret secret
    then_do optional write_extra extra
    then_do optional apply_set_totp totp'
    then_do check_self

pub then-ok : (u v : Update) (e : VaultEntry) → (u e).1 ≡ ok tt → (u then_do v) e ≡ v (u e).0
unfolding ◌then_do◌
then-ok u v e h = rw (h, ◌then_do◌) refl

pub then-err :
    (u v : Update) (e : VaultEntry) {x : EntryError}
    → (u e).1 ≡ err x
    → (u then_do v) e ≡ ((u e).0, err x)
unfolding ◌then_do◌
then-err u v e h = rw (h, ◌then_do◌) refl
