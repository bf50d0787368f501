-- ===== src/Crud/Reveal.antt =====
-- The sensitive reads of core/entries.rs: what leaves the vault, and when.
use viper_vault.Base.{
  ℕ, ◌≡◌, refl, false, List, Option, none, some, Result, ok, err, >>=-eq-ok, ◌↔◌, if◌then◌else◌,
  ok-injective, ◌∙◌, ap, arith,
}
use viper_vault.Text.{Str, is_empty}
use viper_vault.Session.{SensitiveOperation}
use viper_vault.Policy.{PolicyContext}
use viper_vault.Entries.Error.{EntryError, invalid_type}
use viper_vault.Entries.Types.{VaultEntry, EntryView, TotpSecret, to_view}
use viper_vault.LockState.Types.{VaultLockManager}
use viper_vault.LockState.Posture.{authorize_sensitive_operation}
use viper_vault.Crud.{
  Serde, get_payload, find_entry, view_of, get_entry, or_locked, with_unlocked_payload,
  get_entry_for_operation, reveal_entry_secret_for_operation, copy_entry_secret_for_operation,
  totp_for_operation, copy_entry_totp_for_operation,
}

-- The operation is authorized on the manager.
abbrev pub IsAuthorized : VaultLockManager → SensitiveOperation → Type 0
IsAuthorized m op = (p : PolicyContext) × (authorize_sensitive_operation m op ≡ ok p)

-- The payload can be read and holds the entry under the identifier.
abbrev pub Holds : Serde → VaultLockManager → ℕ → VaultEntry → Type 0
Holds s m i e = (es : List VaultEntry) × (get_payload s m ≡ some es) × (find_entry i es ≡ some e)

read-ok :
    {A : Type 0} (p : Option (List VaultEntry)) (f : List VaultEntry → Result EntryError A) {a : A}
    → or_locked (with_unlocked_payload p f) ≡ ok a
    → (es : List VaultEntry) × (p ≡ some es) × (f es ≡ ok a)
read-ok none f h = cc
read-ok (some es) f h = (es, refl, h)

view_of-ok :
    (o : Option VaultEntry) {v : EntryView}
    → view_of o ≡ ok v
    → (e : VaultEntry) × (o ≡ some e) × (to_view e ≡ v)
unfolding view_of
view_of-ok none h = cc
view_of-ok (some e) h = (e, refl, ok-injective h)

get_entry-Holds :
    (s : Serde) (m : VaultLockManager) (i : ℕ) {v : EntryView}
    → get_entry s m i ≡ ok v
    → (e : VaultEntry) × Holds s m i e × (to_view e ≡ v)
unfolding get_entry
get_entry-Holds s m i h =
    let (es, readable, viewed) = read-ok (get_payload s m) _ h in
    let (e, found, same) = view_of-ok _ viewed in (e, (es, readable, found), same)

Holds-get_entry :
    (s : Serde) (m : VaultLockManager) (i : ℕ) (e : VaultEntry)
    → Holds s m i e
    → get_entry s m i ≡ ok (to_view e)
unfolding get_entry view_of
Holds-get_entry s m i e (es, readable, found) = rw (readable, found) refl

-- The last step of `reveal_entry_secret_for_operation`.
abbrev exposes : EntryView → Result EntryError Str
exposes v = if is_empty v.secret then err invalid_type else ok v.secret

exposes-ok : (v : EntryView) {x : Str} → exposes v ≡ ok x → (v.secret ≡ x) × (is_empty x ≡ false)
exposes-ok v h = ground arith

-- `reveal_entry_secret_for_operation` answers a secret exactly when the operation is authorized in
-- the session, the payload can be read, and the secret is the non-empty one of the entry that is
-- stored under the identifier.
pub reveal_iff :
    (s : Serde) (m : VaultLockManager) (i : ℕ) (op : SensitiveOperation) (x : Str)
    → reveal_entry_secret_for_operation s m i op ≡ ok x
      ↔ IsAuthorized m op
        × ((e : VaultEntry) × Holds s m i e × (e.secret.secret ≡ x) × (is_empty x ≡ false))
unfolding reveal_entry_secret_for_operation get_entry_for_operation to_view
reveal_iff s m i op x = (
  (λ h.
      let (v, got, shown) = >>=-eq-ok (get_entry_for_operation s m i op) exposes h in
      let (p, allowed, viewed) = >>=-eq-ok (authorize_sensitive_operation m op) _ got in
      let (e, held, same) = get_entry-Holds s m i viewed in
      let (secret, filled) = exposes-ok v shown in
      ((p, allowed), (e, held, ap (λ w. w.secret) same ∙ secret, filled))),
  (λ ((p, allowed), (e, held, secret, filled)).
      rw (allowed, Holds-get_entry s m i e held, secret, filled) refl),
)

-- When an operation is not authorized, nothing leaves the vault through it: the reveal, the copy of
-- a secret and the copy of a TOTP code all answer that error, and the clipboard stays as it was.
pub unauthorized-stays :
    {G : Type 0} (copy : Str → ℕ → G → G) (generate : TotpSecret → Option Str) (s : Serde)
    (m : VaultLockManager) (i : ℕ) (op : SensitiveOperation) (clipboard : G) (timeout : ℕ)
    (x : EntryError)
    → authorize_sensitive_operation m op ≡ err x
    → (reveal_entry_secret_for_operation s m i op ≡ err x)
      × (copy_entry_secret_for_operation copy s m i op clipboard timeout ≡ (clipboard, err x))
      × (copy_entry_totp_for_operation copy generate s m i op clipboard timeout
          ≡ (clipboard, err x))
unfolding reveal_entry_secret_for_operation get_entry_for_operation copy_entry_secret_for_operation
    totp_for_operation copy_entry_totp_for_operation
unauthorized-stays copy generate s m i op clipboard timeout x h = ground arith
