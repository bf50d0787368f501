-- ===== src/Crud.antt =====
-- CRUD over the unlocked payload: core/crates/vipervault-core/src/core/entries.rs, with the payload
-- access of core/lock_state.rs that it goes through.
use viper_vault.Base.{
  ℕ, ◌≡◌, Bool, true, false, ◌&&◌, List, [], ◌∷◌, ◌++◌, Option, none, some, Result, ok, err, Done,
  ◌>>=◌, ◌>>◌, Bytes, ◌==◌, if◌then◌else◌, all, any, length, guard,
}
use viper_vault.Text.{Str, is_empty}
use viper_vault.Session.{SensitiveOperation, reveal_secret, copy_secret}
use viper_vault.Entries.Error.{
  EntryError, vault_locked, duplicate_entry, entry_not_found, invalid_type, invalid_data,
}
use viper_vault.Entries.Types.{
  TotpSecret, VaultEntry, EntrySummary, EntryView, EntryUpdate, validate_invariants, to_summary,
  to_view,
}
use viper_vault.Entries.Update.{Update, apply_update}
use viper_vault.LockState.Types.{Session, VaultState, locked, unlocked, VaultLockManager}
use viper_vault.LockState.History.{rewrite_json}
use viper_vault.LockState.Posture.{of_session, authorize_sensitive_operation}
pub mod Dictionary
pub mod Unique
pub mod Calls
pub mod Reveal

-- What `serde_json` and the derived code do: `to_vec` writes a payload, and `from_slice` reads the
-- fields of its entries, before the check that `VaultEntry::deserialize` adds.
pub record Serde : Type 0 where
  pub to_vec : List VaultEntry → Option Bytes
  pub from_slice : Bytes → Option (List VaultEntry)

abbrev pub is_ok : {E : Type 0} → Result E Done → Bool
is_ok (ok _) = true
is_ok (err _) = false

-- `VaultEntry::deserialize` refuses an entry that fails its invariants, and with it the payload.
unfoldable pub deserialize_entries : Option (List VaultEntry) → Option (List VaultEntry)
unfolding validate_invariants
deserialize_entries none = none
deserialize_entries (some es) =
    if all (λ e. is_ok (validate_invariants e)) es then some es else none

unfoldable pub decode_payload_from_plaintext_json : Serde → Bytes → Option (List VaultEntry)
unfolding deserialize_entries
decode_payload_from_plaintext_json s json = deserialize_entries (s.from_slice json)

unfoldable pub decode_state : Serde → VaultState → Option (List VaultEntry)
unfolding decode_payload_from_plaintext_json
decode_state s locked = none
decode_state s (unlocked x) = decode_payload_from_plaintext_json s x.plaintext_json

unfoldable pub get_payload : Serde → VaultLockManager → Option (List VaultEntry)
unfolding decode_state
get_payload s m = decode_state s m.state

-- `with_unlocked_payload`
abbrev pub with_unlocked_payload :
    {R : Type 0} → Option (List VaultEntry) → (List VaultEntry → R) → Option R
with_unlocked_payload none f = none
with_unlocked_payload (some es) f = some (f es)

-- The payload is written back whatever the closure answered.
unfoldable pub write_back :
    {R : Type 0} → Serde → VaultLockManager → List VaultEntry × R → VaultLockManager × Option R
write_back s m (es, r) = elim (s.to_vec es) [
  | none ↦ (m, none)
  | some json ↦ (rewrite_json json m, some r)
]

unfoldable pub with_unlocked_payload_mut :
    {R : Type 0}
    → Serde
    → VaultLockManager
    → (List VaultEntry → List VaultEntry × R)
    → VaultLockManager × Option R
unfolding get_payload write_back
with_unlocked_payload_mut s m f = elim (get_payload s m) [
  | none ↦ (m, none)
  | some es ↦ write_back s m (f es)
]

-- `.unwrap_or(Err(EntryError::VaultLocked))`
abbrev pub or_locked : {A : Type 0} → Option (Result EntryError A) → Result EntryError A
or_locked none = err vault_locked
or_locked (some r) = r

-- A closure that changes the payload's entries and answers a result.
abbrev pub Change : Type 0
Change = List VaultEntry → List VaultEntry × Result EntryError Done

unfoldable pub call_change :
    Serde → VaultLockManager → Change → VaultLockManager × Result EntryError Done
unfolding with_unlocked_payload_mut
call_change s m f = let (m', r) = with_unlocked_payload_mut s m f in (m', or_locked r)

abbrev pub has_id : ℕ → VaultEntry → Bool
has_id i e = e.meta.id == i

unfoldable pub find_entry : ℕ → List VaultEntry → Option VaultEntry
find_entry i [] = none
find_entry i (e ∷ es) = if has_id i e then some e else find_entry i es

unfoldable pub push_entry : VaultEntry → Change
push_entry e es =
    if any (has_id e.meta.id) es then (es, err duplicate_entry) else (es ++ (e ∷ []), ok tt)

-- Changing the first entry with an identifier, through the `&mut` that `find` answers.
unfoldable pub change_entry : ℕ → Update → Change
change_entry i u [] = ([], err entry_not_found)
change_entry i u (e ∷ es) =
    let rest = change_entry i u es in
    if has_id i e then ((u e).0 ∷ es, (u e).1) else (e ∷ rest.0, rest.1)

-- `*slot = new_entry`
abbrev pub replace_with : VaultEntry → Update
replace_with new_entry e = (new_entry, ok tt)

unfoldable pub retain_others : ℕ → List VaultEntry → List VaultEntry
retain_others i [] = []
retain_others i (e ∷ es) = if has_id i e then retain_others i es else e ∷ retain_others i es

unfoldable pub remove_entries : ℕ → Change
unfolding retain_others
remove_entries i es =
    if length (retain_others i es) == length es
    then (retain_others i es, err entry_not_found)
    else (retain_others i es, ok tt)

-- The calls that change the payload, with their arguments.
pub data CrudCall : Type 0 where
  adds : VaultEntry → CrudCall
  replaces : ℕ → VaultEntry → CrudCall
  edits : ℕ → EntryUpdate → CrudCall
  deletes : ℕ → CrudCall

unfoldable pub change_of : CrudCall → Change
unfolding push_entry change_entry remove_entries apply_update
change_of (adds e) = push_entry e
change_of (replaces i e) = change_entry i (replace_with e)
change_of (edits i u) = change_entry i (apply_update u)
change_of (deletes i) = remove_entries i

-- `add_entry`, `update_entry`, `update_entry_fields` and `delete_entry`.
unfoldable pub crud_call :
    Serde → VaultLockManager → CrudCall → VaultLockManager × Result EntryError Done
unfolding call_change change_of
crud_call s m c = call_change s m (change_of c)

abbrev pub map_entries : {B : Type 0} → (VaultEntry → B) → List VaultEntry → List B
map_entries f [] = []
map_entries f (e ∷ es) = f e ∷ map_entries f es

unfoldable pub list_entries : Serde → VaultLockManager → Option (List EntrySummary)
unfolding get_payload to_summary
list_entries s m = with_unlocked_payload (get_payload s m) (map_entries to_summary)

-- `.map(|e| e.to_view()).ok_or(EntryError::EntryNotFound)`
unfoldable pub view_of : Option VaultEntry → Result EntryError EntryView
unfolding to_view
view_of none = err entry_not_found
view_of (some e) = ok (to_view e)

unfoldable pub get_entry : Serde → VaultLockManager → ℕ → Result EntryError EntryView
unfolding get_payload find_entry view_of
get_entry s m i =
    or_locked (with_unlocked_payload (get_payload s m) (λ es. view_of (find_entry i es)))

unfoldable pub get_entry_for_operation :
    Serde → VaultLockManager → ℕ → SensitiveOperation → Result EntryError EntryView
unfolding authorize_sensitive_operation get_entry
get_entry_for_operation s m i op = do _ ← authorize_sensitive_operation m op; get_entry s m i

-- `reveal_entry_secret` is this at `RevealSecret`.
unfoldable pub reveal_entry_secret_for_operation :
    Serde → VaultLockManager → ℕ → SensitiveOperation → Result EntryError Str
unfolding get_entry_for_operation is_empty
reveal_entry_secret_for_operation s m i op = do
  entry ← get_entry_for_operation s m i op
  if is_empty entry.secret then err invalid_type else ok entry.secret

-- The calls that copy to the clipboard answer its new contents: `copy` is
-- `ClipboardGuard::copy_with_timeout` on a value of the guard's own type.
unfoldable pub copy_entry_secret_for_operation :
    {G : Type 0}
    → (copy : Str → ℕ → G → G) → Serde
    → VaultLockManager
    → ℕ
    → SensitiveOperation
    → G
    → ℕ
    → G × Result EntryError Done
unfolding reveal_entry_secret_for_operation
copy_entry_secret_for_operation copy s m i op clipboard timeout =
    elim (reveal_entry_secret_for_operation s m i op) [
      | ok secret ↦ (copy secret timeout clipboard, ok tt)
      | err x ↦ (clipboard, err x)
    ]

-- `entry.totp.as_ref().ok_or(EntryError::InvalidType)`
abbrev pub totp_of : EntryView → Result EntryError TotpSecret
totp_of v = elim v.totp [ none ↦ err invalid_type | some t ↦ ok t ]

unfoldable pub totp_for_operation :
    Serde → VaultLockManager → ℕ → SensitiveOperation → Result EntryError TotpSecret
unfolding authorize_sensitive_operation get_entry
totp_for_operation s m i op = do
  _ ← authorize_sensitive_operation m op
  entry ← get_entry s m i
  totp_of entry

-- `generate` is `totp_generate_formatted` at the time of the call, none for its errors.
unfoldable pub copy_entry_totp_for_operation :
    {G : Type 0}
    → (copy : Str → ℕ → G → G) → (generate : TotpSecret → Option Str) → Serde
    → VaultLockManager
    → ℕ
    → SensitiveOperation
    → G
    → (timeout : ℕ) → G × Result EntryError Done
unfolding totp_for_operation
copy_entry_totp_for_operation copy generate s m i op clipboard timeout =
    elim (totp_for_operation s m i op) [
      | ok t ↦ elim (generate t) [
        | some code ↦ (copy code timeout clipboard, ok tt)
        | none ↦ (clipboard, err invalid_data)
      ]
      | err x ↦ (clipboard, err x)
    ]
