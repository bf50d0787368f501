-- ===== src/Crud/Calls.antt =====
-- The calls of core/entries.rs on a manager: what a later read of the payload answers.
use viper_vault.Base.{
  ℕ, ◌≡◌, ap, ◌∙◌, true, false, List, [], ◌∷◌, none, some, ok, err, all, arith, Bytes, ◌++◌,
}
use viper_vault.Entries.Error.{EntryError, vault_locked}
use viper_vault.Entries.Types.{
  VaultEntry, TotpSecret, totp, validate_totp, validate_invariants, EntryUpdate, set_secret,
  set_totp, set_title, set_note, set_username, set_extra, replace,
}
use viper_vault.Text.{Str}
use viper_vault.Entries.Update.{
  Update, apply_update, ◌then_do◌, check_self, optional, write_title, write_note, write_username,
  write_secret, write_extra, write_totp, apply_set_secret, apply_set_totp,
}
use viper_vault.Entries.Rejected.{rejected-invalid}
use viper_vault.LockState.Types.{VaultLockManager, locked}
use viper_vault.Crud.{
  Serde, is_ok, deserialize_entries, decode_payload_from_plaintext_json, decode_state, get_payload,
  write_back, with_unlocked_payload_mut, call_change, Change, find_entry, change_entry, CrudCall,
  adds, replaces, edits, deletes, change_of, crud_call, view_of, push_entry, retain_others,
  remove_entries, get_entry,
}
use viper_vault.Crud.Dictionary.{KeepsId, promised, look, change_of-promised}

-- The list is written and read back as itself, at the level of the entries' fields.
abbrev pub IsStored : Serde → List VaultEntry → Type 0
IsStored s es = (json : Bytes) × (s.to_vec es ≡ some json) × (s.from_slice json ≡ some es)

decoded-locked : (s : Serde) (m : VaultLockManager) → m.state ≡ locked → get_payload s m ≡ none
unfolding get_payload decode_state
decoded-locked s m q = ground arith

-- The payload after a call that could read the old one and write the new one.
pub call_change-payload :
    (s : Serde) (m : VaultLockManager) (f : Change) (es : List VaultEntry)
    → get_payload s m ≡ some es
    → IsStored s (f es).0
    → ((call_change s m f).1 ≡ (f es).1)
      × (get_payload s (call_change s m f).0 ≡ deserialize_entries (some (f es).0))
unfolding call_change with_unlocked_payload_mut write_back get_payload decode_state
    decode_payload_from_plaintext_json
call_change-payload s m f es h (json, w, r) = ground arith

-- While the vault is locked, or its buffer cannot be read, every call is refused as locked and
-- changes nothing.
pub unreadable-refuses :
    (s : Serde) (m : VaultLockManager) (c : CrudCall) (i : ℕ)
    → get_payload s m ≡ none
    → (crud_call s m c ≡ (m, err vault_locked)) × (get_entry s m i ≡ err vault_locked)
unfolding crud_call call_change with_unlocked_payload_mut get_entry
unreadable-refuses s m c i h = ground arith

-- An update that succeeds leaves an entry that passes the check of its invariants.
record EndsValid (u : Update) : Type 0 where
  at : (e : VaultEntry) → (u e).1 ≡ ok tt → validate_invariants (u e).0 ≡ ok tt

self-EndsValid : (u : Update) → EndsValid (u then_do check_self)
unfolding ◌then_do◌ check_self
self-EndsValid u = record { at = λ e h. ground arith }

update-EndsValid : (u : EntryUpdate) → EndsValid (apply_update u)
unfolding apply_update apply_set_secret apply_set_totp
update-EndsValid (set_title t) = self-EndsValid (write_title t)
update-EndsValid (set_note n) = self-EndsValid (write_note n)
update-EndsValid (set_username u) = self-EndsValid (write_username u)
update-EndsValid (set_secret s) = self-EndsValid (write_secret s)
update-EndsValid (set_extra x) = self-EndsValid (write_extra x)
update-EndsValid (set_totp t) = self-EndsValid (write_totp t)
update-EndsValid (replace title note username secret extra totp') = self-EndsValid (
    optional write_title title
    then_do optional write_note note
    then_do optional write_username username
    then_do optional apply_set_secret secret
    then_do optional write_extra extra
    then_do optional apply_set_totp totp')

-- Every entry passes the check of deserialization.
abbrev pub AreValid : List VaultEntry → Type 0
AreValid es = all (λ e. is_ok (validate_invariants e)) es ≡ true

-- The entry that a call carries, if any, passes it.
abbrev pub CarriesValid : CrudCall → Type 0
CarriesValid (adds e) = validate_invariants e ≡ ok tt
CarriesValid (replaces i e) = validate_invariants e ≡ ok tt
CarriesValid _ = Unit

push-AreValid :
    (e : VaultEntry) (es : List VaultEntry)
    → validate_invariants e ≡ ok tt
    → AreValid es
    → AreValid (es ++ (e ∷ []))
push-AreValid e [] v h = ground arith
push-AreValid e (x ∷ es) v h = let ih = push-AreValid e es v in ground arith

change-AreValid :
    (i : ℕ) (u : Update) (es : List VaultEntry)
    → ((e : VaultEntry) → (u e).1 ≡ ok tt → validate_invariants (u e).0 ≡ ok tt)
    → AreValid es
    → (change_entry i u es).1 ≡ ok tt
    → AreValid (change_entry i u es).0
unfolding change_entry
change-AreValid i u [] k v h = v
change-AreValid i u (e ∷ es) k v h =
    let ih = change-AreValid i u es k in let k' = k e in ground arith

retain-AreValid : (i : ℕ) (es : List VaultEntry) → AreValid es → AreValid (retain_others i es)
unfolding retain_others
retain-AreValid i [] v = v
retain-AreValid i (e ∷ es) v = let ih = retain-AreValid i es in ground arith

change_of-AreValid :
    (c : CrudCall) (es : List VaultEntry)
    → CarriesValid c
    → AreValid es
    → (change_of c es).1 ≡ ok tt
    → AreValid (change_of c es).0
unfolding change_of push_entry remove_entries
change_of-AreValid (adds e) es k v h = let pushed = push-AreValid e es k v in ground arith
change_of-AreValid (replaces i e) es k v h = change-AreValid i _ es (λ _ _. k) v h
change_of-AreValid (edits i u) es k v h = change-AreValid i _ es (update-EndsValid u).at v h
change_of-AreValid (deletes i) es k v h = let kept = retain-AreValid i es v in ground arith

-- A payload that was read has passed the check.
read-AreValid :
    (s : Serde) (m : VaultLockManager) {es : List VaultEntry}
    → get_payload s m ≡ some es
    → AreValid es
unfolding get_payload decode_state decode_payload_from_plaintext_json deserialize_entries
read-AreValid s m h = ground arith

deserialize-valid : (es : List VaultEntry) → AreValid es → deserialize_entries (some es) ≡ some es
unfolding deserialize_entries
deserialize-valid es v = ground arith

get-found :
    (s : Serde) (m : VaultLockManager) {es : List VaultEntry} (i : ℕ)
    → get_payload s m ≡ some es
    → get_entry s m i ≡ view_of (find_entry i es)
unfolding get_entry
get-found s m i h = ground arith

-- A call that the dictionary promises to succeed does succeed on an unlocked manager whose payload
-- can be read and written, and from then on `get_entry` answers exactly what is promised for every
-- identifier. An entry that replaces another must carry the identifier that it replaces, and an entry
-- that is added or replaces another must pass validate_invariants.
pub success-seen :
    (s : Serde) (m : VaultLockManager) (c : CrudCall) (es : List VaultEntry) (j : ℕ)
    → KeepsId c
    → CarriesValid c
    → get_payload s m ≡ some es
    → IsStored s (change_of c es).0
    → (promised c (look es)).1 ≡ ok tt
    → ((crud_call s m c).1 ≡ ok tt)
      × (get_entry s (crud_call s m c).0 j ≡ view_of ((promised c (look es)).0 j))
unfolding crud_call
success-seen s m c es j k carries h stored good =
    let (result, found) = change_of-promised c es j k in
    let (answer, payload) = call_change-payload s m (change_of c) es h stored in
    let fine = result ∙ good in
    let valid = change_of-AreValid c es carries (read-AreValid s m h) fine in
    (answer ∙ fine, get-found s _ j (payload ∙ deserialize-valid _ valid) ∙ ap view_of found)

change-invalid :
    (i : ℕ) (u : Update) (es : List VaultEntry) {e : VaultEntry} {x y : EntryError}
    → find_entry i es ≡ some e
    → (u e).1 ≡ err x
    → validate_invariants (u e).0 ≡ err y
    → ((change_entry i u es).1 ≡ err x)
      × (all (λ a. is_ok (validate_invariants a)) (change_entry i u es).0 ≡ false)
unfolding find_entry change_entry
change-invalid i u [] f r v = cc
change-invalid i u (a ∷ es) {e} {x} {y} f r v =
    let ih = change-invalid i u es {e = e} {x = x} {y = y} in ground arith

deserialize-invalid :
    (es : List VaultEntry)
    → all (λ a. is_ok (validate_invariants a)) es ≡ false
    → deserialize_entries (some es) ≡ none
unfolding deserialize_entries
deserialize-invalid es v = ground arith

-- `update_entry_fields` on a stored TOTP entry with a secret that its block does not accept: the
-- update is refused with the validation's error, but the half-changed entry is written back, and
-- from then on the payload of the unlocked vault cannot be read: every read and every call is
-- refused as if the vault were locked.
pub refused_edit-blocks :
    (s : Serde) (m : VaultLockManager) (i : ℕ) (secret : Str) (es : List VaultEntry)
    (e : VaultEntry) (t : TotpSecret) (x : EntryError)
    → get_payload s m ≡ some es
    → IsStored s (change_of (edits i (set_secret secret)) es).0
    → find_entry i es ≡ some e
    → e.meta.entry_type ≡ totp
    → e.secret.totp ≡ some t
    → validate_totp (record t { secret_b32 = secret }) ≡ err x
    → ((crud_call s m (edits i (set_secret secret))).1 ≡ err x)
      × (get_payload s (crud_call s m (edits i (set_secret secret))).0 ≡ none)
      × ((j : ℕ) → get_entry s (crud_call s m (edits i (set_secret secret))).0 j ≡ err vault_locked)
      × ((c : CrudCall)
          → crud_call s (crud_call s m (edits i (set_secret secret))).0 c
            ≡ ((crud_call s m (edits i (set_secret secret))).0, err vault_locked))
unfolding crud_call change_of
refused_edit-blocks s m i secret es e t x h stored found is_totp has bad =
    let (refused, left, _, _) = rejected-invalid e t secret x is_totp has bad in
    let (result, invalid) = change-invalid i _ es found refused left in
    let (answer, payload) = call_change-payload s m _ es h stored in
    let gone =
      payload ∙ deserialize-invalid (change_of (edits i (set_secret secret)) es).0 invalid in
    (
      answer ∙ result,
      gone,
      (λ j. (unreadable-refuses s _ (deletes i) j gone).1),
      (λ c. (unreadable-refuses s _ c i gone).0),
    )
