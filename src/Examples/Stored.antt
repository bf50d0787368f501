-- ===== src/Examples/Stored.antt =====
-- Stored entries and the calls on them (core/entries.rs, entries/types.rs).
use viper_vault.Base.{
  ℕ, ◌≡◌, ◌↔◌, refl, List, [], ◌∷◌, none, some, false, ok, err, if◌then◌else◌, ◌==◌,
}
use viper_vault.Text.{is_empty, len}
use viper_vault.Session.{strong, primary, not_debugged, reveal_secret}
use viper_vault.Entries.Error.{vault_locked, empty_field}
use viper_vault.Entries.Types.{
  VaultEntry, TotpSecret, sha1, totp, password, validate_totp, validate_base32, set_secret,
  validate_invariants,
}
use viper_vault.LockState.Types.{VaultLockManager, unlocked}
use viper_vault.LockState.Timer.{new}
use viper_vault.Crud.{
  Serde, get_payload, adds, edits, deletes, change_of, crud_call, find_entry, get_entry, view_of,
  reveal_entry_secret_for_operation, CrudCall,
}
use viper_vault.Crud.Dictionary.{promised, look, change_of-promised}
use viper_vault.Crud.Unique.{HasUniqueIds, change_of-HasUniqueIds}
use viper_vault.Crud.Calls.{success-seen, refused_edit-blocks}
use viper_vault.Crud.Reveal.{IsAuthorized, Holds, reveal_iff}

abbrev pub mail : VaultEntry
mail = record {
  meta = record { id = 1; entry_type = password };
  secret = record {
    title = b'm' ∷ [];
    note = none;
    username = none;
    secret = b's' ∷ b'3' ∷ [];
    extra = none;
    totp = none;
  };
}

abbrev bank : VaultEntry
bank = record mail { meta = record { id = 2; entry_type = password } }

abbrev block : TotpSecret
block = record {
  issuer = none;
  account_name = none;
  secret_b32 = b'M' ∷ b'Z' ∷ [];
  digits = 6;
  period_secs = 30;
  algorithm = sha1;
}

abbrev token : VaultEntry
token = record {
  meta = record { id = 3; entry_type = totp };
  secret = record {
    title = b't' ∷ [];
    note = none;
    username = none;
    secret = b'M' ∷ b'Z' ∷ [];
    extra = none;
    totp = some block;
  };
}

-- A buffer of one byte names one of two lists of entries.
abbrev pub two_payloads : List VaultEntry → List VaultEntry → Serde
two_payloads before after = record {
  to_vec = λ _. some (1 ∷ []);
  from_slice = λ b. elim b [ [] ↦ none | n ∷ _ ↦ if n == 0 then some before else some after ];
}

abbrev pub opened : ℕ → VaultLockManager
opened n = record new {
  state = unlocked (record {
    plaintext_json = n ∷ [];
    auth_strength = strong;
    strong_reauth_required = false;
    unlock_outcome = primary;
    runtime_state = not_debugged;
  });
}

change_of-promised_example :
    ((change_of (edits 1 (set_secret (b'x' ∷ []))) (mail ∷ bank ∷ [])).1
      ≡ (promised (edits 1 (set_secret (b'x' ∷ []))) (look (mail ∷ bank ∷ []))).1)
    × (find_entry 2 (change_of (edits 1 (set_secret (b'x' ∷ []))) (mail ∷ bank ∷ [])).0
        ≡ (promised (edits 1 (set_secret (b'x' ∷ []))) (look (mail ∷ bank ∷ []))).0 2)
change_of-promised_example =
    change_of-promised (edits 1 (set_secret (b'x' ∷ []))) (mail ∷ bank ∷ []) 2 tt

change_of-HasUniqueIds_example : HasUniqueIds (change_of (deletes 1) (mail ∷ bank ∷ [])).0
unfolding HasUniqueIds
change_of-HasUniqueIds_example =
    change_of-HasUniqueIds (deletes 1) (mail ∷ bank ∷ []) tt (refl, (refl, tt))

success-seen_example :
    ((crud_call (two_payloads (mail ∷ []) (mail ∷ bank ∷ [])) (opened 0) (adds bank)).1 ≡ ok tt)
    × (get_entry
          (two_payloads (mail ∷ []) (mail ∷ bank ∷ []))
          (crud_call (two_payloads (mail ∷ []) (mail ∷ bank ∷ [])) (opened 0) (adds bank)).0
          2
        ≡ view_of ((promised (adds bank) (look (mail ∷ []))).0 2))
unfolding get_payload change_of promised find_entry validate_invariants
success-seen_example =
    success-seen (two_payloads (mail ∷ []) (mail ∷ bank ∷ [])) (opened 0) (adds bank) (mail ∷ []) 2
      tt refl refl (1 ∷ [], refl, refl) refl

-- The token after a refused change to the empty secret.
abbrev broken : VaultEntry
broken = record token {
  secret = record token.secret { totp = some (record block { secret_b32 = [] }) };
}

refused_edit-blocks_example :
    ((crud_call (two_payloads (token ∷ []) (broken ∷ [])) (opened 0) (edits 3 (set_secret []))).1
      ≡ err empty_field)
    × (get_payload
          (two_payloads (token ∷ []) (broken ∷ []))
          (crud_call
            (two_payloads (token ∷ []) (broken ∷ []))
            (opened 0)
            (edits 3 (set_secret []))).0
        ≡ none)
    × ((j : ℕ)
        → get_entry
            (two_payloads (token ∷ []) (broken ∷ []))
            (crud_call
              (two_payloads (token ∷ []) (broken ∷ []))
              (opened 0)
              (edits 3 (set_secret []))).0
            j
          ≡ err vault_locked)
    × ((c : CrudCall)
        → crud_call
            (two_payloads (token ∷ []) (broken ∷ []))
            (crud_call
              (two_payloads (token ∷ []) (broken ∷ []))
              (opened 0)
              (edits 3 (set_secret []))).0
            c
          ≡ (
            (crud_call
                (two_payloads (token ∷ []) (broken ∷ []))
                (opened 0)
                (edits 3 (set_secret []))).0,
            err vault_locked,
          ))
unfolding get_payload change_of find_entry validate_totp validate_base32 len
refused_edit-blocks_example =
    refused_edit-blocks (two_payloads (token ∷ []) (broken ∷ [])) (opened 0) 3 [] (token ∷ []) token
      block empty_field refl (1 ∷ [], refl, refl) refl refl refl refl

reveal_iff_example :
    reveal_entry_secret_for_operation (two_payloads (mail ∷ []) []) (opened 0) 1 reveal_secret
      ≡ ok (b's' ∷ b'3' ∷ [])
    ↔ IsAuthorized (opened 0) reveal_secret
      × ((e : VaultEntry) × Holds (two_payloads (mail ∷ []) []) (opened 0) 1 e
          × (e.secret.secret ≡ b's' ∷ b'3' ∷ [])
          × (is_empty (b's' ∷ b'3' ∷ []) ≡ false))
reveal_iff_example =
    reveal_iff (two_payloads (mail ∷ []) []) (opened 0) 1 reveal_secret (b's' ∷ b'3' ∷ [])
