-- ===== src/Import/Commit.antt =====
-- Committing quarantined entries: the commit of import/interop.rs and its invariants, core/import.rs.
-- The quarantine is the list of its entries.
use viper_vault.Base.{
  ℕ, ◌+◌, ◌≡◌, ◌≢◌, ◌⊎◌, not, true, false, List, [], ◌∷◌, ◌++◌, Option, none, some, Result, ok, err,
  Done, ◌>>◌, ltb, leb, if◌then◌else◌, length, guard, map_err, bytes_eq, arith,
}
use viper_vault.Policy.{PolicyContext, allow_plaintext_import}
use viper_vault.Entries.Types.{VaultEntry, TotpSecret, EntryType, totp, validate_totp}
use viper_vault.LockState.Types.{VaultLockManager}
use viper_vault.Crud.{Serde, with_unlocked_payload_mut}
use viper_vault.Import.Error.{ImportError, policy_denied, payload_too_large, invalid_data}

abbrev pub max_interop_entries : ℕ
max_interop_entries = 100000

-- The sum of the lengths saturates far above the bound.
unfoldable pub commit_quarantined_import_into_payload :
    PolicyContext
    → (quarantined existing : List VaultEntry) → List VaultEntry × Result ImportError Done
unfolding allow_plaintext_import
commit_quarantined_import_into_payload policy quarantined existing =
    if not (allow_plaintext_import policy)
    then (existing, err policy_denied)
    else if ltb max_interop_entries (length existing + length quarantined)
    then (existing, err payload_too_large)
    else (existing ++ quarantined, ok tt)

-- `.unwrap_or(Err(ImportError::PolicyDenied))`
abbrev pub or_denied : Option (Result ImportError Done) → Result ImportError Done
or_denied none = err policy_denied
or_denied (some r) = r

unfoldable pub commit_quarantine_import :
    Serde
    → VaultLockManager
    → PolicyContext
    → (quarantined : List VaultEntry) → VaultLockManager × Result ImportError Done
unfolding with_unlocked_payload_mut commit_quarantined_import_into_payload
commit_quarantine_import s m policy quarantined =
    let (m', r) =
      with_unlocked_payload_mut s m (commit_quarantined_import_into_payload policy quarantined) in
    (m', or_denied r)

-- The checks of one entry of the loop.
unfoldable pub validate_block : VaultEntry → Option TotpSecret → Result ImportError Done
unfolding validate_totp
validate_block e none = err invalid_data
validate_block e (some t) = do
  map_err (λ _. invalid_data) (validate_totp t)
  guard (bytes_eq e.secret.secret t.secret_b32) invalid_data
  ok tt

unfoldable pub validate_entry : VaultEntry → EntryType → Result ImportError Done
unfolding validate_block
validate_entry e kind = elim kind [ totp ↦ validate_block e e.secret.totp | _ ↦ err invalid_data ]

unfoldable pub validate_entries : List VaultEntry → Result ImportError Done
unfolding validate_entry
validate_entries [] = ok tt
validate_entries (e ∷ es) = do validate_entry e e.meta.entry_type; validate_entries es

unfoldable pub validate_payload_invariants : List VaultEntry → Result ImportError Done
unfolding validate_entries
validate_payload_invariants entries = do
  guard (leb (length entries) max_interop_entries) payload_too_large
  validate_entries entries

-- A commit leaves the list as it was and fails, or the policy allowed it, the bound holds, and the
-- entries stand behind those that were there.
pub commit-appends :
    (policy : PolicyContext) (quarantined existing after : List VaultEntry)
    (answer : Result ImportError Done)
    → commit_quarantined_import_into_payload policy quarantined existing ≡ (after, answer)
    → ((after ≡ existing) × (answer ≢ ok tt))
      ⊎ ((allow_plaintext_import policy ≡ true)
          × (ltb max_interop_entries (length existing + length quarantined) ≡ false)
          × (after ≡ existing ++ quarantined))
unfolding commit_quarantined_import_into_payload
commit-appends policy quarantined existing after answer h = ground arith
