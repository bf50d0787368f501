-- ===== src/Examples/Unlocking.antt =====
-- Creating, migrating and opening vault files (vault/create.rs, vault/migrate.rs, core/unlock.rs).
use viper_vault.Base.{ℕ, ◌≡◌, refl, false, List, [], ◌∷◌, some, ok, Bytes, ◌>>=◌}
use viper_vault.Session.{primary, decoy, not_debugged}
use viper_vault.Crud.{decode_payload_from_plaintext_json}
use viper_vault.Vault.Types.{ParsedVaultFile, encrypted}
use viper_vault.Vault.Codec.{container, decode_vault_file}
use viper_vault.Vault.Create.{create_encrypted_vault, create_duress_vault}
use viper_vault.Vault.Migrate.{enable_duress_on_vault}
use viper_vault.Unlock.{unlock_vault_to_plaintext_json_with_outcome, unlock_vault_with_outcome}
use viper_vault.Unlock.Reopened.{parsed_of}
use viper_vault.Unlock.Created.{created_opens, created_duress_opens}
use viper_vault.Unlock.Migrated.{migrated_keeps}
use viper_vault.Unlock.Agrees.{decoded, unlock-decodes}
use viper_vault.Unlock.Authentic.{IsOpened, unlocked-IsOpened}
use viper_vault.Unlock.Throttled.{
  GatedUnlock, answer, unlock_all, failures_of, NoneIsPrimary, decoy_never_resets,
}
use viper_vault.AuthGate.{new}
use viper_vault.RateLimit.{default_policy}
use viper_vault.RateLimit.Streak.{run_failures}
use viper_vault.Examples.Stored.{mail}
use viper_vault.Examples.Toys.{
  toy, toy-IsAead, json_of, envelopes-ReadBack, mail-ReadsBack, empty-ReadsBack, kdf, drawn,
  single_header, dual_header, single_file, dual_file, single_file-IsWritten, dual_file-IsWritten,
  apart,
}

created_opens_example :
    (p : ParsedVaultFile) × (decode_vault_file
        (json_of single_header).headers
        not_debugged
        (container 1 encrypted (b'{' ∷ b'}' ∷ []) (1 ∷ 1 ∷ []))
        (some 1)
        1024
        false
      ≡ ok p)
    × (unlock_vault_with_outcome toy (json_of single_header) p (7 ∷ []) ≡ ok (primary, mail ∷ []))
unfolding create_encrypted_vault
created_opens_example =
    created_opens toy (json_of single_header) (some (1 ∷ [])) (some (2 ∷ [])) 42 (7 ∷ [])
      (mail ∷ []) 1 kdf single_file not_debugged not_debugged (some 1) 1024 1 (b'{' ∷ b'}' ∷ [])
      (container 1 encrypted (b'{' ∷ b'}' ∷ []) (1 ∷ 1 ∷ [])) false toy-IsAead
      (mail-ReadsBack single_header) refl single_file-IsWritten

created_duress_opens_example :
    (p : ParsedVaultFile) × (decode_vault_file
        (json_of dual_header).headers
        not_debugged
        (container 1 encrypted (b'{' ∷ b'}' ∷ []) (2 ∷ 1 ∷ 1 ∷ 2 ∷ 0 ∷ []))
        (some 1)
        1024
        false
      ≡ ok p)
    × (unlock_vault_with_outcome toy (json_of dual_header) p (7 ∷ []) ≡ ok (primary, mail ∷ []))
    × (unlock_vault_with_outcome toy (json_of dual_header) p (7 ∷ 8 ∷ []) ≡ ok (decoy, []))
unfolding create_duress_vault
created_duress_opens_example =
    created_duress_opens toy (json_of dual_header) drawn 42 (7 ∷ []) (7 ∷ 8 ∷ []) (mail ∷ []) [] 1
      kdf dual_file not_debugged not_debugged (some 1) 1024 1 (b'{' ∷ b'}' ∷ [])
      (container 1 encrypted (b'{' ∷ b'}' ∷ []) (2 ∷ 1 ∷ 1 ∷ 2 ∷ 0 ∷ [])) false toy-IsAead
      (envelopes-ReadBack dual_header) (mail-ReadsBack dual_header) (empty-ReadsBack dual_header)
      refl apart dual_file-IsWritten

migrated_keeps_example :
    (json : Bytes) × (unlock_vault_to_plaintext_json_with_outcome toy
        (json_of dual_header)
        (parsed_of 1 (b'{' ∷ b'}' ∷ []) single_file)
        (7 ∷ [])
      ≡ ok (primary, json))
    × (decode_vault_file
          (json_of dual_header).headers
          not_debugged
          (container 1 encrypted (b'{' ∷ b'}' ∷ []) (2 ∷ 1 ∷ 1 ∷ 2 ∷ 0 ∷ []))
          (some 1)
          1024
          false
        ≡ ok (parsed_of 1 (b'{' ∷ b'}' ∷ []) dual_file))
    × (◌≡◌ {A = ℕ} 42 42)
    × (◌≡◌ {A = ℕ} 1 1)
    × (unlock_vault_to_plaintext_json_with_outcome toy
          (json_of dual_header)
          (parsed_of 1 (b'{' ∷ b'}' ∷ []) dual_file)
          (7 ∷ [])
        ≡ ok (primary, json))
    × (unlock_vault_with_outcome toy
          (json_of dual_header)
          (parsed_of 1 (b'{' ∷ b'}' ∷ []) dual_file)
          (7 ∷ 8 ∷ [])
        ≡ ok (decoy, []))
unfolding enable_duress_on_vault
migrated_keeps_example =
    migrated_keeps toy (json_of dual_header) drawn single_file (7 ∷ []) (7 ∷ 8 ∷ []) [] kdf
      dual_file not_debugged not_debugged (some 1) 1024 1 (b'{' ∷ b'}' ∷ []) (b'{' ∷ b'}' ∷ [])
      (container 1 encrypted (b'{' ∷ b'}' ∷ []) (2 ∷ 1 ∷ 1 ∷ 2 ∷ 0 ∷ [])) false toy-IsAead
      (envelopes-ReadBack dual_header) (empty-ReadsBack dual_header) refl refl apart
      dual_file-IsWritten

-- The dual file as it is read.
abbrev dual_parsed : ParsedVaultFile
dual_parsed = parsed_of 1 (b'{' ∷ b'}' ∷ []) dual_file

unlock-decodes_example :
    unlock_vault_with_outcome toy (json_of dual_header) dual_parsed (7 ∷ 8 ∷ []) ≡ (
      unlock_vault_to_plaintext_json_with_outcome toy (json_of dual_header) dual_parsed (7 ∷ 8 ∷ [])
      >>= decoded (json_of dual_header))
unlock-decodes_example = unlock-decodes toy (json_of dual_header) dual_parsed (7 ∷ 8 ∷ [])

unlocked-IsOpened_example :
    IsOpened toy (json_of dual_header) dual_parsed (7 ∷ 8 ∷ []) decoy (0 ∷ [])
unfolding unlock_vault_to_plaintext_json_with_outcome decode_payload_from_plaintext_json
unlocked-IsOpened_example =
    unlocked-IsOpened toy (json_of dual_header) dual_parsed (7 ∷ 8 ∷ []) decoy (0 ∷ []) refl

-- A wrong password, the decoy's password, and a wrong password again.
abbrev tries : List GatedUnlock
tries =
    record { now = 1; random = 0; parsed = dual_parsed; password = 7 ∷ 8 ∷ 9 ∷ [] }
    ∷ record { now = 2; random = 0; parsed = dual_parsed; password = 7 ∷ 8 ∷ [] }
    ∷ record { now = 3; random = 0; parsed = dual_parsed; password = [] }
    ∷ []

none_primary : NoneIsPrimary toy (json_of dual_header) tries
unfolding answer unlock_vault_to_plaintext_json_with_outcome decode_payload_from_plaintext_json
none_primary = (tt, (tt, (tt, tt)))

decoy_never_resets_example :
    unlock_all toy (json_of dual_header) (new default_policy) tries ≡ record (new default_policy) {
      limiter =
          run_failures default_policy
            (new default_policy).limiter
            (failures_of toy (json_of dual_header) tries);
    }
decoy_never_resets_example =
    decoy_never_resets toy (json_of dual_header) tries (new default_policy) none_primary
