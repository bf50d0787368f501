-- ===== src/Examples/Transfers.antt =====
-- Signed backups, their import and biometric unlocks (backup, import/e2e_signed.rs,
-- core/biometrics.rs).
use viper_vault.Base.{
  ℕ, zero, suc, ◌≡◌, ◌≢◌, ◌↔◌, ◌⊎◌, refl, true, [], ◌∷◌, none, some, Result, ok, Done, Bytes,
  all-AreBytes, bytes_eq, bytes_eq_refl, to_le, length, some-injective, arith, ◌<◌,
}
use mathlib.Core.Path.{subst}
use viper_vault.Session.{primary, not_debugged, reveal_secret}
use viper_vault.Policy.{from_parts, allow_signed_backup_transfer}
use viper_vault.Crud.{decode_payload_from_plaintext_json}
use viper_vault.Vault.Types.{encrypted}
use viper_vault.Vault.Codec.{container}
use viper_vault.Backup.{
  BackupKdfPolicy, BackupJson, Signer, signed_part, encode_signed_backup, decode_signed_backup,
}
use viper_vault.Backup.Signed.{
  IsSigner, IsVerified, HeadersReadBack, backup_of, decode_signed-encode,
}
use viper_vault.Backup.Accepted.{decode_signed_iff}
use viper_vault.AuthGate.{new}
use viper_vault.RateLimit.{default_policy}
use viper_vault.LockState.Types.{VaultLockManager}
use viper_vault.LockState.Timer as Timer
use viper_vault.LockState.Posture.{authorize_sensitive_operation}
use viper_vault.LockState.History.{clears, run_session}
use viper_vault.Unlock.{unlock_vault_to_plaintext_json_with_outcome}
use viper_vault.Unlock.Reopened.{parsed_of}
use viper_vault.Import.Signed.{
  Formats, Imported, import_vipervault_from_signed_backup, import_signed_vault_and_unlock,
}
use viper_vault.Import.Session.{IsImported, decoy_import_authorized, import_opens_only}
use viper_vault.Biometrics.{BiometricError, BiometricBackend, unlock_with_biometrics}
use viper_vault.Biometrics.Bounds.{biometric_never_authorized}
use viper_vault.Examples.Toys.{toy, json_of, single_file, dual_header, dual_file}

abbrev repeated : ℕ → ℕ → Bytes
repeated zero b = []
repeated (suc n) b = b ∷ repeated n b

-- A signature tells only the length of its key.
abbrev signer : Signer
signer = record {
  expand = λ key. some key;
  verifying_key = λ seed. seed;
  sign = λ seed _. repeated 64 (length seed);
  parses = λ _. true;
  verify = λ key _ sig. bytes_eq sig (repeated 64 (length key));
}

signer-IsSigner : IsSigner signer
signer-IsSigner = record {
  has_64 = λ _ _. refl;
  parses = λ _ _. refl;
  verifies = λ seed _. bytes_eq_refl (repeated 64 (length seed));
}

-- A header as the list of its numbers.
abbrev headers : BackupJson
headers = record {
  to_vec = λ h. some (h.version ∷ (h.kdf.mem_kib ∷ (h.kdf.time_cost ∷ (h.kdf.lanes ∷ h.salt))));
  from_slice = λ b. elim b [
    | v ∷ (m ∷ (t ∷ (l ∷ salt))) ↦ some (record {
      version = v;
      kdf = record { mem_kib = m; time_cost = t; lanes = l };
      salt = salt;
    })
    | _ ↦ none
  ];
}

headers-ReadBack : HeadersReadBack headers
headers-ReadBack = record {
  reads = λ h bs w. subst (λ x. headers.from_slice x ≡ some h) (some-injective w) refl;
  not_empty = λ h bs w. subst (λ (x : Bytes). 0 < length x) (some-injective w) (omega arith);
}

abbrev kdf : BackupKdfPolicy
kdf = record { mem_kib = 65536; time_cost = 3; lanes = 1 }

abbrev backup : Bytes
backup = backup_of (1 ∷ 65536 ∷ 3 ∷ 1 ∷ 9 ∷ []) (5 ∷ 6 ∷ []) (repeated 64 2)

decode_signed-encode_example :
    decode_signed_backup toy signer headers (from_parts primary not_debugged) (7 ∷ 8 ∷ []) backup
    ≡ ok (5 ∷ 6 ∷ [])
unfolding encode_signed_backup
decode_signed-encode_example =
    decode_signed-encode toy signer headers (from_parts primary not_debugged)
      (from_parts primary not_debugged) (some (9 ∷ [])) (7 ∷ 8 ∷ []) (5 ∷ 6 ∷ []) kdf backup
      signer-IsSigner headers-ReadBack refl refl

-- A format with one header in it.
abbrev one_header : BackupJson
one_header = record {
  to_vec = λ _. some (b'{' ∷ b'}' ∷ []);
  from_slice = λ _. some (record { version = 1; kdf = kdf; salt = 9 ∷ [] });
}

abbrev vault_bytes : Bytes
vault_bytes = container 1 encrypted (b'{' ∷ b'}' ∷ []) (2 ∷ 1 ∷ 1 ∷ 2 ∷ 0 ∷ [])

-- The vault with a decoy, signed by its decoy's password.
abbrev decoy_backup : Bytes
decoy_backup = backup_of (b'{' ∷ b'}' ∷ []) vault_bytes (repeated 64 2)

decode_signed_iff_example :
    (decode_signed_backup toy signer one_header
        (from_parts primary not_debugged)
        (7 ∷ 8 ∷ [])
        decoy_backup
      ≡ ok vault_bytes)
    ↔ ((allow_signed_backup_transfer (from_parts primary not_debugged) ≡ true)
        × ((hb : Bytes) × (sig : Bytes) × (backup_of hb vault_bytes sig ≡ decoy_backup)
            × IsVerified toy signer one_header (7 ∷ 8 ∷ []) hb vault_bytes sig))
unfolding container signed_part to_le
decode_signed_iff_example =
    decode_signed_iff toy signer one_header (from_parts primary not_debugged) (7 ∷ 8 ∷ [])
      decoy_backup vault_bytes (all-AreBytes decoy_backup refl)

abbrev formats : Formats
formats = record {
  crypto = toy;
  signer = signer;
  backups = one_header;
  vaults = json_of dual_header;
}

abbrev imported : Imported
imported =
    import_signed_vault_and_unlock formats (from_parts primary not_debugged) not_debugged
      not_debugged (new default_policy) Timer.new (7 ∷ 8 ∷ []) decoy_backup 1 0 60

decoy_import_authorized_example :
    (imported.answer ≡ some (ok tt))
    × (authorize_sensitive_operation imported.manager reveal_secret
        ≡ ok (from_parts primary not_debugged))
unfolding import_vipervault_from_signed_backup unlock_vault_to_plaintext_json_with_outcome container
    signed_part decode_payload_from_plaintext_json to_le
decoy_import_authorized_example =
    decoy_import_authorized formats (from_parts primary not_debugged) not_debugged
      (new default_policy) Timer.new (7 ∷ 8 ∷ []) decoy_backup 1 0 60 imported
      (parsed_of 1 (b'{' ∷ b'}' ∷ []) dual_file) (0 ∷ []) reveal_secret refl refl refl refl

import_opens_only_example :
    ((imported.manager ≡ Timer.new) × (imported.answer ≢ some (ok tt)))
    ⊎ IsImported formats
        (from_parts primary not_debugged)
        not_debugged
        not_debugged
        Timer.new
        imported.manager
        (7 ∷ 8 ∷ [])
        decoy_backup
        60
import_opens_only_example =
    import_opens_only formats (from_parts primary not_debugged) not_debugged not_debugged
      (new default_policy) Timer.new (7 ∷ 8 ∷ []) decoy_backup 1 0 60 imported refl

abbrev phone : BiometricBackend
phone = record { is_available = true; unseal_master_key = λ _. ok (7 ∷ []) }

abbrev by_finger : VaultLockManager × Result BiometricError Done
by_finger =
    unlock_with_biometrics toy Timer.new (from_parts primary not_debugged)
      (parsed_of 1 (b'{' ∷ b'}' ∷ []) single_file) 60 not_debugged phone (4 ∷ [])

biometric_never_authorized_example :
    authorize_sensitive_operation (run_session by_finger.0 (clears ∷ [])) reveal_secret
    ≢ ok (from_parts primary not_debugged)
unfolding unlock_with_biometrics
biometric_never_authorized_example =
    biometric_never_authorized toy Timer.new by_finger.0 (from_parts primary not_debugged)
      (parsed_of 1 (b'{' ∷ b'}' ∷ []) single_file) 60 not_debugged phone (4 ∷ []) (clears ∷ [])
      reveal_secret (from_parts primary not_debugged) refl
