-- ===== src/Import/Signed.antt =====
-- Importing a signed backup: import/signed.rs and import/e2e_signed.rs.
use viper_vault.Base.{
  ℕ, ◌*◌, false, not, Option, none, some, Result, ok, err, Done, ◌>>=◌, ◌>>◌, Bytes, guard, map_err,
}
use viper_vault.Session.{UnlockOutcome, RuntimeInspectionState}
use viper_vault.Policy.{PolicyContext, is_decoy, allow_signed_backup_transfer}
use viper_vault.Crypto.{Primitives}
use viper_vault.Vault.Types.{VaultParseError, ParsedVaultFile}
use viper_vault.Vault.Codec.{is_plaintext, decode_vault_file}
use viper_vault.Vault.Duress.{VaultJson}
use viper_vault.Backup.{Signer, BackupJson, decode_signed_backup}
use viper_vault.AuthGate.{AuthGate, Reply}
use viper_vault.LockState.Types.{VaultLockManager}
use viper_vault.LockState.Timer.{unlock_with_plaintext_json}
use viper_vault.Unlock.{UnlockError, unlock_plaintext_json_gated}
use viper_vault.Import.Error.{
  ImportError, policy_denied, auth_failed, invalid_format, payload_too_large,
}

abbrev pub max_vault_container_payload_len : ℕ
max_vault_container_payload_len = 16 * 1024 * 1024

unfoldable pub map_vault_parse : VaultParseError → ImportError
map_vault_parse VaultParseError.auth_failed = auth_failed
map_vault_parse VaultParseError.payload_too_large = payload_too_large
map_vault_parse _ = invalid_format

-- What an import of signed backups uses: the third-party code and the formats.
pub record Formats : Type 0 where
  pub crypto : Primitives
  pub signer : Signer
  pub backups : BackupJson
  pub vaults : VaultJson

-- `probed` is what the probe answers that the container decoder makes.
unfoldable pub import_vipervault_from_signed_backup :
    Formats
    → PolicyContext
    → (probed : RuntimeInspectionState) → (password signed_backup_bytes : Bytes)
    → Result ImportError ParsedVaultFile
unfolding is_decoy decode_signed_backup decode_vault_file map_vault_parse
import_vipervault_from_signed_backup f policy probed password signed_backup_bytes = do
  guard (not (is_decoy policy)) policy_denied
  vault_bytes ←
      map_err (λ _. auth_failed)
        (decode_signed_backup f.crypto f.signer f.backups policy password signed_backup_bytes)
  parsed ← map_err map_vault_parse (
      decode_vault_file f.vaults.headers probed vault_bytes none max_vault_container_payload_len
        false)
  guard (not (is_plaintext parsed.mode)) invalid_format
  ok parsed

-- What the import leaves: the gate, the manager and the answer, `none` for a panic of the limiter.
pub record Imported : Type 0 where
  pub gate : AuthGate
  pub manager : VaultLockManager
  pub answer : Option (Result ImportError Done)

-- After the gate: the outcome is dropped, and the manager opened as after a master password.
unfoldable pub open_imported :
    VaultLockManager
    → (timeout : ℕ) → (probed : RuntimeInspectionState)
    → AuthGate × Reply UnlockError (UnlockOutcome × Bytes)
    → Imported
unfolding unlock_with_plaintext_json
open_imported m timeout probed (g, some (slept, ok (outcome, json))) = record {
  gate = g;
  manager = unlock_with_plaintext_json m json timeout probed;
  answer = some (ok tt);
}
open_imported m timeout probed (g, some (slept, err e)) = record {
  gate = g;
  manager = m;
  answer = some (err auth_failed);
}
open_imported m timeout probed (g, none) = record { gate = g; manager = m; answer = none }

-- An import that stops before the gate.
abbrev pub refused : AuthGate → VaultLockManager → ImportError → Imported
refused g m e = record { gate = g; manager = m; answer = some (err e) }

-- The rest of the import, once the container was read.
unfoldable pub unlock_imported :
    Formats
    → (probed : RuntimeInspectionState) → AuthGate
    → VaultLockManager
    → (password : Bytes) → (now random timeout : ℕ) → Result ImportError ParsedVaultFile
    → Imported
unfolding unlock_plaintext_json_gated open_imported
unlock_imported f probed g m password now random timeout (err e) = refused g m e
unlock_imported f probed g m password now random timeout (ok parsed) =
    open_imported m timeout probed
      (unlock_plaintext_json_gated f.crypto f.vaults g now random parsed password)

-- What comes before the gate.
unfoldable pub read_imported :
    Formats
    → PolicyContext
    → (probed : RuntimeInspectionState) → (password signed_backup_bytes : Bytes)
    → Result ImportError ParsedVaultFile
unfolding allow_signed_backup_transfer import_vipervault_from_signed_backup
read_imported f policy probed password bytes = do
  guard (allow_signed_backup_transfer policy) policy_denied
  import_vipervault_from_signed_backup f policy probed password bytes

unfoldable pub import_signed_vault_and_unlock :
    Formats
    → PolicyContext
    → (probed probed' : RuntimeInspectionState) → AuthGate
    → VaultLockManager
    → (password signed_backup_bytes : Bytes) → (now random timeout : ℕ) → Imported
unfolding read_imported unlock_imported
import_signed_vault_and_unlock f policy probed probed' g m password bytes now random timeout =
    unlock_imported f probed' g m password now random timeout
      (read_imported f policy probed password bytes)
