-- ===== src/Import/Session.antt =====
-- The session that a signed import opens (import/e2e_signed.rs).
use viper_vault.Base.{
  ℕ, ◌≡◌, refl, ap, ◌∙◌, sym, true, false, not, none, some, ◌≢◌, ◌⊎◌, inl, inr, Result, ok, err,
  Bytes, arith, >>=-eq-ok, guard-eq-ok, guard-ok, map_err, map_err-ok, ok-injective,
}
use viper_vault.Session.{
  UnlockOutcome, primary, decoy, strong, RuntimeInspectionState, not_debugged, SensitiveOperation,
}
use viper_vault.Policy.{PolicyContext, from_parts, allow_signed_backup_transfer, is_decoy}
use viper_vault.Vault.Types.{ParsedVaultFile}
use viper_vault.Vault.Codec.{decode_vault_file, is_plaintext}
use viper_vault.RateLimit.{on_failure_delay}
use viper_vault.Backup.{decode_signed_backup}
use viper_vault.AuthGate.{AuthGate, Reply, run, throttle}
use viper_vault.LockState.Types.{VaultLockManager}
use viper_vault.LockState.Timer.{opened, unlock_with_plaintext_json}
use viper_vault.LockState.Posture.{authorize_sensitive_operation}
use viper_vault.LockState.Authorize.{authorize_iff}
use viper_vault.Unlock.{
  UnlockError, unlock_vault_to_plaintext_json_with_outcome, unlock_plaintext_json_gated,
  reset_on_primary, is_auth_failed,
}
use viper_vault.Unlock.Authentic.{IsOpened, unlocked-IsOpened}
use viper_vault.Import.Error.{ImportError, policy_denied, auth_failed, invalid_format}
use viper_vault.Import.Signed.{
  Formats, Imported, map_vault_parse, max_vault_container_payload_len,
  import_vipervault_from_signed_backup, read_imported, open_imported, unlock_imported,
  import_signed_vault_and_unlock,
}

-- The gate passes a success on as it is.
gated-ok :
    (f : Formats) (g : AuthGate) (now random : ℕ) (parsed : ParsedVaultFile) (password : Bytes)
    (o : UnlockOutcome) (json : Bytes)
    → unlock_vault_to_plaintext_json_with_outcome f.crypto f.vaults parsed password ≡ ok (o, json)
    → (unlock_plaintext_json_gated f.crypto f.vaults g now random parsed password).1
      ≡ some (0, ok (o, json))
unfolding unlock_plaintext_json_gated run reset_on_primary
gated-ok f g now random parsed password primary json h = rw h refl
gated-ok f g now random parsed password decoy json h = rw h refl

open_imported-ok :
    (m : VaultLockManager) (timeout : ℕ) (probed : RuntimeInspectionState)
    (reply : AuthGate × Reply UnlockError (UnlockOutcome × Bytes)) (i : Imported)
    (o : UnlockOutcome) (json : Bytes)
    → reply.1 ≡ some (0, ok (o, json))
    → open_imported m timeout probed reply ≡ i
    → (i.answer ≡ some (ok tt)) × (i.manager ≡ unlock_with_plaintext_json m json timeout probed)
unfolding open_imported
open_imported-ok m timeout probed (g, none) i o json h e = absurd (cc)
open_imported-ok m timeout probed (g, some (slept, err why)) i o json h e = absurd (cc)
open_imported-ok m timeout probed (g, some (slept, ok (o', json'))) i o json h e =
    let same : json' ≡ json = cc in
    (
      ap (λ (x : Imported). x.answer) (sym e),
      ap (λ (x : Imported). x.manager) (sym e)
          ∙ ap (λ x. unlock_with_plaintext_json m x timeout probed) same,
    )

opened_imported :
    (f : Formats) (policy : PolicyContext) (probed probed' : RuntimeInspectionState) (g : AuthGate)
    (m : VaultLockManager) (password bytes : Bytes) (now random timeout : ℕ) (i : Imported)
    (parsed : ParsedVaultFile) (o : UnlockOutcome) (json : Bytes)
    → allow_signed_backup_transfer policy ≡ true
    → import_vipervault_from_signed_backup f policy probed password bytes ≡ ok parsed
    → unlock_vault_to_plaintext_json_with_outcome f.crypto f.vaults parsed password ≡ ok (o, json)
    → import_signed_vault_and_unlock f policy probed probed' g m password bytes now random timeout
      ≡ i
    → (i.answer ≡ some (ok tt)) × (i.manager ≡ unlock_with_plaintext_json m json timeout probed')
unfolding import_signed_vault_and_unlock unlock_imported read_imported
opened_imported f policy probed probed' g m password bytes now random timeout i parsed o json
      allowed read unlocks is_i =
    let is_read : read_imported f policy probed password bytes ≡ ok parsed =
      guard-ok (allow_signed_backup_transfer policy) policy_denied
        (import_vipervault_from_signed_backup f policy probed password bytes) allowed read in
    let is_opened =
      ap (unlock_imported f probed' g m password now random timeout) (sym is_read) ∙ is_i in
    open_imported-ok m timeout probed'
      (unlock_plaintext_json_gated f.crypto f.vaults g now random parsed password) i o json
      (gated-ok f g now random parsed password o json unlocks) is_opened

-- A master password that opens a file in a clean runtime may do everything.
fresh-authorized :
    (m : VaultLockManager) (json : Bytes) (timeout : ℕ) (op : SensitiveOperation)
    → authorize_sensitive_operation (unlock_with_plaintext_json m json timeout not_debugged) op
      ≡ ok (from_parts primary not_debugged)
unfolding unlock_with_plaintext_json
fresh-authorized m json timeout op =
    (authorize_iff (unlock_with_plaintext_json m json timeout not_debugged) op
        (from_parts primary not_debugged)).1
      (
        opened json strong primary not_debugged,
        refl,
        record { real = refl; clean = refl; strongly = refl; settled = refl },
        refl,
      )

-- A signed import whose password opens the decoy payload of the file succeeds and opens that payload
-- as a session of the real vault: in a clean runtime every sensitive operation is authorized there,
-- as it never is in a decoy session.
pub decoy_import_authorized :
    (f : Formats) (policy : PolicyContext) (probed : RuntimeInspectionState) (g : AuthGate)
    (m : VaultLockManager) (password bytes : Bytes) (now random timeout : ℕ) (i : Imported)
    (parsed : ParsedVaultFile) (json : Bytes) (op : SensitiveOperation)
    → allow_signed_backup_transfer policy ≡ true
    → import_vipervault_from_signed_backup f policy probed password bytes ≡ ok parsed
    → unlock_vault_to_plaintext_json_with_outcome f.crypto f.vaults parsed password
      ≡ ok (decoy, json)
    → import_signed_vault_and_unlock f policy probed not_debugged g m password bytes now random
        timeout
      ≡ i
    → (i.answer ≡ some (ok tt))
      × (authorize_sensitive_operation i.manager op ≡ ok (from_parts primary not_debugged))
decoy_import_authorized f policy probed g m password bytes now random timeout i parsed json op
      allowed read unlocks is_i =
    let (answer, manager) =
      opened_imported f policy probed not_debugged g m password bytes now random timeout i parsed
        decoy json allowed read unlocks is_i in
    (
      answer,
      ap (λ x. authorize_sensitive_operation x op) manager ∙ fresh-authorized m json timeout op,
    )

-- What an import that opened the manager was made of: a backup that was accepted, the container in it,
-- and the payload that the password opens there.
pub record IsImported (f : Formats) (policy : PolicyContext)
    (probed probed' : RuntimeInspectionState) (m m' : VaultLockManager) (password bytes : Bytes)
    (timeout : ℕ) : Type 0 where
  pub vault_bytes : Bytes
  pub parsed : ParsedVaultFile
  pub outcome : UnlockOutcome
  pub json : Bytes
  pub accepted :
      decode_signed_backup f.crypto f.signer f.backups policy password bytes ≡ ok vault_bytes
  pub contained :
      decode_vault_file f.vaults.headers probed vault_bytes none max_vault_container_payload_len
        false
      ≡ ok parsed
  pub opened : IsOpened f.crypto f.vaults parsed password outcome json
  pub manager : m' ≡ unlock_with_plaintext_json m json timeout probed'

-- What the import of the container read.
import-ok :
    (f : Formats) (policy : PolicyContext) (probed : RuntimeInspectionState)
    (password bytes : Bytes) (parsed : ParsedVaultFile)
    → import_vipervault_from_signed_backup f policy probed password bytes ≡ ok parsed
    → (vault_bytes : Bytes) × (decode_signed_backup f.crypto f.signer f.backups policy password
          bytes
        ≡ ok vault_bytes)
      × (decode_vault_file f.vaults.headers probed vault_bytes none max_vault_container_payload_len
            false
          ≡ ok parsed)
unfolding import_vipervault_from_signed_backup
import-ok f policy probed password bytes parsed h =
    let backup = decode_signed_backup f.crypto f.signer f.backups policy password bytes in
    let (_, h1) = guard-eq-ok (not (is_decoy policy)) policy_denied _ h in
    let (vault_bytes, accepted, h2) = >>=-eq-ok (map_err (λ _. auth_failed) backup) _ h1 in
    let container =
      decode_vault_file f.vaults.headers probed vault_bytes none max_vault_container_payload_len
        false in
    let (parsed', contained, h3) = >>=-eq-ok (map_err map_vault_parse container) _ h2 in
    let (_, same) = guard-eq-ok (not (is_plaintext parsed'.mode)) invalid_format _ h3 in
    (
      vault_bytes,
      map_err-ok _ backup vault_bytes accepted,
      map_err-ok _ container parsed' contained ∙ ap ok (ok-injective same),
    )

reset-answer :
    (g : AuthGate) (now random slept : ℕ) (r : Result UnlockError (UnlockOutcome × Bytes))
    (o : UnlockOutcome) (json : Bytes)
    → (reset_on_primary (run is_auth_failed (λ _. false) g now random r)).1
      ≡ some (slept, ok (o, json))
    → r ≡ ok (o, json)
unfolding run reset_on_primary throttle is_auth_failed on_failure_delay
reset-answer g now random slept (ok (primary, x)) o json h = cc
reset-answer g now random slept (ok (decoy, x)) o json h = cc
reset-answer g now random slept (err e) o json h = ground arith

gated-answer :
    (f : Formats) (g : AuthGate) (now random slept : ℕ) (parsed : ParsedVaultFile)
    (password : Bytes) (o : UnlockOutcome) (json : Bytes)
    → (unlock_plaintext_json_gated f.crypto f.vaults g now random parsed password).1
      ≡ some (slept, ok (o, json))
    → unlock_vault_to_plaintext_json_with_outcome f.crypto f.vaults parsed password ≡ ok (o, json)
unfolding unlock_plaintext_json_gated
gated-answer f g now random slept parsed password o json h =
    reset-answer g now random slept
      (unlock_vault_to_plaintext_json_with_outcome f.crypto f.vaults parsed password) o json h

-- What opening from a reply leaves.
open_imported-or_same :
    (m : VaultLockManager) (timeout : ℕ) (probed : RuntimeInspectionState)
    (reply : AuthGate × Reply UnlockError (UnlockOutcome × Bytes)) (i : Imported)
    → open_imported m timeout probed reply ≡ i
    → ((i.manager ≡ m) × (i.answer ≢ some (ok tt)))
      ⊎ ((slept : ℕ) × (o : UnlockOutcome) × (json : Bytes) × (reply.1 ≡ some (slept, ok (o, json)))
          × (i.manager ≡ unlock_with_plaintext_json m json timeout probed))
unfolding open_imported
open_imported-or_same m timeout probed (g, none) i e =
    inl (ap (λ (x : Imported). x.manager) (sym e), (λ h. cc))
open_imported-or_same m timeout probed (g, some (slept, err why)) i e =
    inl (ap (λ (x : Imported). x.manager) (sym e), (λ h. cc))
open_imported-or_same m timeout probed (g, some (slept, ok (o, json))) i e =
    inr (slept, o, json, refl, ap (λ (x : Imported). x.manager) (sym e))

-- From what was read before the gate.
unlock_imported-only :
    (f : Formats) (policy : PolicyContext) (probed probed' : RuntimeInspectionState) (g : AuthGate)
    (m : VaultLockManager) (password bytes : Bytes) (now random timeout : ℕ) (i : Imported)
    (r : Result ImportError ParsedVaultFile)
    → read_imported f policy probed password bytes ≡ r
    → unlock_imported f probed' g m password now random timeout r ≡ i
    → ((i.manager ≡ m) × (i.answer ≢ some (ok tt)))
      ⊎ IsImported f policy probed probed' m i.manager password bytes timeout
unfolding unlock_imported read_imported
unlock_imported-only f policy probed probed' g m password bytes now random timeout i (err e) read
      is_i =
    inl (ap (λ (x : Imported). x.manager) (sym is_i), (λ h. cc))
unlock_imported-only f policy probed probed' g m password bytes now random timeout i (ok parsed)
      read is_i =
    let (_, imported) = guard-eq-ok (allow_signed_backup_transfer policy) policy_denied _ read in
    let (vault_bytes, accepted, contained) =
      import-ok f policy probed password bytes parsed imported in
    elim (open_imported-or_same m timeout probed'
      (unlock_plaintext_json_gated f.crypto f.vaults g now random parsed password) i is_i) [
        | inl same ↦ inl same
        | inr (slept, o, json, replied, manager) ↦ inr (record {
          vault_bytes = vault_bytes;
          parsed = parsed;
          outcome = o;
          json = json;
          accepted = accepted;
          contained = contained;
          opened =
              unlocked-IsOpened f.crypto f.vaults parsed password o json
                (gated-answer f g now random slept parsed password o json replied);
          manager = manager;
        })
      ]

-- A signed import leaves the manager as it was and does not succeed, or it opened the manager with a
-- payload that the password unseals, at a cost within the policy, in a container, not in plaintext mode,
-- which a backup that was accepted with the same password holds.
pub import_opens_only :
    (f : Formats) (policy : PolicyContext) (probed probed' : RuntimeInspectionState) (g : AuthGate)
    (m : VaultLockManager) (password bytes : Bytes) (now random timeout : ℕ) (i : Imported)
    → import_signed_vault_and_unlock f policy probed probed' g m password bytes now random timeout
      ≡ i
    → ((i.manager ≡ m) × (i.answer ≢ some (ok tt)))
      ⊎ IsImported f policy probed probed' m i.manager password bytes timeout
unfolding import_signed_vault_and_unlock
import_opens_only f policy probed probed' g m password bytes now random timeout i is_i =
    unlock_imported-only f policy probed probed' g m password bytes now random timeout i
      (read_imported f policy probed password bytes) refl is_i
