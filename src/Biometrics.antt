-- ===== src/Biometrics.antt =====
-- Biometric unlock: core/crates/vipervault-core/src/core/biometrics.rs and biometrics/. The
-- platform's backend is a parameter.
use viper_vault.Base.{ℕ, Bool, not, Result, ok, err, Done, ◌>>=◌, ◌>>◌, Bytes, guard, map_err}
use viper_vault.Session.{RuntimeInspectionState, biometric}
use viper_vault.Policy.{PolicyContext, allow_biometric_unlock}
use viper_vault.Crypto.{Primitives, decrypt_xchacha20poly1305}
use viper_vault.Vault.Types.{ParsedVaultFile}
use viper_vault.Vault.Codec.{is_plaintext, is_some}
use viper_vault.LockState.Types.{VaultLockManager}
use viper_vault.LockState.Timer.{unlock_with_plaintext_json_with_strength}
pub mod Bounds

pub data BiometricError : Type 0 where
  policy_denied unavailable auth_failed invalid_response not_supported : BiometricError

-- The trait `BiometricBackend`.
pub record BiometricBackend : Type 0 where
  pub is_available : Bool
  pub unseal_master_key : (vault_id : Bytes) → Result BiometricError Bytes

unfoldable pub unlock_vault_to_plaintext_json_with_master_key :
    Primitives → ParsedVaultFile → (master_key : Bytes) → Result BiometricError Bytes
unfolding decrypt_xchacha20poly1305
unlock_vault_to_plaintext_json_with_master_key c parsed master_key = do
  guard (not (is_plaintext parsed.mode)) auth_failed
  guard (not (is_some parsed.header.duress)) not_supported
  map_err (λ _. auth_failed)
      (decrypt_xchacha20poly1305 c master_key parsed.header.crypto.nonce parsed.payload
        parsed.header_bytes)

-- Opening the manager with the JSON, if there is one, as a biometric session.
unfoldable pub open_with :
    VaultLockManager
    → (timeout : ℕ) → (probed : RuntimeInspectionState) → Result BiometricError Bytes
    → VaultLockManager × Result BiometricError Done
unfolding unlock_with_plaintext_json_with_strength
open_with m timeout probed (ok json) =
    (unlock_with_plaintext_json_with_strength m json timeout biometric probed, ok tt)
open_with m timeout probed (err e) = (m, err e)

module _ (c : Primitives) (m : VaultLockManager) (policy : PolicyContext) (parsed : ParsedVaultFile)
    (timeout : ℕ) (probed : RuntimeInspectionState) where
  unfoldable pub unlock_with_master_key :
      (master_key : Bytes) → VaultLockManager × Result BiometricError Done
  unfolding allow_biometric_unlock unlock_vault_to_plaintext_json_with_master_key open_with
  unlock_with_master_key master_key = open_with m timeout probed (do
    guard (allow_biometric_unlock policy) policy_denied
    unlock_vault_to_plaintext_json_with_master_key c parsed master_key)

  -- The key that the backend releases, if the policy and the platform let it.
  unfoldable pub released_key : BiometricBackend → (vault_id : Bytes) → Result BiometricError Bytes
  unfolding allow_biometric_unlock
  released_key backend vault_id = do
    guard (allow_biometric_unlock policy) policy_denied
    guard backend.is_available unavailable
    backend.unseal_master_key vault_id

  unfoldable pub unlock_with_biometrics :
      BiometricBackend → (vault_id : Bytes) → VaultLockManager × Result BiometricError Done
  unfolding released_key unlock_with_master_key
  unlock_with_biometrics backend vault_id = elim (released_key backend vault_id) [
    | err e ↦ (m, err e)
    | ok mk ↦ unlock_with_master_key mk
  ]
