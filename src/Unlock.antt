-- ===== src/Unlock.antt =====
-- Opening a vault file: core/crates/vipervault-core/src/core/unlock.rs.
use viper_vault.Base.{
  ℕ, Bool, true, false, List, Option, none, some, Result, ok, err, ◌>>=◌, ◌>>◌, Bytes, guard, not,
  ok_or, map_err,
}
use viper_vault.Entries.Types.{VaultEntry}
use viper_vault.Session.{UnlockOutcome, primary, decoy}
use viper_vault.Crypto.{
  Primitives, KdfError, derive_master_key_from_password, decrypt_xchacha20poly1305,
}
use viper_vault.Crud.{decode_payload_from_plaintext_json}
use viper_vault.Vault.Types.{VaultParseError, KdfParams, argon2id, DualVaultHeader, ParsedVaultFile}
use viper_vault.Vault.Codec.{is_plaintext}
use viper_vault.Vault.Duress.{
  VaultJson, unlock_duress_envelope_to_plaintext_json, unlock_duress_envelope,
}
use viper_vault.AuthGate.{AuthGate, Reply, run, reset}
pub mod Agrees
pub mod Authentic
pub mod Throttled
pub mod Reopened
pub mod Dual
pub mod Created
pub mod Migrated

pub data UnlockError : Type 0 where
  parse : VaultParseError → UnlockError
  kdf : KdfError → UnlockError
  auth_failed payload_decode internal : UnlockError

-- `serde_json::from_slice` with its error mapped.
unfoldable pub decode_unlocked : VaultJson → Bytes → Result UnlockError (List VaultEntry)
unfolding decode_payload_from_plaintext_json
decode_unlocked j json = ok_or (decode_payload_from_plaintext_json j.payloads json) payload_decode

module _ (c : Primitives) (j : VaultJson) where
  unfoldable pub derive_unlock_key : KdfParams → (password salt : Bytes) → Result UnlockError Bytes
  unfolding derive_master_key_from_password
  derive_unlock_key (argon2id mem_kib time_cost lanes) password salt =
      map_err kdf (derive_master_key_from_password c password salt mem_kib time_cost lanes)

  -- A file with one payload.
  unfoldable pub unlock_single :
      ParsedVaultFile → (password : Bytes) → Result UnlockError (UnlockOutcome × Bytes)
  unfolding derive_unlock_key decrypt_xchacha20poly1305
  unlock_single parsed password = do
    let crypto = parsed.header.crypto
    key ← derive_unlock_key crypto.kdf password crypto.salt
    json ←
        map_err (λ _. auth_failed)
          (decrypt_xchacha20poly1305 c key crypto.nonce parsed.payload parsed.header_bytes)
    ok (primary, json)

  -- A file with a duress header.
  unfoldable pub unlock_dual :
      ParsedVaultFile
      → DualVaultHeader
      → (password : Bytes) → Result UnlockError (UnlockOutcome × Bytes)
  unfolding unlock_duress_envelope_to_plaintext_json
  unlock_dual parsed dh password = do
    envelope ← ok_or (j.envelopes.from_slice parsed.payload) payload_decode
    map_err (λ _. auth_failed)
        (unlock_duress_envelope_to_plaintext_json c j parsed.header_bytes dh envelope password)

  unfoldable pub unlock_vault_to_plaintext_json_with_outcome :
      ParsedVaultFile → (password : Bytes) → Result UnlockError (UnlockOutcome × Bytes)
  unfolding unlock_single unlock_dual
  unlock_vault_to_plaintext_json_with_outcome parsed password = do
    guard (not (is_plaintext parsed.mode)) auth_failed
    elim parsed.header.duress [
      | some dh ↦ unlock_dual parsed dh password
      | none ↦ unlock_single parsed password
    ]

  unfoldable pub unlock_vault_to_plaintext_json :
      ParsedVaultFile → (password : Bytes) → Result UnlockError Bytes
  unfolding unlock_vault_to_plaintext_json_with_outcome
  unlock_vault_to_plaintext_json parsed password = do
    (outcome, json) ← unlock_vault_to_plaintext_json_with_outcome parsed password
    ok json

  unfoldable pub unlock_vault :
      ParsedVaultFile → (password : Bytes) → Result UnlockError (List VaultEntry)
  unfolding unlock_vault_to_plaintext_json decode_unlocked
  unlock_vault parsed password = do
    json ← unlock_vault_to_plaintext_json parsed password
    decode_unlocked j json

  unfoldable pub unlock_dual_payload :
      ParsedVaultFile
      → DualVaultHeader
      → (password : Bytes) → Result UnlockError (UnlockOutcome × List VaultEntry)
  unfolding unlock_duress_envelope
  unlock_dual_payload parsed dh password = do
    envelope ← ok_or (j.envelopes.from_slice parsed.payload) payload_decode
    map_err (λ _. auth_failed) (unlock_duress_envelope c j parsed.header_bytes dh envelope password)

  unfoldable pub unlock_vault_with_outcome :
      ParsedVaultFile → (password : Bytes) → Result UnlockError (UnlockOutcome × List VaultEntry)
  unfolding unlock_dual_payload unlock_vault
  unlock_vault_with_outcome parsed password = do
    guard (not (is_plaintext parsed.mode)) auth_failed
    elim parsed.header.duress [
      | some dh ↦ unlock_dual_payload parsed dh password
      | none ↦ unlock_vault parsed password >>= (λ payload. ok (primary, payload))
    ]

-- `matches!(e, UnlockError::AuthFailed)`
unfoldable pub is_auth_failed : UnlockError → Bool
is_auth_failed auth_failed = true
is_auth_failed _ = false

-- What follows the gate: a primary outcome resets it.
unfoldable pub reset_on_primary :
    {A : Type 0}
    → AuthGate × Reply UnlockError (UnlockOutcome × A)
    → AuthGate × Reply UnlockError (UnlockOutcome × A)
unfolding reset
reset_on_primary (g, some (slept, ok (primary, x))) = (reset g, some (slept, ok (primary, x)))
reset_on_primary (g, some (slept, ok (decoy, x))) = (g, some (slept, ok (decoy, x)))
reset_on_primary (g, some (slept, err e)) = (g, some (slept, err e))
reset_on_primary (g, none) = (g, none)

-- The payload of a gated unlock; what does not decode is an error after the gate.
unfoldable pub decode_reply :
    VaultJson
    → Reply UnlockError (UnlockOutcome × Bytes)
    → Reply UnlockError (UnlockOutcome × List VaultEntry)
unfolding decode_unlocked
decode_reply j none = none
decode_reply j (some (slept, r)) =
    some (slept, (do (outcome, json) ← r; payload ← decode_unlocked j json; ok (outcome, payload)))

module _ (c : Primitives) (j : VaultJson) where
  unfoldable pub unlock_plaintext_json_gated :
      AuthGate
      → (now random : ℕ) → ParsedVaultFile
      → (password : Bytes) → AuthGate × Reply UnlockError (UnlockOutcome × Bytes)
  unfolding run unlock_vault_to_plaintext_json_with_outcome is_auth_failed reset_on_primary
  unlock_plaintext_json_gated g now random parsed password = reset_on_primary (
      run is_auth_failed (λ _. false) g now random
        (unlock_vault_to_plaintext_json_with_outcome c j parsed password))

  unfoldable pub unlock_session_gated :
      AuthGate
      → (now random : ℕ) → ParsedVaultFile
      → (password : Bytes) → AuthGate × Reply UnlockError (UnlockOutcome × List VaultEntry)
  unfolding unlock_plaintext_json_gated decode_reply
  unlock_session_gated g now random parsed password =
      let (g', reply) = unlock_plaintext_json_gated g now random parsed password in
      (g', decode_reply j reply)
