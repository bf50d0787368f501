-- ===== src/Vault/Duress.antt =====
-- Duress envelopes: core/crates/vipervault-core/src/vault/duress.rs. A decrypted payload is its
-- bytes of JSON; a secret buffer is the bytes that it holds.
use viper_vault.Base.{List, Option, Result, ok, err, Done, ◌>>=◌, ◌>>◌, Bytes, ok_or, map_err}
use viper_vault.Entries.Types.{VaultEntry}
use viper_vault.Session.{UnlockOutcome, primary, decoy}
use viper_vault.Crypto.{
  Primitives, derive_master_key_from_password, encrypt_xchacha20poly1305, decrypt_xchacha20poly1305,
}
use viper_vault.Crud.{Serde, decode_payload_from_plaintext_json}
use viper_vault.Vault.Types.{
  VaultParseError, serialize, invalid_payload, auth_failed, KdfParams, argon2id, CryptoHeader,
  DualVaultHeader, DualCiphertextEnvelope,
}
use viper_vault.Vault.Codec.{HeaderJson}
pub mod Opens

-- `serde_json` on an envelope, and on all that a vault file holds.
pub record EnvelopeJson : Type 0 where
  pub to_vec : DualCiphertextEnvelope → Option Bytes
  pub from_slice : Bytes → Option DualCiphertextEnvelope

pub record VaultJson : Type 0 where
  pub headers : HeaderJson
  pub envelopes : EnvelopeJson
  pub payloads : Serde

module _ (c : Primitives) where
  -- The key of a crypto header; `Argon2id` is the only variant.
  unfoldable pub derive_key_of : KdfParams → (password salt : Bytes) → Result VaultParseError Bytes
  unfolding derive_master_key_from_password
  derive_key_of (argon2id mem_kib time_cost lanes) password salt =
      map_err (λ _. auth_failed)
        (derive_master_key_from_password c password salt mem_kib time_cost lanes)

  unfoldable pub decrypt_with_crypto_header :
      (header_bytes : Bytes)
      → CryptoHeader
      → (ciphertext password : Bytes) → Result VaultParseError Bytes
  unfolding derive_key_of decrypt_xchacha20poly1305
  decrypt_with_crypto_header header_bytes ch ciphertext password = do
    key ← derive_key_of ch.kdf password ch.salt
    map_err (λ _. auth_failed) (decrypt_xchacha20poly1305 c key ch.nonce ciphertext header_bytes)

  unfoldable pub encrypt_with_crypto_header :
      (header_bytes : Bytes)
      → CryptoHeader
      → (plaintext password : Bytes) → Result VaultParseError Bytes
  unfolding derive_key_of encrypt_xchacha20poly1305
  encrypt_with_crypto_header header_bytes ch plaintext password = do
    key ← derive_key_of ch.kdf password ch.salt
    map_err (λ _. auth_failed) (encrypt_xchacha20poly1305 c key ch.nonce plaintext header_bytes)

-- `serde_json::from_slice::<VaultPayload>` with its error mapped.
unfoldable pub payload_of_json : VaultJson → Bytes → Result VaultParseError (List VaultEntry)
unfolding decode_payload_from_plaintext_json
payload_of_json j json = ok_or (decode_payload_from_plaintext_json j.payloads json) invalid_payload

unfoldable pub validate_payload_json : VaultJson → Bytes → Result VaultParseError Done
unfolding payload_of_json
validate_payload_json j json = do payload ← payload_of_json j json; ok tt

-- A branch that decrypted: its payload is validated, and no other branch is tried.
unfoldable pub validated :
    VaultJson → UnlockOutcome → Bytes → Result VaultParseError (UnlockOutcome × Bytes)
unfolding validate_payload_json
validated j outcome pt = do validate_payload_json j pt; ok (outcome, pt)

-- `if let Ok(pt)` on the primary branch, then on the decoy branch, which is only tried when the
-- first one does not decrypt.
unfoldable pub first_branch :
    VaultJson
    → (primary_pt decoy_pt : Result VaultParseError Bytes)
    → Result VaultParseError (UnlockOutcome × Bytes)
unfolding validated
first_branch j (ok pt) _ = validated j primary pt
first_branch j (err _) (ok pt) = validated j decoy pt
first_branch j (err _) (err _) = err auth_failed

module _ (c : Primitives) (j : VaultJson) where
  unfoldable pub unlock_duress_envelope_to_plaintext_json :
      (header_bytes : Bytes)
      → DualVaultHeader
      → DualCiphertextEnvelope
      → (password : Bytes) → Result VaultParseError (UnlockOutcome × Bytes)
  unfolding decrypt_with_crypto_header first_branch
  unlock_duress_envelope_to_plaintext_json header_bytes dh envelope password =
      first_branch j
        (decrypt_with_crypto_header c header_bytes dh.primary envelope.primary_ct password)
        (decrypt_with_crypto_header c header_bytes dh.decoy envelope.decoy_ct password)

  unfoldable pub unlock_duress_envelope :
      (header_bytes : Bytes)
      → DualVaultHeader
      → DualCiphertextEnvelope
      → (password : Bytes) → Result VaultParseError (UnlockOutcome × List VaultEntry)
  unfolding unlock_duress_envelope_to_plaintext_json payload_of_json
  unlock_duress_envelope header_bytes dh envelope password = do
    (outcome, json) ← unlock_duress_envelope_to_plaintext_json header_bytes dh envelope password
    payload ← payload_of_json j json
    ok (outcome, payload)

  unfoldable pub encrypt_duress_envelope_from_plaintext_json :
      (header_bytes : Bytes)
      → DualVaultHeader
      → (primary_password decoy_password primary_json decoy_json : Bytes)
      → Result VaultParseError DualCiphertextEnvelope
  unfolding validate_payload_json encrypt_with_crypto_header
  encrypt_duress_envelope_from_plaintext_json header_bytes dh primary_password decoy_password
        primary_json decoy_json =
      do
        validate_payload_json j primary_json
        validate_payload_json j decoy_json
        ct1 ← encrypt_with_crypto_header c header_bytes dh.primary primary_json primary_password
        ct2 ← encrypt_with_crypto_header c header_bytes dh.decoy decoy_json decoy_password
        ok (record { primary_ct = ct1; decoy_ct = ct2 })

  unfoldable pub encrypt_duress_envelope :
      (header_bytes : Bytes)
      → DualVaultHeader
      → (primary_password decoy_password : Bytes)
      → (primary_payload decoy_payload : List VaultEntry)
      → Result VaultParseError DualCiphertextEnvelope
  unfolding encrypt_duress_envelope_from_plaintext_json
  encrypt_duress_envelope header_bytes dh primary_password decoy_password primary_payload
        decoy_payload =
      do
        primary_json ← ok_or (j.payloads.to_vec primary_payload) serialize
        decoy_json ← ok_or (j.payloads.to_vec decoy_payload) serialize
        encrypt_duress_envelope_from_plaintext_json header_bytes dh primary_password decoy_password
            primary_json decoy_json
