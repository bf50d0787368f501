-- ===== src/Vault/Migrate.antt =====
-- Adding a decoy to a vault file: core/crates/vipervault-core/src/vault/migrate.rs.
use viper_vault.Base.{List, Result, ok, err, ◌>>=◌, ◌>>◌, Bytes, guard, not, ok_or, map_err}
use viper_vault.Entries.Types.{VaultEntry}
use viper_vault.Crypto.{Primitives, decrypt_xchacha20poly1305}
use viper_vault.Vault.Types.{
  VaultParseError, invalid_header, auth_failed, VaultStorage, encrypted_storage, plaintext_storage,
  VaultHeader, VaultFile,
}
use viper_vault.Vault.Codec.{is_some, serialize_header_json}
use viper_vault.Vault.Duress.{
  VaultJson, derive_key_of, validate_payload_json, encrypt_duress_envelope_from_plaintext_json,
}
use viper_vault.Vault.Create.{
  VaultKdfPolicy, DualDraws, draw_dual_header, dual_vault_header, payload_to_json, store_envelope,
}

-- `match &vault.storage`
unfoldable pub legacy_ciphertext : VaultStorage → Result VaultParseError Bytes
legacy_ciphertext (encrypted_storage ct) = ok ct
legacy_ciphertext (plaintext_storage json) = err invalid_header

-- The validated JSON of the only payload of a vault.
unfoldable pub legacy_plaintext :
    Primitives → VaultJson → VaultFile → (password : Bytes) → Result VaultParseError Bytes
unfolding legacy_ciphertext derive_key_of serialize_header_json decrypt_xchacha20poly1305
    validate_payload_json
legacy_plaintext c j vault password = do
  ct ← legacy_ciphertext vault.storage
  guard (not (is_some vault.header.duress)) invalid_header
  let crypto = vault.header.crypto
  key ← derive_key_of c crypto.kdf password crypto.salt
  header_bytes ← serialize_header_json j.headers vault.header
  pt ← map_err (λ _. auth_failed) (decrypt_xchacha20poly1305 c key crypto.nonce ct header_bytes)
  validate_payload_json j pt
  ok pt

unfoldable pub enable_duress_on_vault :
    Primitives
    → VaultJson
    → DualDraws
    → VaultFile
    → (primary_password decoy_password : Bytes) → (decoy_payload : List VaultEntry) → VaultKdfPolicy
    → Result VaultParseError VaultFile
unfolding legacy_plaintext payload_to_json draw_dual_header serialize_header_json
    encrypt_duress_envelope_from_plaintext_json store_envelope
enable_duress_on_vault c j drawn vault primary_password decoy_password decoy_payload kdf = do
  primary_json ← legacy_plaintext c j vault primary_password
  decoy_json ← payload_to_json j decoy_payload
  dh ← draw_dual_header drawn kdf
  let new_header : VaultHeader =
      dual_vault_header vault.header.schema_version vault.header.vault_id dh
  header_bytes ← serialize_header_json j.headers new_header
  duress_ref ← ok_or new_header.duress invalid_header
  envelope ←
      encrypt_duress_envelope_from_plaintext_json c j header_bytes duress_ref primary_password
        decoy_password primary_json decoy_json
  store_envelope j new_header envelope
