-- ===== src/Vault/Create.antt =====
-- New vault files: core/crates/vipervault-core/src/vault/create.rs. What the system's generator
-- draws is an argument, `none` where it fails; so is the new identifier.
use viper_vault.Base.{ℕ, List, Option, none, some, Result, ok, ◌>>=◌, Bytes, ok_or, map_err}
use viper_vault.Entries.Types.{VaultEntry}
use viper_vault.Crypto.{Primitives, derive_master_key_from_password, encrypt_xchacha20poly1305}
use viper_vault.Vault.Types.{
  VaultParseError, serialize, invalid_header, KdfParams, argon2id, xchacha20_poly1305, CryptoHeader,
  DualVaultHeader, VaultHeader, VaultFile, encrypted_storage, DualCiphertextEnvelope,
}
use viper_vault.Vault.Codec.{serialize_header_json}
use viper_vault.Vault.Duress.{VaultJson, encrypt_duress_envelope}

pub record VaultKdfPolicy : Type 0 where
  pub mem_kib : ℕ
  pub time_cost : ℕ
  pub lanes : ℕ

unfoldable pub as_kdf_params : VaultKdfPolicy → KdfParams
as_kdf_params kdf = argon2id kdf.mem_kib kdf.time_cost kdf.lanes

unfoldable pub crypto_header : VaultKdfPolicy → (salt nonce : Bytes) → CryptoHeader
unfolding as_kdf_params
crypto_header kdf salt nonce = record {
  kdf = as_kdf_params kdf;
  aead = xchacha20_poly1305;
  salt = salt;
  nonce = nonce;
}

-- `serde_json::to_vec` of a payload.
unfoldable pub payload_to_json : VaultJson → List VaultEntry → Result VaultParseError Bytes
payload_to_json j payload = ok_or (j.payloads.to_vec payload) serialize

unfoldable pub draw_header :
    (drawn_salt drawn_nonce : Option Bytes)
    → (schema_version vault_id : ℕ) → VaultKdfPolicy
    → Result VaultParseError VaultHeader
unfolding crypto_header
draw_header drawn_salt drawn_nonce schema_version vault_id kdf = do
  salt ← ok_or drawn_salt serialize
  nonce ← ok_or drawn_nonce serialize
  ok (record {
    schema_version = schema_version;
    vault_id = vault_id;
    crypto = crypto_header kdf salt nonce;
    duress = none;
  })

-- From the master key to the ciphertext.
unfoldable pub seal_payload :
    Primitives
    → VaultJson
    → (header_bytes : Bytes) → CryptoHeader
    → VaultKdfPolicy
    → (password : Bytes) → List VaultEntry
    → Result VaultParseError Bytes
unfolding payload_to_json derive_master_key_from_password encrypt_xchacha20poly1305
seal_payload c j header_bytes ch kdf password payload = do
  key ←
      map_err (λ _. invalid_header)
        (derive_master_key_from_password c password ch.salt kdf.mem_kib kdf.time_cost kdf.lanes)
  plaintext ← payload_to_json j payload
  map_err (λ _. serialize) (encrypt_xchacha20poly1305 c key ch.nonce plaintext header_bytes)

unfoldable pub create_encrypted_vault :
    Primitives
    → VaultJson
    → (drawn_salt drawn_nonce : Option Bytes) → (vault_id : ℕ) → (password : Bytes)
    → List VaultEntry
    → (schema_version : ℕ) → VaultKdfPolicy
    → Result VaultParseError VaultFile
unfolding draw_header seal_payload serialize_header_json
create_encrypted_vault c j drawn_salt drawn_nonce vault_id password payload schema_version kdf = do
  header ← draw_header drawn_salt drawn_nonce schema_version vault_id kdf
  header_bytes ← serialize_header_json j.headers header
  ciphertext ← seal_payload c j header_bytes header.crypto kdf password payload
  ok (record { header = header; storage = encrypted_storage ciphertext })

-- The four buffers that a vault with a decoy draws.
pub record DualDraws : Type 0 where
  pub salt1 : Option Bytes
  pub nonce1 : Option Bytes
  pub salt2 : Option Bytes
  pub nonce2 : Option Bytes

unfoldable pub draw_dual_header :
    DualDraws → VaultKdfPolicy → Result VaultParseError DualVaultHeader
unfolding crypto_header
draw_dual_header drawn kdf = do
  salt1 ← ok_or drawn.salt1 serialize
  nonce1 ← ok_or drawn.nonce1 serialize
  salt2 ← ok_or drawn.salt2 serialize
  nonce2 ← ok_or drawn.nonce2 serialize
  ok (record { primary = crypto_header kdf salt1 nonce1; decoy = crypto_header kdf salt2 nonce2 })

abbrev pub dual_vault_header : (schema_version vault_id : ℕ) → DualVaultHeader → VaultHeader
dual_vault_header schema_version vault_id dh = record {
  schema_version = schema_version;
  vault_id = vault_id;
  crypto = dh.primary;
  duress = some dh;
}

-- The envelope's bytes are the ciphertext of the container.
unfoldable pub store_envelope :
    VaultJson → VaultHeader → DualCiphertextEnvelope → Result VaultParseError VaultFile
store_envelope j header envelope = do
  ciphertext ← ok_or (j.envelopes.to_vec envelope) serialize
  ok (record { header = header; storage = encrypted_storage ciphertext })

unfoldable pub create_duress_vault :
    Primitives
    → VaultJson
    → DualDraws
    → (vault_id : ℕ) → (primary_password decoy_password : Bytes)
    → (primary_payload decoy_payload : List VaultEntry) → (schema_version : ℕ) → VaultKdfPolicy
    → Result VaultParseError VaultFile
unfolding draw_dual_header serialize_header_json encrypt_duress_envelope store_envelope
create_duress_vault c j drawn vault_id primary_password decoy_password primary_payload decoy_payload
      schema_version kdf =
    do
      dh ← draw_dual_header drawn kdf
      let header : VaultHeader = dual_vault_header schema_version vault_id dh
      header_bytes ← serialize_header_json j.headers header
      duress_header ← ok_or header.duress invalid_header
      envelope ←
          encrypt_duress_envelope c j header_bytes duress_header primary_password decoy_password
            primary_payload decoy_payload
      store_envelope j header envelope
