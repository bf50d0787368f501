-- ===== src/Vault/Types.antt =====
-- The container's data model: vault/types.rs, vault/mod.rs and the errors of vault/error.rs.
use viper_vault.Base.{ℕ, Option, Bytes, [], ◌∷◌}

pub data VaultParseError : Type 0 where
  invalid_magic unsupported_version plaintext_not_allowed : VaultParseError
  unsupported_storage_mode header_too_large payload_too_large : VaultParseError
  ciphertext_too_large trailing_bytes invalid_header invalid_payload : VaultParseError
  auth_failed io serialize deserialize : VaultParseError

-- `*b"VLT1"`
abbrev pub magic : Bytes
magic = b'V' ∷ b'L' ∷ b'T' ∷ b'1' ∷ []

abbrev pub max_header_len : ℕ
max_header_len = 4096

pub data StorageMode : Type 0 where
  encrypted plaintext_json : StorageMode

-- `mode as u8`
abbrev pub mode_byte : StorageMode → ℕ
mode_byte encrypted = 1
mode_byte plaintext_json = 2

pub data VaultStorage : Type 0 where
  encrypted_storage plaintext_storage : Bytes → VaultStorage

pub data KdfParams : Type 0 where
  argon2id : (mem_kib time_cost lanes : ℕ) → KdfParams

pub data AeadSuite : Type 0 where
  xchacha20_poly1305 : AeadSuite

pub record CryptoHeader : Type 0 where
  pub kdf : KdfParams
  pub aead : AeadSuite
  pub salt : Bytes
  pub nonce : Bytes

pub record DualVaultHeader : Type 0 where
  pub primary : CryptoHeader
  pub decoy : CryptoHeader

pub record VaultHeader : Type 0 where
  pub schema_version : ℕ
  pub vault_id : ℕ
  pub crypto : CryptoHeader
  pub duress : Option DualVaultHeader

pub record ParsedVaultFile : Type 0 where
  pub format_version : ℕ
  pub header : VaultHeader
  pub header_bytes : Bytes
  pub mode : StorageMode
  pub payload : Bytes

-- `VaultFile` of vault/types.rs, the header and the storage that a file is made of.
pub record VaultFile : Type 0 where
  pub header : VaultHeader
  pub storage : VaultStorage

pub record DualCiphertextEnvelope : Type 0 where
  pub primary_ct : Bytes
  pub decoy_ct : Bytes
