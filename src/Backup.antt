-- ===== src/Backup.antt =====
-- Signed backups: core/crates/vipervault-core/src/backup. HKDF and Ed25519 are parameters. A cursor
-- is the bytes that it has left; `usize` has 64 bits.
use viper_vault.Base.{
  ℕ, ◌-◌, ◌^◌, ◌*◌, Bool, not, List, [], ◌∷◌, ◌++◌, Option, Result, ok, err, Done, ◌>>=◌, ◌>>◌,
  Bytes, bytes_eq, to_le, length, take, leb, ltb, ◌==◌, guard, ok_or, map_err,
}
use viper_vault.Policy.{PolicyContext, allow_signed_backup_transfer}
use viper_vault.Crypto.{Primitives, derive_master_key_from_password}
use viper_vault.Vault.Codec.{read_exact, read_le}
pub mod Layout
pub mod Signed
pub mod Accepted

pub data BackupError : Type 0 where
  policy_denied invalid_format unsupported_version payload_too_large : BackupError
  serialize deserialize auth_failed : BackupError

-- `*b"VVBAKUP1"`
abbrev pub backup_magic : Bytes
backup_magic = b'V' ∷ b'V' ∷ b'B' ∷ b'A' ∷ b'K' ∷ b'U' ∷ b'P' ∷ b'1' ∷ []

abbrev pub backup_version : ℕ
backup_version = 1

abbrev pub max_backup_payload_len : ℕ
max_backup_payload_len = 64 * 1024 * 1024

pub record BackupKdfPolicy : Type 0 where
  pub mem_kib : ℕ
  pub time_cost : ℕ
  pub lanes : ℕ

pub record BackupHeader : Type 0 where
  pub version : ℕ
  pub kdf : BackupKdfPolicy
  pub salt : Bytes

-- `serde_json` on a backup header.
pub record BackupJson : Type 0 where
  pub to_vec : BackupHeader → Option Bytes
  pub from_slice : Bytes → Option BackupHeader

-- HKDF-SHA256 under the module's label, and Ed25519: a signing key is its seed; `parses` tells
-- whether `Signature::from_slice` takes the bytes.
pub record Signer : Type 0 where
  pub expand : (master_key : Bytes) → Option Bytes
  pub verifying_key : (seed : Bytes) → Bytes
  pub sign : (seed message : Bytes) → Bytes
  pub parses : (signature : Bytes) → Bool
  pub verify : (key message signature : Bytes) → Bool

unfoldable pub hkdf_expand_seed : Signer → (master_key : Bytes) → Result BackupError Bytes
hkdf_expand_seed s master_key = ok_or (s.expand master_key) serialize

unfoldable pub derive_backup_signing_key :
    Primitives → Signer → (password : Bytes) → BackupHeader → Result BackupError Bytes
unfolding derive_master_key_from_password hkdf_expand_seed
derive_backup_signing_key c s password h = do
  master_key ←
      map_err (λ _. auth_failed)
        (derive_master_key_from_password c password h.salt h.kdf.mem_kib h.kdf.time_cost
          h.kdf.lanes)
  hkdf_expand_seed s master_key

unfoldable pub derive_backup_verifying_key :
    Primitives → Signer → (password : Bytes) → BackupHeader → Result BackupError Bytes
unfolding derive_backup_signing_key
derive_backup_verifying_key c s password h = do
  seed ← derive_backup_signing_key c s password h
  ok (s.verifying_key seed)

-- The bytes from the magic to the end of the payload, which are signed.
unfoldable pub signed_part : (header_json payload : Bytes) → Bytes
signed_part header_json payload =
    let payload_block : Bytes = to_le 8 (length payload) ++ payload in
    let header_block : Bytes = to_le 4 (length header_json) ++ (header_json ++ payload_block) in
    backup_magic ++ (to_le 2 backup_version ++ header_block)

unfoldable pub encode_signed_backup :
    Primitives
    → Signer
    → BackupJson
    → PolicyContext
    → (drawn_salt : Option Bytes) → (password vault_container_bytes : Bytes) → BackupKdfPolicy
    → Result BackupError Bytes
unfolding allow_signed_backup_transfer signed_part derive_backup_signing_key
encode_signed_backup c s j policy drawn_salt password vault_container_bytes kdf = do
  guard (allow_signed_backup_transfer policy) policy_denied
  guard (leb (length vault_container_bytes) max_backup_payload_len) payload_too_large
  salt ← ok_or drawn_salt serialize
  let header : BackupHeader = record { version = backup_version; kdf = kdf; salt = salt }
  header_json ← ok_or (j.to_vec header) serialize
  guard (ltb (length header_json) (2 ^ 32)) invalid_format
  seed ← derive_backup_signing_key c s password header
  let signed : Bytes = signed_part header_json vault_container_bytes
  ok (signed ++ (to_le 2 64 ++ s.sign seed signed))

-- `read_exact` and `read_slice`: both check the bounds and advance; an offset that would overflow is
-- out of bounds too.
unfoldable pub read_slice : ℕ → Bytes → Result BackupError (Bytes × Bytes)
unfolding read_exact
read_slice n input = map_err (λ _. invalid_format) (read_exact n input)

-- `read_u16_le`, `read_u32_le` and `read_u64_le` at their widths in bytes.
unfoldable pub read_int : ℕ → Bytes → Result BackupError (ℕ × Bytes)
unfolding read_le
read_int w input = map_err (λ _. invalid_format) (read_le w input)

-- The parts of `decode_signed_backup` in their order: magic and version.
unfoldable pub read_prefix : Bytes → Result BackupError Bytes
unfolding read_slice read_int bytes_eq
read_prefix input = do
  (magic, r1) ← read_slice 8 input
  guard (bytes_eq magic backup_magic) invalid_format
  (version, r2) ← read_int 2 r1
  guard (version == backup_version) unsupported_version
  ok r2

unfoldable pub read_header_json : Bytes → Result BackupError (Bytes × Bytes)
unfolding read_slice read_int
read_header_json input = do
  (header_len, r) ← read_int 4 input
  guard (not (header_len == 0)) invalid_format
  read_slice header_len r

unfoldable pub parse_header : BackupJson → Bytes → Result BackupError BackupHeader
parse_header j header_json = do
  header ← ok_or (j.from_slice header_json) deserialize
  guard (header.version == backup_version) unsupported_version
  ok header

unfoldable pub read_payload : Bytes → Result BackupError (Bytes × Bytes)
unfolding read_slice read_int
read_payload input = do
  (payload_len, r) ← read_int 8 input
  guard (leb payload_len max_backup_payload_len) payload_too_large
  read_slice payload_len r

unfoldable pub read_signature : Bytes → Result BackupError Bytes
unfolding read_slice read_int
read_signature input = do
  (sig_len, r1) ← read_int 2 input
  guard (sig_len == 64) invalid_format
  (sig_bytes, r2) ← read_slice 64 r1
  guard (length r2 == 0) invalid_format
  ok sig_bytes

-- The bytes before the signature's fields are verified.
unfoldable pub check_signature :
    Primitives
    → Signer
    → (password : Bytes) → BackupHeader
    → (backup_bytes sig_bytes : Bytes) → Result BackupError Done
unfolding derive_backup_verifying_key
check_signature c s password header backup_bytes sig_bytes = do
  guard (s.parses sig_bytes) invalid_format
  guard (leb 66 (length backup_bytes)) invalid_format
  key ← derive_backup_verifying_key c s password header
  guard (s.verify key (take (length backup_bytes - 66) backup_bytes) sig_bytes) auth_failed
  ok tt

unfoldable pub decode_signed_backup :
    Primitives
    → Signer
    → BackupJson
    → PolicyContext
    → (password backup_bytes : Bytes) → Result BackupError Bytes
unfolding allow_signed_backup_transfer read_prefix read_header_json parse_header read_payload
    read_signature check_signature
decode_signed_backup c s j policy password backup_bytes = do
  guard (allow_signed_backup_transfer policy) policy_denied
  r1 ← read_prefix backup_bytes
  (header_json, r2) ← read_header_json r1
  header ← parse_header j header_json
  (payload, r3) ← read_payload r2
  sig_bytes ← read_signature r3
  check_signature c s password header backup_bytes sig_bytes
  ok payload
