-- ===== src/Vault/Codec.antt =====
-- The container's encoder and decoder: vault/codec.rs. A reader is the bytes that it has left, and
-- its only error is the end of them; `usize` has 64 bits.
use viper_vault.Base.{
  ℕ, ◌≡◌, Bool, true, false, not, ◌&&◌, ◌||◌, List, [], ◌∷◌, ◌++◌, Option, none, some, Result, ok,
  err, Done, ◌>>=◌, ◌>>◌, Bytes, bytes_eq, to_le, from_le, ltb, leb, ◌==◌, if◌then◌else◌, length,
  take, drop, guard, ok_or, ◌%◌, ◌^◌,
}
use viper_vault.Session.{RuntimeInspectionState}
use viper_vault.Policy.{allow_plaintext_export_under_runtime_policy}
use viper_vault.Vault.Types.{
  VaultParseError, invalid_magic, unsupported_version, plaintext_not_allowed,
  unsupported_storage_mode, header_too_large, payload_too_large, trailing_bytes, io, serialize,
  deserialize, magic, max_header_len, StorageMode, encrypted, plaintext_json, mode_byte,
  VaultStorage, encrypted_storage, plaintext_storage, VaultHeader, ParsedVaultFile,
}
pub mod Layout
pub mod RoundTrip
pub mod Inversion

-- `serde_json` on a header.
pub record HeaderJson : Type 0 where
  pub to_vec : VaultHeader → Option Bytes
  pub from_slice : Bytes → Option VaultHeader

abbrev pub is_some {ℓ} : {A : Type ℓ} → Option A → Bool
is_some none = false
is_some (some _) = true

abbrev pub is_plaintext : StorageMode → Bool
is_plaintext encrypted = false
is_plaintext plaintext_json = true

-- The mode and the payload bytes of a storage.
abbrev pub storage_mode : VaultStorage → StorageMode
storage_mode (encrypted_storage ct) = encrypted
storage_mode (plaintext_storage json) = plaintext_json

abbrev pub storage_bytes : VaultStorage → Bytes
storage_bytes (encrypted_storage ct) = ct
storage_bytes (plaintext_storage json) = json

unfoldable pub serialize_header_json : HeaderJson → VaultHeader → Result VaultParseError Bytes
serialize_header_json j h = ok_or (j.to_vec h) serialize

unfoldable pub deserialize_header_json : HeaderJson → Bytes → Result VaultParseError VaultHeader
deserialize_header_json j bs = ok_or (j.from_slice bs) deserialize

-- What the encoder writes; the casts to `u32` and `u64` keep the low bytes of the lengths.
unfoldable pub container : (format_version : ℕ) → StorageMode → (header payload : Bytes) → Bytes
container v mode header payload =
    let payload_block : Bytes = to_le 8 (length payload % 2 ^ 64) ++ payload in
    let header_block : Bytes = to_le 4 (length header % 2 ^ 32) ++ (header ++ payload_block) in
    magic ++ (to_le 2 v ++ (mode_byte mode ∷ header_block))

-- `probed` is what the probe of the runtime policy answers at the call.
unfoldable pub encode_vault_storage :
    HeaderJson
    → (probed : RuntimeInspectionState) → VaultHeader
    → VaultStorage
    → (format_version : ℕ) → Result VaultParseError Bytes
unfolding serialize_header_json container allow_plaintext_export_under_runtime_policy
encode_vault_storage j probed header storage v = do
  let mode : StorageMode = storage_mode storage
  guard (not (v == 0)) unsupported_version
  guard (not (is_some header.duress && is_plaintext mode)) plaintext_not_allowed
  guard (not (is_plaintext mode && not (allow_plaintext_export_under_runtime_policy probed)))
      plaintext_not_allowed
  header_bytes ← serialize_header_json j header
  guard (not (ltb max_header_len (length header_bytes % 2 ^ 32))) header_too_large
  ok (container v mode header_bytes (storage_bytes storage))

-- `read_exact` into a buffer of a given length.
unfoldable pub read_exact : ℕ → Bytes → Result VaultParseError (Bytes × Bytes)
read_exact n input = if leb n (length input) then ok (take n input, drop n input) else err io

-- `read_u16_le`, `read_u32_le` and `read_u64_le` at their widths in bytes.
unfoldable pub read_le : ℕ → Bytes → Result VaultParseError (ℕ × Bytes)
unfolding read_exact from_le
read_le w input = do (buf, rest) ← read_exact w input; ok (from_le buf, rest)

unfoldable pub read_u8 : Bytes → Result VaultParseError (ℕ × Bytes)
read_u8 [] = err io
read_u8 (b ∷ bs) = ok (b, bs)

-- `if let Some(expected) = expected_format_version && format_version != expected`
abbrev pub matches_expected : Option ℕ → ℕ → Bool
matches_expected none v = true
matches_expected (some expected) v = v == expected

unfoldable pub parse_mode : (plaintext_allowed : Bool) → ℕ → Result VaultParseError StorageMode
parse_mode allowed raw =
    if raw == 1
    then ok encrypted
    else if raw == 2
    then (if allowed then ok plaintext_json else err plaintext_not_allowed)
    else err unsupported_storage_mode

-- The parts of `decode_vault_file` in their order: MAGIC and FORMAT_VERSION.
unfoldable pub read_preamble : (expected : Option ℕ) → Bytes → Result VaultParseError (ℕ × Bytes)
unfolding bytes_eq read_exact read_le
read_preamble expected input = do
  (read_magic, r1) ← read_exact 4 input
  guard (bytes_eq read_magic magic) invalid_magic
  (v, r2) ← read_le 2 r1
  guard (not (v == 0)) unsupported_version
  guard (matches_expected expected v) unsupported_version
  ok (v, r2)

-- STORAGE_MODE
unfoldable pub read_mode :
    (plaintext_allowed : Bool) → Bytes → Result VaultParseError (StorageMode × Bytes)
unfolding read_u8 parse_mode
read_mode allowed input = do
  (raw, rest) ← read_u8 input
  mode ← parse_mode allowed raw
  ok (mode, rest)

-- A block of bytes under its length of w bytes: HEADER_LEN and HEADER_JSON, PAYLOAD_LEN and PAYLOAD.
unfoldable pub read_block :
    (w limit : ℕ) → VaultParseError → Bytes → Result VaultParseError (Bytes × Bytes)
unfolding read_exact read_le
read_block w limit too_large input = do
  (len, r) ← read_le w input
  guard (leb len limit) too_large
  read_exact len r

unfoldable pub decode_vault_file :
    HeaderJson
    → (probed : RuntimeInspectionState) → (input : Bytes) → (expected_format_version : Option ℕ)
    → (max_payload_len : ℕ) → (allow_plaintext : Bool) → Result VaultParseError ParsedVaultFile
unfolding read_preamble read_mode read_block deserialize_header_json
    allow_plaintext_export_under_runtime_policy
decode_vault_file j probed input expected max_payload_len allow_plaintext = do
  (v, r1) ← read_preamble expected input
  (mode, r2) ← read_mode (allow_plaintext && allow_plaintext_export_under_runtime_policy probed) r1
  (header_bytes, r3) ← read_block 4 max_header_len header_too_large r2
  header ← deserialize_header_json j header_bytes
  guard (not (is_some header.duress && is_plaintext mode)) plaintext_not_allowed
  (payload, r4) ← read_block 8 max_payload_len payload_too_large r3
  guard (leb (length r4) 0) trailing_bytes
  ok (record {
    format_version = v;
    header = header;
    header_bytes = header_bytes;
    mode = mode;
    payload = payload;
  })
