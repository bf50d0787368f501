-- ===== src/Vault/Codec/RoundTrip.antt =====
-- The container's round trip and its inversion (vault/codec.rs).
use viper_vault.Base.{
  ℕ, ◌≡◌, refl, ap, ◌∙◌, Bool, true, false, ◌&&◌, [], ◌∷◌, ◌++◌, Option, some, ok, Bytes,
  bytes_eq_refl, to_le, length, ◌%◌, ◌^◌, ◌<◌, ◌≤◌, arith,
}
use mathlib.Core.List.{append-nil}
use viper_vault.Session.{RuntimeInspectionState}
use viper_vault.Policy.{allow_plaintext_export_under_runtime_policy}
use viper_vault.Vault.Types.{
  VaultParseError, header_too_large, payload_too_large, magic, max_header_len, StorageMode,
  encrypted, plaintext_json, mode_byte, VaultStorage, encrypted_storage, plaintext_storage,
  VaultHeader, ParsedVaultFile,
}
use viper_vault.Vault.Codec.{
  HeaderJson, is_some, is_plaintext, storage_mode, storage_bytes, container, encode_vault_storage,
  decode_vault_file, matches_expected, parse_mode, serialize_header_json, deserialize_header_json,
  read_u8, read_preamble, read_mode, read_block,
}
use viper_vault.Vault.Codec.Layout.{read_exact-append, read_le-append}

-- The decoder's own conditions on a file with these parts.
pub record IsAcceptable (j : HeaderJson) (probed : RuntimeInspectionState) (expected : Option ℕ)
    (max_len : ℕ) (allow : Bool) (p : ParsedVaultFile) : Type 0 where
  pub version : (0 < p.format_version) × (p.format_version < 2 ^ 16)
  pub expects : matches_expected expected p.format_version ≡ true
  pub allowed :
      is_plaintext p.mode ≡ true
      → (allow && allow_plaintext_export_under_runtime_policy probed) ≡ true
  pub header_fits : length p.header_bytes ≤ max_header_len
  pub header_reads : j.from_slice p.header_bytes ≡ some p.header
  pub not_dual : (is_some p.header.duress && is_plaintext p.mode) ≡ false
  pub payload_fits : (length p.payload ≤ max_len) × (length p.payload < 2 ^ 64)

-- The bytes of the container that has these parts.
abbrev pub bytes_of : ParsedVaultFile → Bytes
bytes_of p = container p.format_version p.mode p.header_bytes p.payload

parse-mode_byte :
    (allowed : Bool) (mode : StorageMode)
    → (is_plaintext mode ≡ true → allowed ≡ true)
    → parse_mode allowed (mode_byte mode) ≡ ok mode
unfolding parse_mode
parse-mode_byte allowed encrypted h = refl
parse-mode_byte allowed plaintext_json h = rw (h refl) refl

preamble-container :
    (expected : Option ℕ) (v : ℕ) (rest : Bytes)
    → 0 < v
    → v < 2 ^ 16
    → matches_expected expected v ≡ true
    → read_preamble expected (magic ++ (to_le 2 v ++ rest)) ≡ ok (v, rest)
unfolding read_preamble
preamble-container expected v rest positive fits expects =
    let m = read_exact-append magic (to_le 2 v ++ rest) in
    let e = bytes_eq_refl magic in let r = read_le-append 2 v rest (omega arith) in ground arith

mode-container :
    (allowed : Bool) (mode : StorageMode) (rest : Bytes)
    → (is_plaintext mode ≡ true → allowed ≡ true)
    → read_mode allowed (mode_byte mode ∷ rest) ≡ ok (mode, rest)
unfolding read_mode read_u8
mode-container allowed mode rest h = let parsed = parse-mode_byte allowed mode h in ground arith

block-container :
    (w limit : ℕ) (e : VaultParseError) (block rest : Bytes)
    → length block ≤ limit
    → length block < 256 ^ w
    → read_block w limit e (to_le w (length block) ++ (block ++ rest)) ≡ ok (block, rest)
unfolding read_block
block-container w limit e block rest fits narrow =
    let l = read_le-append w (length block) (block ++ rest) narrow in
    let b = read_exact-append block rest in ground arith

decode-stages :
    (j : HeaderJson) (probed : RuntimeInspectionState) (expected : Option ℕ) (max_len : ℕ)
    (allow : Bool) (p : ParsedVaultFile) (input r1 r2 r3 : Bytes)
    → read_preamble expected input ≡ ok (p.format_version, r1)
    → read_mode (allow && allow_plaintext_export_under_runtime_policy probed) r1 ≡ ok (p.mode, r2)
    → read_block 4 max_header_len header_too_large r2 ≡ ok (p.header_bytes, r3)
    → j.from_slice p.header_bytes ≡ some p.header
    → (is_some p.header.duress && is_plaintext p.mode) ≡ false
    → read_block 8 max_len payload_too_large r3 ≡ ok (p.payload, [])
    → decode_vault_file j probed input expected max_len allow ≡ ok p
unfolding decode_vault_file deserialize_header_json
decode-stages j probed expected max_len allow p input r1 r2 r3 h1 h2 h3 h4 h5 h6 =
    rw (h1, h2, h3, h4, h5, h6) refl

-- A container with acceptable parts decodes to exactly these parts.
pub decode-container :
    (j : HeaderJson) (probed : RuntimeInspectionState) (expected : Option ℕ) (max_len : ℕ)
    (allow : Bool) (p : ParsedVaultFile)
    → IsAcceptable j probed expected max_len allow p
    → decode_vault_file j probed (bytes_of p) expected max_len allow ≡ ok p
unfolding container
decode-container j probed expected max_len allow p a =
    let v : ℕ = p.format_version in
    let (positive, narrow) = a.version in
    let (fits, fits') = a.payload_fits in
    let header_fits = a.header_fits in
    let short : length p.header_bytes % 2 ^ 32 ≡ length p.header_bytes = omega arith in
    let short' : length p.payload % 2 ^ 64 ≡ length p.payload = omega arith in
    let r3 : Bytes = to_le 8 (length p.payload) ++ (p.payload ++ []) in
    let r2 : Bytes = to_le 4 (length p.header_bytes) ++ (p.header_bytes ++ r3) in
    let r1 : Bytes = mode_byte p.mode ∷ r2 in
    let preamble = preamble-container expected v r1 positive narrow a.expects in
    let mode = mode-container _ p.mode r2 a.allowed in
    let header =
      block-container 4 max_header_len header_too_large p.header_bytes r3 header_fits
        (omega arith) in
    let payload = block-container 8 max_len payload_too_large p.payload [] fits (omega arith) in
    let none_left = append-nil p.payload in
    let shape : bytes_of p ≡ magic ++ (to_le 2 v ++ r1) = rw (short, short', none_left) refl in
    ap (λ b. decode_vault_file j probed b expected max_len allow) shape
    ∙ decode-stages j probed expected max_len allow p _ r1 r2 r3 preamble mode header a.header_reads
        a.not_dual payload

-- What an encoding that succeeds says about its arguments.
encode-ok :
    (j : HeaderJson) (probed : RuntimeInspectionState) (h : VaultHeader) (st : VaultStorage) (v : ℕ)
    (hb : Bytes) {out : Bytes}
    → j.to_vec h ≡ some hb
    → encode_vault_storage j probed h st v ≡ ok out
    → (out ≡ container v (storage_mode st) hb (storage_bytes st))
      × (0 < v)
      × (length hb % 2 ^ 32 ≤ max_header_len)
      × ((is_some h.duress && is_plaintext (storage_mode st)) ≡ false)
unfolding encode_vault_storage serialize_header_json
encode-ok j probed h (encrypted_storage ct) v hb w e = ground arith
encode-ok j probed h (plaintext_storage json) v hb w e = ground arith

-- What the encoder writes, the decoder reads back: the version, the mode, the header with its bytes,
-- and the payload, when the header's JSON reads back as the header, the lengths fit their fields and
-- the reader's limits, the version is one that the reader expects, and plaintext is allowed where the
-- payload is plaintext.
pub decode-encode :
    (j : HeaderJson) (probed probed' : RuntimeInspectionState) (h : VaultHeader) (st : VaultStorage)
    (v : ℕ) (hb out : Bytes) (expected : Option ℕ) (max_len : ℕ) (allow : Bool)
    → j.to_vec h ≡ some hb
    → j.from_slice hb ≡ some h
    → length hb < 2 ^ 32
    → length (storage_bytes st) ≤ max_len
    → length (storage_bytes st) < 2 ^ 64
    → v < 2 ^ 16
    → matches_expected expected v ≡ true
    → (is_plaintext (storage_mode st) ≡ true
        → (allow && allow_plaintext_export_under_runtime_policy probed') ≡ true)
    → encode_vault_storage j probed h st v ≡ ok out
    → decode_vault_file j probed' out expected max_len allow
      ≡ ok (record {
        format_version = v;
        header = h;
        header_bytes = hb;
        mode = storage_mode st;
        payload = storage_bytes st;
      })
decode-encode j probed probed' h st v hb out expected max_len allow w r short fits narrow small
      expects allowed e =
    let (same, positive, header_fits, not_dual) = encode-ok j probed h st v hb w e in
    ap (λ b. decode_vault_file j probed' b expected max_len allow) same
    ∙ decode-container j probed' expected max_len allow _ (record {
      version = (positive, small);
      expects = expects;
      allowed = allowed;
      header_fits = omega arith;
      header_reads = r;
      not_dual = not_dual;
      payload_fits = (fits, narrow);
    })
