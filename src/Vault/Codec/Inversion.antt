-- ===== src/Vault/Codec/Inversion.antt =====
-- What a successful decode of a vault container says about its bytes (vault/codec.rs).
use mathlib.Core.Path.{subst}
use viper_vault.Base.{
  ℕ, ◌≡◌, refl, sym, ap, ◌∙◌, ◌↔◌, Bool, true, not, ◌&&◌, [], ◌∷◌, ◌++◌, Option, some, ok,
  >>=-eq-ok, guard-eq-ok, Bytes, AreBytes, bytes_eq, bytes_eq_sound, to_le, leb, leb→le, ◌==◌,
  length, ◌%◌, ◌^◌, ◌<◌, ◌≤◌, arith, ok-injective, length-zero,
}
use mathlib.Core.List.{append-nil}
use viper_vault.Session.{RuntimeInspectionState}
use viper_vault.Policy.{allow_plaintext_export_under_runtime_policy}
use viper_vault.Vault.Types.{
  VaultParseError, magic, max_header_len, StorageMode, header_too_large, payload_too_large,
  invalid_magic, unsupported_version, plaintext_not_allowed, trailing_bytes, mode_byte, VaultHeader,
  ParsedVaultFile,
}
use viper_vault.Vault.Codec.{
  HeaderJson, is_some, is_plaintext, container, decode_vault_file, matches_expected, parse_mode,
  deserialize_header_json, read_exact, read_le, read_u8, read_preamble, read_mode, read_block,
}
use viper_vault.Vault.Codec.RoundTrip.{IsAcceptable, bytes_of, decode-container}
use viper_vault.Vault.Codec.Layout.{read_exact-ok, read_exact-AreBytes, read_le-ok}

preamble-ok :
    (expected : Option ℕ) (input : Bytes) {v : ℕ} {rest : Bytes}
    → AreBytes input
    → read_preamble expected input ≡ ok (v, rest)
    → (magic ++ (to_le 2 v ++ rest) ≡ input)
      × AreBytes rest
      × (0 < v)
      × (v < 2 ^ 16)
      × (matches_expected expected v ≡ true)
unfolding read_preamble
preamble-ok expected input {v} {rest} b h =
    let ((m, r1), got, h1) = >>=-eq-ok (read_exact 4 input) _ h in
    let (is_magic, h2) = guard-eq-ok (bytes_eq m magic) invalid_magic _ h1 in
    let ((v', r2), got', h3) = >>=-eq-ok (read_le 2 r1) _ h2 in
    let (positive, h4) = guard-eq-ok (not (v' == 0)) unsupported_version _ h3 in
    let (expects, h5) = guard-eq-ok (matches_expected expected v') unsupported_version _ h4 in
    let same : m ≡ magic = bytes_eq_sound m magic is_magic in
    let (_, joined) = read_exact-ok 4 input got in
    let (joined', b2, narrow) = read_le-ok 2 r1 (read_exact-AreBytes 4 input got b).1 got' in
    let v_same : v' ≡ v = cc in
    let r_same : r2 ≡ rest = cc in
    let back : magic ++ (to_le 2 v' ++ r2) ≡ input =
      ap (λ x. magic ++ x) joined' ∙ ap (λ x. x ++ r1) (sym same) ∙ joined in
    (
      subst (λ x. magic ++ (to_le 2 v ++ x) ≡ input) r_same
          (subst (λ x. magic ++ (to_le 2 x ++ r2) ≡ input) v_same back),
      subst AreBytes r_same b2,
      ground arith,
      omega arith,
      subst (λ x. matches_expected expected x ≡ true) v_same expects,
    )

mode-ok :
    (allowed : Bool) (input : Bytes) {mode : StorageMode} {rest : Bytes}
    → AreBytes input
    → read_mode allowed input ≡ ok (mode, rest)
    → (mode_byte mode ∷ rest ≡ input) × AreBytes rest × (is_plaintext mode ≡ true → allowed ≡ true)
unfolding read_mode read_u8 parse_mode
mode-ok allowed [] b h = cc
mode-ok allowed (x ∷ xs) {mode} {rest} (bx, bs) h = ground arith

block-ok :
    (w limit : ℕ) (e : VaultParseError) (input : Bytes) {block rest : Bytes}
    → AreBytes input
    → read_block w limit e input ≡ ok (block, rest)
    → (to_le w (length block) ++ (block ++ rest) ≡ input)
      × AreBytes rest
      × (length block ≤ limit)
      × (length block < 256 ^ w)
unfolding read_block
block-ok w limit e input {block} {rest} b h =
    let ((n, r), got, h1) = >>=-eq-ok (read_le w input) _ h in
    let (fits, h2) = guard-eq-ok (leb n limit) e _ h1 in
    let (joined, br, narrow) = read_le-ok w input b got in
    let (long, joined') = read_exact-ok n r h2 in
    (
      rw (joined', long) joined,
      (read_exact-AreBytes n r h2 br).1,
      omega (arith, leb→le n limit fits),
      omega arith,
    )

-- What each part of the decoder read, and what it left for the next.
record Stages (j : HeaderJson) (allowed : Bool) (expected : Option ℕ) (max_len : ℕ) (input : Bytes)
    (p : ParsedVaultFile) : Type 0 where
  r1 : Bytes
  r2 : Bytes
  r3 : Bytes
  r4 : Bytes
  preamble : read_preamble expected input ≡ ok (p.format_version, r1)
  mode : read_mode allowed r1 ≡ ok (p.mode, r2)
  header : read_block 4 max_header_len header_too_large r2 ≡ ok (p.header_bytes, r3)
  reads : deserialize_header_json j p.header_bytes ≡ ok p.header
  not_dual : not (is_some p.header.duress && is_plaintext p.mode) ≡ true
  payload : read_block 8 max_len payload_too_large r3 ≡ ok (p.payload, r4)
  nothing_left : leb (length r4) 0 ≡ true

decode-Stages :
    (j : HeaderJson) (probed : RuntimeInspectionState) (expected : Option ℕ) (max_len : ℕ)
    (allow : Bool) (input : Bytes) {p : ParsedVaultFile}
    → decode_vault_file j probed input expected max_len allow ≡ ok p
    → Stages j
        (allow && allow_plaintext_export_under_runtime_policy probed)
        expected
        max_len
        input
        p
unfolding decode_vault_file
decode-Stages j probed expected max_len allow input {p} h =
    let allowed : Bool = allow && allow_plaintext_export_under_runtime_policy probed in
    let ((v, r1), h1, k1) = >>=-eq-ok (read_preamble expected input) _ h in
    let ((mode, r2), h2, k2) = >>=-eq-ok (read_mode allowed r1) _ k1 in
    let ((hb, r3), h3, k3) = >>=-eq-ok (read_block 4 max_header_len header_too_large r2) _ k2 in
    let (header, h4, k4) = >>=-eq-ok (deserialize_header_json j hb) _ k3 in
    let (h5, k5) =
      guard-eq-ok (not (is_some header.duress && is_plaintext mode)) plaintext_not_allowed _ k4 in
    let ((payload, r4), h6, k6) = >>=-eq-ok (read_block 8 max_len payload_too_large r3) _ k5 in
    let (h7, k7) = guard-eq-ok (leb (length r4) 0) trailing_bytes _ k6 in
    subst (Stages j allowed expected max_len input) (ok-injective k7) (record {
      r1 = r1;
      r2 = r2;
      r3 = r3;
      r4 = r4;
      preamble = h1;
      mode = h2;
      header = h3;
      reads = h4;
      not_dual = h5;
      payload = h6;
      nothing_left = h7;
    })

json-ok :
    (j : HeaderJson) (bs : Bytes) {h : VaultHeader}
    → deserialize_header_json j bs ≡ ok h
    → j.from_slice bs ≡ some h
unfolding deserialize_header_json
json-ok j bs h = ground arith

joined-container :
    (p : ParsedVaultFile) (input r1 r2 r3 : Bytes)
    → length p.header_bytes < 2 ^ 32
    → length p.payload < 2 ^ 64
    → magic ++ (to_le 2 p.format_version ++ r1) ≡ input
    → mode_byte p.mode ∷ r2 ≡ r1
    → to_le 4 (length p.header_bytes) ++ (p.header_bytes ++ r3) ≡ r2
    → to_le 8 (length p.payload) ++ (p.payload ++ []) ≡ r3
    → bytes_of p ≡ input
unfolding container
joined-container p input r1 r2 r3 n n' e1 e2 e3 e4 =
    let short : length p.header_bytes % 2 ^ 32 ≡ length p.header_bytes = omega arith in
    let short' : length p.payload % 2 ^ 64 ≡ length p.payload = omega arith in
    rw (sym e1, sym e2, sym e3, sym e4, short, short', append-nil p.payload) refl

Stages-ok :
    (j : HeaderJson) (probed : RuntimeInspectionState) (expected : Option ℕ) (max_len : ℕ)
    (allow : Bool) (input : Bytes) (p : ParsedVaultFile)
    → AreBytes input
    → Stages j
        (allow && allow_plaintext_export_under_runtime_policy probed)
        expected
        max_len
        input
        p
    → IsAcceptable j probed expected max_len allow p × (bytes_of p ≡ input)
Stages-ok j probed expected max_len allow input p b s =
    let (j1, b1, positive, narrow, expects) = preamble-ok expected input b s.preamble in
    let (j2, b2, permits) = mode-ok _ s.r1 b1 s.mode in
    let (j3, b3, fits, _) = block-ok 4 max_header_len header_too_large s.r2 b2 s.header in
    let (j6, b4, fits', narrow') = block-ok 8 max_len payload_too_large s.r3 b3 s.payload in
    let empty : s.r4 ≡ [] =
      length-zero s.r4 (omega (arith, leb→le (length s.r4) 0 s.nothing_left)) in
    let left = s.not_dual in
    (
      record {
        version = (positive, narrow);
        expects = expects;
        allowed = permits;
        header_fits = fits;
        header_reads = json-ok j p.header_bytes s.reads;
        not_dual = ground arith;
        payload_fits = (fits', omega arith);
      },
      joined-container p input s.r1 s.r2 s.r3 (omega arith) (omega arith) j1 j2 j3
          (subst (λ r. to_le 8 (length p.payload) ++ (p.payload ++ r) ≡ s.r3) empty j6),
    )

-- The decoder accepts an input exactly when the input is the container of some parts that satisfy its
-- conditions, and then it answers these parts: nothing is skipped, nothing is left over, and the
-- header bytes that it returns are the ones that stand in the file.
pub decode_iff :
    (j : HeaderJson) (probed : RuntimeInspectionState) (expected : Option ℕ) (max_len : ℕ)
    (allow : Bool) (input : Bytes) (p : ParsedVaultFile)
    → AreBytes input
    → decode_vault_file j probed input expected max_len allow ≡ ok p
      ↔ IsAcceptable j probed expected max_len allow p × (bytes_of p ≡ input)
decode_iff j probed expected max_len allow input p b = (
  (λ h.
      Stages-ok j probed expected max_len allow input p b
        (decode-Stages j probed expected max_len allow input h)),
  (λ (a, same).
      ap (λ x. decode_vault_file j probed x expected max_len allow) (sym same)
      ∙ decode-container j probed expected max_len allow p a),
)
