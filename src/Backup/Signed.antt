-- ===== src/Backup/Signed.antt =====
-- What a signed backup decodes to (backup/codec.rs).
use viper_vault.Base.{
  ◌≡◌, refl, ap, ◌∙◌, ◌<◌, ◌≤◌, ◌^◌, ◌-◌, true, ◌++◌, Option, some, ok, Bytes, to_le, length, take,
  leb, ltb, leb→le, ltb→lt, ==_iff, ok_or, ok_or-ok, arith, >>=-eq-ok, guard-eq-ok, ok-injective,
  length-append, length-to_le, take-length_append,
}
use mathlib.Core.Path.{subst}
use mathlib.Core.List.{append_assoc}
use viper_vault.Policy.{PolicyContext, allow_signed_backup_transfer}
use viper_vault.Crypto.{Primitives}
use viper_vault.Backup.{
  policy_denied, invalid_format, payload_too_large, serialize, backup_magic, max_backup_payload_len,
  BackupKdfPolicy, BackupHeader, BackupJson, Signer, derive_backup_signing_key,
  derive_backup_verifying_key, signed_part, encode_signed_backup, parse_header, check_signature,
  read_prefix, read_header_json, read_payload, read_signature, decode_signed_backup,
}
use viper_vault.Backup.Layout.{prefix-append, header_json-append, payload-append, signature-append}

-- The documented contract of Ed25519: a signature has 64 bytes that parse, and verifies under its key.
pub record IsSigner (s : Signer) : Type 0 where
  pub has_64 : (seed message : Bytes) → length (s.sign seed message) ≡ 64
  pub parses : (seed message : Bytes) → s.parses (s.sign seed message) ≡ true
  pub verifies :
      (seed message : Bytes) → s.verify (s.verifying_key seed) message (s.sign seed message) ≡ true

-- A backup with these parts: the header's JSON, the payload and the signature.
abbrev pub backup_of : (header_json payload sig : Bytes) → Bytes
backup_of hb payload sig = signed_part hb payload ++ (to_le 2 64 ++ sig)

-- The decoder's own conditions on the parts.
pub record IsVerified (c : Primitives) (s : Signer) (j : BackupJson)
    (password hb payload sig : Bytes) : Type 0 where
  pub header : BackupHeader
  pub reads : j.from_slice hb ≡ some header
  pub version : header.version ≡ 1
  pub header_fits : (0 < length hb) × (length hb < 2 ^ 32)
  pub payload_fits : length payload ≤ max_backup_payload_len
  pub sig_64 : length sig ≡ 64
  pub parses : s.parses sig ≡ true
  pub key : Bytes
  pub derives : derive_backup_verifying_key c s password header ≡ ok key
  pub verifies : s.verify key (signed_part hb payload) sig ≡ true

-- What stands before the signature's fields.
pub signed-backup_of :
    (hb payload sig : Bytes)
    → length sig ≡ 64
    → (take (length (backup_of hb payload sig) - 66) (backup_of hb payload sig)
        ≡ signed_part hb payload)
      × (leb 66 (length (backup_of hb payload sig)) ≡ true)
signed-backup_of hb payload sig long =
    let signed : Bytes = signed_part hb payload in
    let total = length-append signed (to_le 2 64 ++ sig) in
    let tail = length-append (to_le 2 64) sig in
    let two = length-to_le 2 64 in
    let first : length (backup_of hb payload sig) - 66 ≡ length signed = omega arith in
    (rw first (take-length_append signed (to_le 2 64 ++ sig)), ground arith)

-- The parts of a backup, each with what follows it.
pub shape :
    (hb payload sig : Bytes)
    → backup_of hb payload sig
      ≡ backup_magic
        ++ (to_le 2 1
            ++ (to_le 4 (length hb)
                ++ (hb ++ (to_le 8 (length payload) ++ (payload ++ (to_le 2 64 ++ sig))))))
unfolding signed_part
shape hb payload sig = simp append_assoc refl

decode-stages :
    (c : Primitives) (s : Signer) (j : BackupJson) (policy : PolicyContext)
    (password input r1 hb r2 payload r3 sig : Bytes) (h : BackupHeader)
    → allow_signed_backup_transfer policy ≡ true
    → read_prefix input ≡ ok r1
    → read_header_json r1 ≡ ok (hb, r2)
    → parse_header j hb ≡ ok h
    → read_payload r2 ≡ ok (payload, r3)
    → read_signature r3 ≡ ok sig
    → check_signature c s password h input sig ≡ ok tt
    → decode_signed_backup c s j policy password input ≡ ok payload
unfolding decode_signed_backup
decode-stages c s j policy password input r1 hb r2 payload r3 sig h e0 e1 e2 e3 e4 e5 e6 =
    rw (e0, e1, e2, e3, e4, e5, e6) refl

check-verified :
    (c : Primitives) (s : Signer) (j : BackupJson) (password hb payload sig : Bytes)
    (v : IsVerified c s j password hb payload sig)
    → check_signature c s password v.header (backup_of hb payload sig) sig ≡ ok tt
unfolding check_signature
check-verified c s j password hb payload sig v =
    let (signed, long) = signed-backup_of hb payload sig v.sig_64 in
    rw (v.parses, long, v.derives, signed, v.verifies) refl

-- A backup with verified parts decodes to its payload.
pub decode-backup_of :
    (c : Primitives) (s : Signer) (j : BackupJson) (policy : PolicyContext)
    (password hb payload sig : Bytes)
    → allow_signed_backup_transfer policy ≡ true
    → IsVerified c s j password hb payload sig
    → decode_signed_backup c s j policy password (backup_of hb payload sig) ≡ ok payload
unfolding parse_header
decode-backup_of c s j policy password hb payload sig allowed v =
    let r3 : Bytes = to_le 2 64 ++ sig in
    let r2 : Bytes = to_le 8 (length payload) ++ (payload ++ r3) in
    let r1 : Bytes = to_le 4 (length hb) ++ (hb ++ r2) in
    let is_header : parse_header j hb ≡ ok v.header =
      rw v.reads (rw ((==_iff v.header.version 1).1 v.version) refl) in
    decode-stages c s j policy password (backup_of hb payload sig) r1 hb r2 payload r3 sig v.header
      allowed (ap read_prefix (shape hb payload sig) ∙ prefix-append r1)
      (header_json-append hb r2 v.header_fits.0 v.header_fits.1) is_header
      (payload-append payload r3 v.payload_fits) (signature-append sig v.sig_64)
      (check-verified c s j password hb payload sig v)

-- What an encoding that succeeds went through.
record IsEncoded (c : Primitives) (s : Signer) (j : BackupJson) (password payload : Bytes)
    (kdf : BackupKdfPolicy) (out : Bytes) : Type 0 where
  salt : Bytes
  hb : Bytes
  seed : Bytes
  fits : length payload ≤ max_backup_payload_len
  writes : j.to_vec (record { version = 1; kdf = kdf; salt = salt }) ≡ some hb
  narrow : length hb < 2 ^ 32
  derives :
      derive_backup_signing_key c s password (record { version = 1; kdf = kdf; salt = salt })
      ≡ ok seed
  is_out : backup_of hb payload (s.sign seed (signed_part hb payload)) ≡ out

encode-IsEncoded :
    (c : Primitives) (s : Signer) (j : BackupJson) (policy : PolicyContext) (drawn : Option Bytes)
    (password payload : Bytes) (kdf : BackupKdfPolicy) (out : Bytes)
    → encode_signed_backup c s j policy drawn password payload kdf ≡ ok out
    → IsEncoded c s j password payload kdf out
unfolding encode_signed_backup
encode-IsEncoded c s j policy drawn password payload kdf out h =
    let (allowed, h1) = guard-eq-ok (allow_signed_backup_transfer policy) policy_denied _ h in
    let (fits, h2) =
      guard-eq-ok (leb (length payload) max_backup_payload_len) payload_too_large _ h1 in
    let (salt, drew, h3) = >>=-eq-ok (ok_or drawn serialize) _ h2 in
    let header : BackupHeader = record { version = 1; kdf = kdf; salt = salt } in
    let (hb, wrote, h4) = >>=-eq-ok (ok_or (j.to_vec header) serialize) _ h3 in
    let (narrow, h5) = guard-eq-ok (ltb (length hb) (2 ^ 32)) invalid_format _ h4 in
    let (seed, derived, h6) = >>=-eq-ok (derive_backup_signing_key c s password header) _ h5 in
    record {
      salt = salt;
      hb = hb;
      seed = seed;
      fits = leb→le (length payload) max_backup_payload_len fits;
      writes = ok_or-ok (j.to_vec header) serialize hb wrote;
      narrow = ltb→lt (length hb) (2 ^ 32) narrow;
      derives = derived;
      is_out = ok-injective h6;
    }

-- `serde_json` reads back the headers that it writes, and writes at least one byte.
pub record HeadersReadBack (j : BackupJson) : Type 0 where
  pub reads : (h : BackupHeader) (bs : Bytes) → j.to_vec h ≡ some bs → j.from_slice bs ≡ some h
  pub not_empty : (h : BackupHeader) (bs : Bytes) → j.to_vec h ≡ some bs → 0 < length bs

-- A backup that was made opens, in every session that may transfer backups, with the password that
-- signed it, to exactly the container that was backed up. Ed25519 must verify what it signed and
-- serde_json read back the header.
pub decode_signed-encode :
    (c : Primitives) (s : Signer) (j : BackupJson) (policy policy' : PolicyContext)
    (drawn : Option Bytes) (password payload : Bytes) (kdf : BackupKdfPolicy) (out : Bytes)
    → IsSigner s
    → HeadersReadBack j
    → allow_signed_backup_transfer policy' ≡ true
    → encode_signed_backup c s j policy drawn password payload kdf ≡ ok out
    → decode_signed_backup c s j policy' password out ≡ ok payload
unfolding derive_backup_verifying_key
decode_signed-encode c s j policy policy' drawn password payload kdf out signer json allowed made =
    let e = encode-IsEncoded c s j policy drawn password payload kdf out made in
    let header : BackupHeader = record { version = 1; kdf = kdf; salt = e.salt } in
    let message : Bytes = signed_part e.hb payload in
    let derived : derive_backup_verifying_key c s password header ≡ ok (s.verifying_key e.seed) =
      rw e.derives refl in
    subst (λ x. decode_signed_backup c s j policy' password x ≡ ok payload) e.is_out
      (decode-backup_of c s j policy' password e.hb payload (s.sign e.seed message) allowed
        (record {
          header = header;
          reads = json.reads header e.hb e.writes;
          version = refl;
          header_fits = (json.not_empty header e.hb e.writes, e.narrow);
          payload_fits = e.fits;
          sig_64 = signer.has_64 e.seed message;
          parses = signer.parses e.seed message;
          key = s.verifying_key e.seed;
          derives = derived;
          verifies = signer.verifies e.seed message;
        }))
