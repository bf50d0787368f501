-- ===== src/Backup/Accepted.antt =====
-- What a backup that the decoder accepts is (backup/codec.rs).
use viper_vault.Base.{
  ◌≡◌, ◌↔◌, sym, ap, ◌∙◌, ◌-◌, true, ◌++◌, some, ok, Bytes, AreBytes, to_le, length, take, leb,
  ==_iff, ◌==◌, ok_or, ok_or-ok, >>=-eq-ok, >>-eq-ok, guard-eq-ok, ok-injective,
}
use mathlib.Core.Path.{subst}
use viper_vault.Policy.{PolicyContext, allow_signed_backup_transfer}
use viper_vault.Crypto.{Primitives}
use viper_vault.Backup.{
  policy_denied, invalid_format, unsupported_version, deserialize, auth_failed, backup_magic,
  backup_version, BackupHeader, BackupJson, Signer, derive_backup_verifying_key, signed_part,
  parse_header, check_signature, read_prefix, read_header_json, read_payload, read_signature,
  decode_signed_backup,
}
use viper_vault.Backup.Layout.{prefix-ok, header_json-ok, payload-ok, signature-ok}
use viper_vault.Backup.Signed.{IsVerified, backup_of, shape, signed-backup_of, decode-backup_of}

parse_header-ok :
    (j : BackupJson) (hb : Bytes) (h : BackupHeader)
    → parse_header j hb ≡ ok h
    → (j.from_slice hb ≡ some h) × (h.version ≡ 1)
unfolding parse_header
parse_header-ok j hb h e =
    let (h', reads, e1) = >>=-eq-ok (ok_or (j.from_slice hb) deserialize) _ e in
    let (version, e2) = guard-eq-ok (h'.version == backup_version) unsupported_version _ e1 in
    let same : h' ≡ h = ok-injective e2 in
    (
      ok_or-ok _ _ h' reads ∙ ap some same,
      ap (λ (x : BackupHeader). x.version) (sym same) ∙ (==_iff h'.version 1).0 version,
    )

check-ok :
    (c : Primitives) (s : Signer) (password hb payload sig input : Bytes) (h : BackupHeader)
    → length sig ≡ 64
    → backup_of hb payload sig ≡ input
    → check_signature c s password h input sig ≡ ok tt
    → (key : Bytes) × (s.parses sig ≡ true)
      × (derive_backup_verifying_key c s password h ≡ ok key)
      × (s.verify key (signed_part hb payload) sig ≡ true)
unfolding check_signature
check-ok c s password hb payload sig input h long is_input e =
    let signed : Bytes = take (length input - 66) input in
    let (parses, e1) = guard-eq-ok (s.parses sig) invalid_format _ e in
    let (_, e2) = guard-eq-ok (leb 66 (length input)) invalid_format _ e1 in
    let (key, derives, e3) = >>=-eq-ok (derive_backup_verifying_key c s password h) _ e2 in
    let (verifies, _) = guard-eq-ok (s.verify key signed sig) auth_failed _ e3 in
    let is_signed : signed_part hb payload ≡ signed =
      sym (signed-backup_of hb payload sig long).0 ∙ ap (λ x. take (length x - 66) x) is_input in
    (key, parses, derives, ap (λ x. s.verify key x sig) is_signed ∙ verifies)

-- The parts of an input, joined again.
joined :
    (input r1 hb r2 payload r3 sig : Bytes)
    → backup_magic ++ (to_le 2 1 ++ r1) ≡ input
    → to_le 4 (length hb) ++ (hb ++ r2) ≡ r1
    → to_le 8 (length payload) ++ (payload ++ r3) ≡ r2
    → to_le 2 64 ++ sig ≡ r3
    → backup_of hb payload sig ≡ input
joined input r1 hb r2 payload r3 sig h1 h2 h3 h4 =
    shape hb payload sig
    ∙ ap
        (λ x.
          backup_magic
          ++ (to_le 2 1
              ++ (to_le 4 (length hb) ++ (hb ++ (to_le 8 (length payload) ++ (payload ++ x))))))
        h4
    ∙ ap (λ x. backup_magic ++ (to_le 2 1 ++ (to_le 4 (length hb) ++ (hb ++ x)))) h3
    ∙ ap (λ x. backup_magic ++ (to_le 2 1 ++ x)) h2
    ∙ h1

-- What each part of the decoder read, and what it left for the next.
record Stages (c : Primitives) (s : Signer) (j : BackupJson) (password input payload : Bytes)
    : Type 0 where
  r1 : Bytes
  hb : Bytes
  r2 : Bytes
  header : BackupHeader
  r3 : Bytes
  sig : Bytes
  starts : read_prefix input ≡ ok r1
  has_header : read_header_json r1 ≡ ok (hb, r2)
  parses : parse_header j hb ≡ ok header
  has_payload : read_payload r2 ≡ ok (payload, r3)
  ends : read_signature r3 ≡ ok sig
  checks : check_signature c s password header input sig ≡ ok tt

decode-Stages :
    (c : Primitives) (s : Signer) (j : BackupJson) (policy : PolicyContext)
    (password input payload : Bytes)
    → decode_signed_backup c s j policy password input ≡ ok payload
    → (allow_signed_backup_transfer policy ≡ true) × Stages c s j password input payload
unfolding decode_signed_backup
decode-Stages c s j policy password input payload h =
    let (allowed, h0) = guard-eq-ok (allow_signed_backup_transfer policy) policy_denied _ h in
    let (r1, e1, h1) = >>=-eq-ok (read_prefix input) _ h0 in
    let ((hb, r2), e2, h2) = >>=-eq-ok (read_header_json r1) _ h1 in
    let (header, e3, h3) = >>=-eq-ok (parse_header j hb) _ h2 in
    let ((payload', r3), e4, h4) = >>=-eq-ok (read_payload r2) _ h3 in
    let (sig, e5, h5) = >>=-eq-ok (read_signature r3) _ h4 in
    let (e6, h6) = >>-eq-ok (check_signature c s password header input sig) _ h5 in
    (
      allowed,
      subst (Stages c s j password input) (ok-injective h6) (record {
        r1 = r1;
        hb = hb;
        r2 = r2;
        header = header;
        r3 = r3;
        sig = sig;
        starts = e1;
        has_header = e2;
        parses = e3;
        has_payload = e4;
        ends = e5;
        checks = e6;
      }),
    )

Stages-IsVerified :
    (c : Primitives) (s : Signer) (j : BackupJson) (password input payload : Bytes)
    → AreBytes input
    → Stages c s j password input payload
    → (hb : Bytes) × (sig : Bytes) × (backup_of hb payload sig ≡ input)
      × IsVerified c s j password hb payload sig
Stages-IsVerified c s j password input payload b t =
    let (j1, b1) = prefix-ok input t.r1 b t.starts in
    let (j2, b2, positive, narrow) = header_json-ok t.r1 t.hb t.r2 b1 t.has_header in
    let (reads, version) = parse_header-ok j t.hb t.header t.parses in
    let (j3, b3, fits) = payload-ok t.r2 payload t.r3 b2 t.has_payload in
    let (j4, long) = signature-ok t.r3 t.sig b3 t.ends in
    let is_input = joined input t.r1 t.hb t.r2 payload t.r3 t.sig j1 j2 j3 j4 in
    let (key, parses, derives, verifies) =
      check-ok c s password t.hb payload t.sig input t.header long is_input t.checks in
    (
      t.hb,
      t.sig,
      is_input,
      record {
        header = t.header;
        reads = reads;
        version = version;
        header_fits = (positive, narrow);
        payload_fits = fits;
        sig_64 = long;
        parses = parses;
        key = key;
        derives = derives;
        verifies = verifies;
      },
    )

-- The decoder takes an input of bytes, with a payload, exactly when the session may transfer backups
-- and the input is the backup of some header, that payload and a signature which the key derived from
-- the password and that header verifies over all bytes before it: nothing is accepted unsigned, and no
-- byte is skipped or left over.
pub decode_signed_iff :
    (c : Primitives) (s : Signer) (j : BackupJson) (policy : PolicyContext)
    (password input payload : Bytes)
    → AreBytes input
    → (decode_signed_backup c s j policy password input ≡ ok payload) ↔ (
        (allow_signed_backup_transfer policy ≡ true)
        × ((hb : Bytes) × (sig : Bytes) × (backup_of hb payload sig ≡ input)
            × IsVerified c s j password hb payload sig))
decode_signed_iff c s j policy password input payload b = (
  (λ h.
      let (allowed, stages) = decode-Stages c s j policy password input payload h in
      (allowed, Stages-IsVerified c s j password input payload b stages)),
  (λ x.
      let (allowed, (hb, sig, is_input, verified)) = x in
      subst (λ y. decode_signed_backup c s j policy password y ≡ ok payload) is_input
        (decode-backup_of c s j policy password hb payload sig allowed verified)),
)
