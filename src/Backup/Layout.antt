-- ===== src/Backup/Layout.antt =====
-- What the parts of the backup decoder read, and what they read back (backup/codec.rs).
use viper_vault.Base.{
  ℕ, ◌≡◌, refl, sym, ap, ◌∙◌, ◌<◌, ◌≤◌, ◌^◌, not, [], ◌++◌, ok, Bytes, AreBytes, bytes_eq,
  bytes_eq_sound, bytes_eq_refl, to_le, length, leb, leb→le, ==_iff, ◌==◌, arith, >>=-eq-ok,
  guard-eq-ok, map_err-ok, ok-injective, length-zero,
}
use mathlib.Core.Path.{subst}
use mathlib.Core.List.{append-nil}
use viper_vault.Vault.Codec.{read_exact, read_le}
use viper_vault.Vault.Codec.Layout.{
  read_exact-append, read_exact-ok, read_exact-AreBytes, read_le-append, read_le-ok,
}
use viper_vault.Backup.{
  invalid_format, unsupported_version, payload_too_large, backup_magic, backup_version,
  max_backup_payload_len, read_slice, read_int, read_prefix, read_header_json, read_payload,
  read_signature,
}

slice-append : (xs ys : Bytes) → read_slice (length xs) (xs ++ ys) ≡ ok (xs, ys)
unfolding read_slice
slice-append xs ys = rw (read_exact-append xs ys) refl

int-append : (w n : ℕ) (ys : Bytes) → n < 256 ^ w → read_int w (to_le w n ++ ys) ≡ ok (n, ys)
unfolding read_int
int-append w n ys h = rw (read_le-append w n ys h) refl

-- The bytes that a part read, and those that it left.
slice-ok :
    (n : ℕ) (input xs rest : Bytes)
    → AreBytes input
    → read_slice n input ≡ ok (xs, rest)
    → (length xs ≡ n) × (xs ++ rest ≡ input) × AreBytes rest
unfolding read_slice
slice-ok n input xs rest b h =
    let got = map_err-ok _ (read_exact n input) (xs, rest) h in
    let (long, joined) = read_exact-ok n input got in
    (long, joined, (read_exact-AreBytes n input got b).1)

int-ok :
    (w : ℕ) (input : Bytes) (n : ℕ) (rest : Bytes)
    → AreBytes input
    → read_int w input ≡ ok (n, rest)
    → (to_le w n ++ rest ≡ input) × AreBytes rest × (n < 256 ^ w)
unfolding read_int
int-ok w input n rest b h = read_le-ok w input b (map_err-ok _ (read_le w input) (n, rest) h)

pub prefix-append : (rest : Bytes) → read_prefix (backup_magic ++ (to_le 2 1 ++ rest)) ≡ ok rest
unfolding read_prefix
prefix-append rest =
    let m = slice-append backup_magic (to_le 2 1 ++ rest) in
    let e = bytes_eq_refl backup_magic in let v = int-append 2 1 rest (omega arith) in ground arith

pub header_json-append :
    (hb rest : Bytes)
    → 0 < length hb
    → length hb < 2 ^ 32
    → read_header_json (to_le 4 (length hb) ++ (hb ++ rest)) ≡ ok (hb, rest)
unfolding read_header_json
header_json-append hb rest positive fits =
    let l = int-append 4 (length hb) (hb ++ rest) (omega arith) in
    let s = slice-append hb rest in ground arith

pub payload-append :
    (payload rest : Bytes)
    → length payload ≤ max_backup_payload_len
    → read_payload (to_le 8 (length payload) ++ (payload ++ rest)) ≡ ok (payload, rest)
unfolding read_payload
payload-append payload rest fits =
    let l = int-append 8 (length payload) (payload ++ rest) (omega arith) in
    let s = slice-append payload rest in ground arith

pub signature-append : (sig : Bytes) → length sig ≡ 64 → read_signature (to_le 2 64 ++ sig) ≡ ok sig
unfolding read_signature
signature-append sig long =
    let l = int-append 2 64 sig (omega arith) in
    let s : read_slice 64 sig ≡ ok (sig, []) =
      subst (λ n. read_slice n sig ≡ ok (sig, [])) long
        (subst (λ x. read_slice (length sig) x ≡ ok (sig, [])) (append-nil sig)
          (slice-append sig [])) in
    ground arith

pub prefix-ok :
    (input rest : Bytes)
    → AreBytes input
    → read_prefix input ≡ ok rest
    → (backup_magic ++ (to_le 2 1 ++ rest) ≡ input) × AreBytes rest
unfolding read_prefix
prefix-ok input rest b h =
    let ((m, r1), got, h1) = >>=-eq-ok (read_slice 8 input) _ h in
    let (is_magic, h2) = guard-eq-ok (bytes_eq m backup_magic) invalid_format _ h1 in
    let ((v, r2), got', h3) = >>=-eq-ok (read_int 2 r1) _ h2 in
    let (is_version, h4) = guard-eq-ok (v == backup_version) unsupported_version _ h3 in
    let is_1 : v ≡ 1 = (==_iff v 1).0 is_version in
    let (_, joined, b1) = slice-ok 8 input m r1 b got in
    let (joined', b2, _) = int-ok 2 r1 v r2 b1 got' in
    let same : r2 ≡ rest = ok-injective h4 in
    (
      ap (λ x. backup_magic ++ (to_le 2 1 ++ x)) (sym same)
          ∙ ap (λ x. backup_magic ++ (to_le 2 x ++ r2)) (sym is_1)
          ∙ ap (λ x. backup_magic ++ x) joined'
          ∙ ap (λ x. x ++ r1) (sym (bytes_eq_sound m backup_magic is_magic))
          ∙ joined,
      subst AreBytes same b2,
    )

pub header_json-ok :
    (input hb rest : Bytes)
    → AreBytes input
    → read_header_json input ≡ ok (hb, rest)
    → (to_le 4 (length hb) ++ (hb ++ rest) ≡ input)
      × AreBytes rest
      × (0 < length hb)
      × (length hb < 2 ^ 32)
unfolding read_header_json
header_json-ok input hb rest b h =
    let ((n, r), got, h1) = >>=-eq-ok (read_int 4 input) _ h in
    let (positive, h2) = guard-eq-ok (not (n == 0)) invalid_format _ h1 in
    let (joined, br, narrow) = int-ok 4 input n r b got in
    let (long, joined', bs) = slice-ok n r hb rest br h2 in
    (
      rw (joined', long) joined,
      bs,
      (let some_byte : 0 < n = ground arith in omega arith),
      omega arith,
    )

pub payload-ok :
    (input payload rest : Bytes)
    → AreBytes input
    → read_payload input ≡ ok (payload, rest)
    → (to_le 8 (length payload) ++ (payload ++ rest) ≡ input)
      × AreBytes rest
      × (length payload ≤ max_backup_payload_len)
unfolding read_payload
payload-ok input payload rest b h =
    let ((n, r), got, h1) = >>=-eq-ok (read_int 8 input) _ h in
    let (fits, h2) = guard-eq-ok (leb n max_backup_payload_len) payload_too_large _ h1 in
    let (joined, br, narrow) = int-ok 8 input n r b got in
    let (long, joined', bs) = slice-ok n r payload rest br h2 in
    (rw (joined', long) joined, bs, omega (arith, leb→le n max_backup_payload_len fits))

pub signature-ok :
    (input sig : Bytes)
    → AreBytes input
    → read_signature input ≡ ok sig
    → (to_le 2 64 ++ sig ≡ input) × (length sig ≡ 64)
unfolding read_signature
signature-ok input sig b h =
    let ((n, r1), got, h1) = >>=-eq-ok (read_int 2 input) _ h in
    let (is_64, h2) = guard-eq-ok (n == 64) invalid_format _ h1 in
    let ((sig', r2), got', h3) = >>=-eq-ok (read_slice 64 r1) _ h2 in
    let (empty, h4) = guard-eq-ok (length r2 == 0) invalid_format _ h3 in
    let is_64' : n ≡ 64 = (==_iff n 64).0 is_64 in
    let is_empty : r2 ≡ [] = length-zero r2 ((==_iff (length r2) 0).0 empty) in
    let (joined, b1, _) = int-ok 2 input n r1 b got in
    let (long, joined', _) = slice-ok 64 r1 sig' r2 b1 got' in
    let same : sig' ≡ sig = ok-injective h4 in
    let rest : sig ≡ r1 =
      sym same ∙ sym (append-nil sig') ∙ ap (λ x. sig' ++ x) (sym is_empty) ∙ joined' in
    (
      ap (λ x. to_le 2 64 ++ x) rest ∙ ap (λ x. to_le 2 x ++ r1) (sym is_64') ∙ joined,
      ap length (sym same) ∙ long,
    )
