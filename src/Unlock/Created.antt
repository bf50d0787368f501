-- ===== src/Unlock/Created.antt =====
-- What a new vault opens to (vault/create.rs, core/unlock.rs).
use viper_vault.Base.{
  ℕ, ◌≡◌, refl, ap, ◌∙◌, sym, Bool, Option, none, some, Result, ok, Bytes, List, >>=-eq-ok,
  ok-injective, some-injective, ok_or, ok_or-ok, map_err-ok, arith, map_err,
}
use mathlib.Core.Path.{subst}
use viper_vault.Entries.Types.{VaultEntry}
use viper_vault.Session.{RuntimeInspectionState, primary, decoy}
use viper_vault.Crypto.{Primitives, KdfError, derive_master_key_from_password}
use viper_vault.Vault.Types.{
  serialize, invalid_header, VaultFile, VaultHeader, encrypted_storage, ParsedVaultFile, argon2id,
  CryptoHeader,
}
use viper_vault.Vault.Codec.{serialize_header_json, decode_vault_file}
use viper_vault.Vault.Duress.{VaultJson, encrypt_duress_envelope}
use viper_vault.Vault.Duress.Opens.{IsAead, AreApart, seal-ok}
use viper_vault.Vault.Create.{
  VaultKdfPolicy, crypto_header, as_kdf_params, payload_to_json, draw_header, seal_payload,
  create_encrypted_vault, DualDraws, draw_dual_header, dual_vault_header, create_duress_vault,
}
use viper_vault.Unlock.{unlock_vault_with_outcome}
use viper_vault.Unlock.Dual.{IsDual, IsDual-opens, store_envelope-IsDual}
use viper_vault.Unlock.Reopened.{
  parsed_of, IsWritten, reopened, opens-payload, opens-single, EnvelopesReadBack, ReadsBack,
}

-- What a duress vault that was made is.
create_duress-IsDual :
    (c : Primitives) (j : VaultJson) (drawn : DualDraws) (id : ℕ) (pw1 pw2 : Bytes)
    (payload1 payload2 : List VaultEntry) (schema : ℕ) (kdf : VaultKdfPolicy) (file : VaultFile)
    → create_duress_vault c j drawn id pw1 pw2 payload1 payload2 schema kdf ≡ ok file
    → (json1 : Bytes) × (json2 : Bytes) × (j.payloads.to_vec payload1 ≡ some json1)
      × (j.payloads.to_vec payload2 ≡ some json2)
      × IsDual c j pw1 pw2 json1 json2 file
unfolding create_duress_vault encrypt_duress_envelope serialize_header_json
create_duress-IsDual c j drawn id pw1 pw2 payload1 payload2 schema kdf file h =
    let (dh, drew, h1) = >>=-eq-ok (draw_dual_header drawn kdf) _ h in
    let (hb, wrote, h2) =
      >>=-eq-ok (serialize_header_json j.headers (dual_vault_header schema id dh)) _ h1 in
    let (env, made, h3) =
      >>=-eq-ok (encrypt_duress_envelope c j hb dh pw1 pw2 payload1 payload2) _ h2 in
    let (json1, w1, made1) = >>=-eq-ok (ok_or (j.payloads.to_vec payload1) serialize) _ made in
    let (json2, w2, made2) = >>=-eq-ok (ok_or (j.payloads.to_vec payload2) serialize) _ made1 in
    (
      json1,
      json2,
      ok_or-ok _ _ json1 w1,
      ok_or-ok _ _ json2 w2,
      store_envelope-IsDual c j schema id dh hb env pw1 pw2 json1 json2 file (ok_or-ok _ _ hb wrote)
          made2 h3,
    )

-- A vault that was created with a decoy, written to a file and read again, opens with the primary
-- password to the primary payload and with the decoy password to the decoy payload. The AEAD must
-- unseal what it sealed, serde_json read back what it wrote, nothing that is encrypted under the
-- primary header by the primary password decrypt there by the decoy password, and the file fit the
-- reader's limits.
pub created_duress_opens :
    (c : Primitives) (j : VaultJson) (drawn : DualDraws) (id : ℕ) (pw1 pw2 : Bytes)
    (payload1 payload2 : List VaultEntry) (schema : ℕ) (kdf : VaultKdfPolicy) (file : VaultFile)
    (probed probed' : RuntimeInspectionState) (expected : Option ℕ) (max_len v : ℕ) (hb out : Bytes)
    (allow : Bool)
    → IsAead c
    → EnvelopesReadBack j
    → ReadsBack j payload1
    → ReadsBack j payload2
    → create_duress_vault c j drawn id pw1 pw2 payload1 payload2 schema kdf ≡ ok file
    → AreApart c file.header.crypto pw1 pw2
    → IsWritten j.headers probed expected max_len v hb out file
    → (p : ParsedVaultFile) × (decode_vault_file j.headers probed' out expected max_len allow
        ≡ ok p)
      × (unlock_vault_with_outcome c j p pw1 ≡ ok (primary, payload1))
      × (unlock_vault_with_outcome c j p pw2 ≡ ok (decoy, payload2))
created_duress_opens c j drawn id pw1 pw2 payload1 payload2 schema kdf file probed probed' expected
      max_len v hb out allow aead reads back1 back2 made apart w =
    let (json1, json2, w1, w2, dual) =
      create_duress-IsDual c j drawn id pw1 pw2 payload1 payload2 schema kdf file made in
    let (o1, o2) =
      IsDual-opens c j pw1 pw2 json1 json2 file probed expected max_len v hb out aead reads apart w
        dual in
    let p : ParsedVaultFile = parsed_of v hb file in
    (
      p,
      reopened j.headers probed probed' expected max_len v hb out file allow w,
      opens-payload c j p pw1 primary json1 payload1 o1 (back1 json1 w1),
      opens-payload c j p pw2 decoy json2 payload2 o2 (back2 json2 w2),
    )

draw_header-ok :
    (drawn1 drawn2 : Option Bytes) (schema id : ℕ) (kdf : VaultKdfPolicy) (h : VaultHeader)
    → draw_header drawn1 drawn2 schema id kdf ≡ ok h
    → (h.crypto.kdf ≡ argon2id kdf.mem_kib kdf.time_cost kdf.lanes) × (h.duress ≡ none)
unfolding draw_header crypto_header as_kdf_params
draw_header-ok drawn1 drawn2 schema id kdf h drew = ground arith

seal_payload-ok :
    (c : Primitives) (j : VaultJson) (hb : Bytes) (ch : CryptoHeader) (kdf : VaultKdfPolicy)
    (pw : Bytes) (payload : List VaultEntry) (ct : Bytes)
    → IsAead c
    → seal_payload c j hb ch kdf pw payload ≡ ok ct
    → (key : Bytes) × (json : Bytes) × (derive_master_key_from_password c pw ch.salt kdf.mem_kib
          kdf.time_cost kdf.lanes
        ≡ ok key)
      × (j.payloads.to_vec payload ≡ some json)
      × (c.unseal key ch.nonce ct hb ≡ some json)
unfolding seal_payload payload_to_json
seal_payload-ok c j hb ch kdf pw payload ct aead h =
    let derive : Result KdfError Bytes =
      derive_master_key_from_password c pw ch.salt kdf.mem_kib kdf.time_cost kdf.lanes in
    let (key, d, h1) = >>=-eq-ok (map_err (λ _. invalid_header) derive) _ h in
    let (json, w, sealed) = >>=-eq-ok (ok_or (j.payloads.to_vec payload) serialize) _ h1 in
    (
      key,
      json,
      map_err-ok _ derive key d,
      ok_or-ok _ _ json w,
      aead key ch.nonce json hb ct (seal-ok c serialize key ch.nonce json hb ct sealed),
    )

created-opens :
    (c : Primitives) (j : VaultJson) (h : VaultHeader) (ct hb : Bytes) (kdf : VaultKdfPolicy)
    (pw : Bytes) (payload : List VaultEntry) (v : ℕ)
    → IsAead c
    → ReadsBack j payload
    → h.crypto.kdf ≡ argon2id kdf.mem_kib kdf.time_cost kdf.lanes
    → h.duress ≡ none
    → seal_payload c j hb h.crypto kdf pw payload ≡ ok ct
    → unlock_vault_with_outcome c j
        (parsed_of v hb (record { header = h; storage = encrypted_storage ct }))
        pw
      ≡ ok (primary, payload)
created-opens c j h ct hb kdf pw payload v aead back k n sealed =
    let p : ParsedVaultFile =
      parsed_of v hb (record { header = h; storage = encrypted_storage ct }) in
    let (key, json, d, w, u) = seal_payload-ok c j hb h.crypto kdf pw payload ct aead sealed in
    opens-payload c j p pw primary json payload
      (opens-single c j p kdf.mem_kib kdf.time_cost kdf.lanes key pw json refl n k d u)
      (back json w)

-- A vault that was created, written to a file and read again opens with its password to its payload,
-- as the primary one. The AEAD must unseal what it sealed, serde_json read back the payload, and the
-- file fit the reader's limits.
pub created_opens :
    (c : Primitives) (j : VaultJson) (drawn1 drawn2 : Option Bytes) (id : ℕ) (pw : Bytes)
    (payload : List VaultEntry) (schema : ℕ) (kdf : VaultKdfPolicy) (file : VaultFile)
    (probed probed' : RuntimeInspectionState) (expected : Option ℕ) (max_len v : ℕ) (hb out : Bytes)
    (allow : Bool)
    → IsAead c
    → ReadsBack j payload
    → create_encrypted_vault c j drawn1 drawn2 id pw payload schema kdf ≡ ok file
    → IsWritten j.headers probed expected max_len v hb out file
    → (p : ParsedVaultFile) × (decode_vault_file j.headers probed' out expected max_len allow
        ≡ ok p)
      × (unlock_vault_with_outcome c j p pw ≡ ok (primary, payload))
unfolding create_encrypted_vault serialize_header_json
created_opens c j drawn1 drawn2 id pw payload schema kdf file probed probed' expected max_len v hb
      out allow aead back made w =
    let (h, drew, h1) = >>=-eq-ok (draw_header drawn1 drawn2 schema id kdf) _ made in
    let (hb', wrote, h2) = >>=-eq-ok (ok_or (j.headers.to_vec h) serialize) _ h1 in
    let (ct, sealed, h3) = >>=-eq-ok (seal_payload c j hb' h.crypto kdf pw payload) _ h2 in
    let is_file : record { header = h; storage = encrypted_storage ct } ≡ file = ok-injective h3 in
    let same : hb' ≡ hb = some-injective (
      sym (ok_or-ok _ _ hb' wrote)
      ∙ (ap (λ (f : VaultFile). j.headers.to_vec f.header) is_file ∙ w.writes)) in
    let sealed' = subst (λ x. seal_payload c j x h.crypto kdf pw payload ≡ ok ct) same sealed in
    let (k, n) = draw_header-ok drawn1 drawn2 schema id kdf h drew in
    (
      parsed_of v hb file,
      reopened j.headers probed probed' expected max_len v hb out file allow w,
      subst (λ f. unlock_vault_with_outcome c j (parsed_of v hb f) pw ≡ ok (primary, payload))
          is_file (created-opens c j h ct hb kdf pw payload v aead back k n sealed'),
    )
