-- ===== src/Unlock/Migrated.antt =====
-- What adding a decoy does to a vault (vault/migrate.rs, core/unlock.rs).
use viper_vault.Base.{
  ℕ, ◌≡◌, refl, ap, ap₂, true, ◌∙◌, sym, Bool, not, Option, ok, Bytes, List, >>=-eq-ok, >>-eq-ok,
  guard-eq-ok, ok-injective, some-injective, ok_or, ok_or-ok, map_err, none, some,
}
use viper_vault.Entries.Types.{VaultEntry}
use viper_vault.Session.{RuntimeInspectionState, primary, decoy}
use viper_vault.Crypto.{Primitives, decrypt_xchacha20poly1305}
use viper_vault.Vault.Types.{
  serialize, auth_failed, invalid_header, VaultFile, VaultHeader, VaultStorage, encrypted_storage,
  plaintext_storage,
}
use viper_vault.Vault.Codec.{
  is_some, serialize_header_json, storage_mode, storage_bytes, decode_vault_file,
}
use viper_vault.Vault.Duress.{
  VaultJson, derive_key_of, validate_payload_json, encrypt_duress_envelope_from_plaintext_json,
}
use viper_vault.Vault.Duress.Opens.{IsAead, AreApart}
use viper_vault.Vault.Create.{
  VaultKdfPolicy, DualDraws, draw_dual_header, dual_vault_header, payload_to_json,
}
use viper_vault.Vault.Migrate.{legacy_ciphertext, legacy_plaintext, enable_duress_on_vault}
use viper_vault.Unlock.{unlock_vault_to_plaintext_json_with_outcome, unlock_vault_with_outcome}
use viper_vault.Unlock.Authentic.{kdf-cases, derive_key_of-ok, decrypt-ok}
use viper_vault.Unlock.Dual.{IsDual, IsDual-opens, store_envelope-IsDual, store_envelope-header}
use viper_vault.Unlock.Reopened.{
  parsed_of, IsWritten, reopened, opens-payload, opens-single, EnvelopesReadBack, ReadsBack,
}

legacy_ciphertext-ok :
    (st : VaultStorage) (ct : Bytes) → legacy_ciphertext st ≡ ok ct → st ≡ encrypted_storage ct
unfolding legacy_ciphertext
legacy_ciphertext-ok (encrypted_storage x) ct h = ap encrypted_storage (ok-injective h)
legacy_ciphertext-ok (plaintext_storage x) ct h = cc

not_some-none : {A : Type 0} (o : Option A) → not (is_some o) ≡ true → o ≡ none
not_some-none none h = refl
not_some-none (some a) h = cc

-- The JSON that the migration decrypts is what the vault opens to.
legacy_plaintext-opens :
    (c : Primitives) (j : VaultJson) (vault : VaultFile) (pw json hb : Bytes) (v : ℕ)
    → j.headers.to_vec vault.header ≡ some hb
    → legacy_plaintext c j vault pw ≡ ok json
    → unlock_vault_to_plaintext_json_with_outcome c j (parsed_of v hb vault) pw ≡ ok (primary, json)
unfolding legacy_plaintext serialize_header_json
legacy_plaintext-opens c j vault pw json hb v w h =
    let crypto = vault.header.crypto in
    let (ct, stored, h1) = >>=-eq-ok (legacy_ciphertext vault.storage) _ h in
    let (n, h2) = guard-eq-ok (not (is_some vault.header.duress)) invalid_header _ h1 in
    let (key, d, h3) = >>=-eq-ok (derive_key_of c crypto.kdf pw crypto.salt) _ h2 in
    let (hb', w', h4) = >>=-eq-ok (ok_or (j.headers.to_vec vault.header) serialize) _ h3 in
    let (pt, u, h5) =
      >>=-eq-ok (map_err (λ _. auth_failed) (decrypt_xchacha20poly1305 c key crypto.nonce ct hb')) _
        h4 in
    let (valid, h6) = >>-eq-ok (validate_payload_json j pt) _ h5 in
    let (m, t, l, k) = kdf-cases crypto.kdf in
    let is_hb : hb' ≡ hb = some-injective (sym (ok_or-ok _ _ hb' w') ∙ w) in
    let is_ct : ct ≡ storage_bytes vault.storage =
      ap storage_bytes (sym (legacy_ciphertext-ok vault.storage ct stored)) in
    let opened : c.unseal key crypto.nonce ct hb' ≡ some json =
      decrypt-ok c auth_failed key crypto.nonce ct hb' pt u ∙ ap some (ok-injective h6) in
    opens-single c j (parsed_of v hb vault) m t l key pw json
      (ap storage_mode (legacy_ciphertext-ok vault.storage ct stored))
      (not_some-none vault.header.duress n) k
      (derive_key_of-ok c crypto.kdf m t l pw crypto.salt key k d)
      (sym (ap₂ (λ x y. c.unseal key crypto.nonce x y) is_ct is_hb) ∙ opened)

-- Where a decoy was added, the vault opened before, to some JSON; and the new file, written and read
-- again, keeps the identifier and the schema of the old one, opens with the primary password to the
-- same JSON, byte for byte, and with the decoy password to the decoy payload. The conditions are those of
-- a vault that was created with a decoy.
pub migrated_keeps :
    (c : Primitives) (j : VaultJson) (drawn : DualDraws) (vault : VaultFile) (pw1 pw2 : Bytes)
    (payload2 : List VaultEntry) (kdf : VaultKdfPolicy) (file : VaultFile)
    (probed probed' : RuntimeInspectionState) (expected : Option ℕ) (max_len v : ℕ)
    (hb0 hb out : Bytes) (allow : Bool)
    → IsAead c
    → EnvelopesReadBack j
    → ReadsBack j payload2
    → j.headers.to_vec vault.header ≡ some hb0
    → enable_duress_on_vault c j drawn vault pw1 pw2 payload2 kdf ≡ ok file
    → AreApart c file.header.crypto pw1 pw2
    → IsWritten j.headers probed expected max_len v hb out file
    → (json : Bytes) × (unlock_vault_to_plaintext_json_with_outcome c j (parsed_of v hb0 vault) pw1
        ≡ ok (primary, json))
      × (decode_vault_file j.headers probed' out expected max_len allow ≡ ok (parsed_of v hb file))
      × (file.header.vault_id ≡ vault.header.vault_id)
      × (file.header.schema_version ≡ vault.header.schema_version)
      × (unlock_vault_to_plaintext_json_with_outcome c j (parsed_of v hb file) pw1
          ≡ ok (primary, json))
      × (unlock_vault_with_outcome c j (parsed_of v hb file) pw2 ≡ ok (decoy, payload2))
unfolding enable_duress_on_vault payload_to_json serialize_header_json
migrated_keeps c j drawn vault pw1 pw2 payload2 kdf file probed probed' expected max_len v hb0 hb
      out allow aead reads back w0 made apart w =
    let (json, legacy, h1) = >>=-eq-ok (legacy_plaintext c j vault pw1) _ made in
    let (json2, w2, h2) = >>=-eq-ok (ok_or (j.payloads.to_vec payload2) serialize) _ h1 in
    let (dh, drew, h3) = >>=-eq-ok (draw_dual_header drawn kdf) _ h2 in
    let schema : ℕ = vault.header.schema_version in
    let id : ℕ = vault.header.vault_id in
    let (hb', wrote, h4) =
      >>=-eq-ok (ok_or (j.headers.to_vec (dual_vault_header schema id dh)) serialize) _ h3 in
    let (env, enveloped, h5) =
      >>=-eq-ok (encrypt_duress_envelope_from_plaintext_json c j hb' dh pw1 pw2 json json2) _ h4 in
    let dual : IsDual c j pw1 pw2 json json2 file =
      store_envelope-IsDual c j schema id dh hb' env pw1 pw2 json json2 file
        (ok_or-ok _ _ hb' wrote) enveloped h5 in
    let (o1, o2) =
      IsDual-opens c j pw1 pw2 json json2 file probed expected max_len v hb out aead reads apart w
        dual in
    let kept = store_envelope-header j (dual_vault_header schema id dh) env file h5 in
    (
      json,
      legacy_plaintext-opens c j vault pw1 json hb0 v w0 legacy,
      reopened j.headers probed probed' expected max_len v hb out file allow w,
      ap (λ (h : VaultHeader). h.vault_id) kept,
      ap (λ (h : VaultHeader). h.schema_version) kept,
      o1,
      opens-payload c j (parsed_of v hb file) pw2 decoy json2 payload2 o2
          (back json2 (ok_or-ok _ _ json2 w2)),
    )
