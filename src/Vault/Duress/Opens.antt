-- ===== src/Vault/Duress/Opens.antt =====
-- What was encrypted opens again (vault/duress.rs).
use viper_vault.Base.{
  ◌≡◌, refl, ap, ◌∙◌, some, Result, ok, err, Bytes, arith, >>=-eq-ok, >>-eq-ok, ok-injective,
  map_err,
}
use viper_vault.Session.{primary, decoy}
use viper_vault.Crypto.{Primitives, encrypt_xchacha20poly1305, decrypt_xchacha20poly1305}
use viper_vault.Vault.Types.{VaultParseError, CryptoHeader, DualVaultHeader, DualCiphertextEnvelope}
use viper_vault.Vault.Duress.{
  VaultJson, derive_key_of, decrypt_with_crypto_header, encrypt_with_crypto_header,
  validate_payload_json, validated, first_branch, unlock_duress_envelope_to_plaintext_json,
  encrypt_duress_envelope_from_plaintext_json,
}

-- The documented contract of the AEAD: what was sealed unseals under the same key, nonce and data.
abbrev pub IsAead : Primitives → Type 0
IsAead c =
    (key nonce pt aad ct : Bytes)
    → c.seal key nonce pt aad ≡ some ct
    → c.unseal key nonce ct aad ≡ some pt

-- No text encrypted under a header by one password decrypts there by the other.
abbrev pub AreApart : Primitives → CryptoHeader → (password other : Bytes) → Type 0
AreApart c ch password other =
    (hb pt ct : Bytes)
    → encrypt_with_crypto_header c hb ch pt password ≡ ok ct
    → (e : VaultParseError) × (decrypt_with_crypto_header c hb ch ct other ≡ err e)

pub seal-ok :
    {E : Type 0} (c : Primitives) (why : E) (key nonce pt hb ct : Bytes)
    → map_err (λ _. why) (encrypt_xchacha20poly1305 c key nonce pt hb) ≡ ok ct
    → c.seal key nonce pt hb ≡ some ct
unfolding encrypt_xchacha20poly1305
seal-ok c why key nonce pt hb ct h = ground arith

pub sealed-unseals :
    {E F : Type 0} (c : Primitives) (why : E) (why' : F) (key nonce pt hb ct : Bytes)
    → IsAead c
    → map_err (λ _. why) (encrypt_xchacha20poly1305 c key nonce pt hb) ≡ ok ct
    → map_err (λ _. why') (decrypt_xchacha20poly1305 c key nonce ct hb) ≡ ok pt
unfolding decrypt_xchacha20poly1305
sealed-unseals c why why' key nonce pt hb ct aead h =
    rw (aead key nonce pt hb ct (seal-ok c why key nonce pt hb ct h)) refl

pub encrypted-decrypts :
    (c : Primitives) (hb : Bytes) (ch : CryptoHeader) (pt password ct : Bytes)
    → IsAead c
    → encrypt_with_crypto_header c hb ch pt password ≡ ok ct
    → decrypt_with_crypto_header c hb ch ct password ≡ ok pt
unfolding encrypt_with_crypto_header decrypt_with_crypto_header
encrypted-decrypts c hb ch pt password ct aead h =
    let (key, d, e) = >>=-eq-ok (derive_key_of c ch.kdf password ch.salt) _ h in
    rw d (
      sealed-unseals c VaultParseError.auth_failed VaultParseError.auth_failed key ch.nonce pt hb ct
        aead e)

-- What an envelope that was made holds.
pub record IsEnvelope (c : Primitives) (j : VaultJson) (hb : Bytes) (dh : DualVaultHeader)
    (pw1 pw2 json1 json2 : Bytes) (e : DualCiphertextEnvelope) : Type 0 where
  pub valid1 : validate_payload_json j json1 ≡ ok tt
  pub valid2 : validate_payload_json j json2 ≡ ok tt
  pub sealed1 : encrypt_with_crypto_header c hb dh.primary json1 pw1 ≡ ok e.primary_ct
  pub sealed2 : encrypt_with_crypto_header c hb dh.decoy json2 pw2 ≡ ok e.decoy_ct

pub encrypted-IsEnvelope :
    (c : Primitives) (j : VaultJson) (hb : Bytes) (dh : DualVaultHeader)
    (pw1 pw2 json1 json2 : Bytes) (e : DualCiphertextEnvelope)
    → encrypt_duress_envelope_from_plaintext_json c j hb dh pw1 pw2 json1 json2 ≡ ok e
    → IsEnvelope c j hb dh pw1 pw2 json1 json2 e
unfolding encrypt_duress_envelope_from_plaintext_json
encrypted-IsEnvelope c j hb dh pw1 pw2 json1 json2 e h =
    let (v1, h1) = >>-eq-ok (validate_payload_json j json1) _ h in
    let (v2, h2) = >>-eq-ok (validate_payload_json j json2) _ h1 in
    let (ct1, s1, h3) = >>=-eq-ok (encrypt_with_crypto_header c hb dh.primary json1 pw1) _ h2 in
    let (ct2, s2, h4) = >>=-eq-ok (encrypt_with_crypto_header c hb dh.decoy json2 pw2) _ h3 in
    let same : record { primary_ct = ct1; decoy_ct = ct2 } ≡ e = ok-injective h4 in
    record {
      valid1 = v1;
      valid2 = v2;
      sealed1 = s1 ∙ ap (λ (x : DualCiphertextEnvelope). ok x.primary_ct) same;
      sealed2 = s2 ∙ ap (λ (x : DualCiphertextEnvelope). ok x.decoy_ct) same;
    }

branch-primary :
    (j : VaultJson) (r1 r2 : Result VaultParseError Bytes) (json : Bytes)
    → r1 ≡ ok json
    → validate_payload_json j json ≡ ok tt
    → first_branch j r1 r2 ≡ ok (primary, json)
unfolding first_branch validated
branch-primary j r1 r2 json h v = rw (h, v) refl

branch-decoy :
    (j : VaultJson) (r1 r2 : Result VaultParseError Bytes) (e : VaultParseError) (json : Bytes)
    → r1 ≡ err e
    → r2 ≡ ok json
    → validate_payload_json j json ≡ ok tt
    → first_branch j r1 r2 ≡ ok (decoy, json)
unfolding first_branch validated
branch-decoy j r1 r2 e json h k v = rw (h, k, v) refl

-- Each password opens its own branch.
pub IsEnvelope-opens :
    (c : Primitives) (j : VaultJson) (hb : Bytes) (dh : DualVaultHeader)
    (pw1 pw2 json1 json2 : Bytes) (e : DualCiphertextEnvelope)
    → IsAead c
    → AreApart c dh.primary pw1 pw2
    → IsEnvelope c j hb dh pw1 pw2 json1 json2 e
    → (unlock_duress_envelope_to_plaintext_json c j hb dh e pw1 ≡ ok (primary, json1))
      × (unlock_duress_envelope_to_plaintext_json c j hb dh e pw2 ≡ ok (decoy, json2))
unfolding unlock_duress_envelope_to_plaintext_json
IsEnvelope-opens c j hb dh pw1 pw2 json1 json2 e aead apart i =
    let opened1 = encrypted-decrypts c hb dh.primary json1 pw1 e.primary_ct aead i.sealed1 in
    let opened2 = encrypted-decrypts c hb dh.decoy json2 pw2 e.decoy_ct aead i.sealed2 in
    let (why, refused) = apart hb json1 e.primary_ct i.sealed1 in
    (
      branch-primary j _ _ json1 opened1 i.valid1,
      branch-decoy j _ _ why json2 refused opened2 i.valid2,
    )
