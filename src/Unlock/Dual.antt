-- ===== src/Unlock/Dual.antt =====
-- Files with a stored envelope (vault/create.rs, vault/migrate.rs) and what they open to.
use viper_vault.Base.{
  ℕ, ◌≡◌, refl, ap, ◌∙◌, sym, Option, some, ok, Bytes, >>=-eq-ok, ok-injective, some-injective,
  ok_or, ok_or-ok,
}
use mathlib.Core.Path.{subst}
use viper_vault.Session.{RuntimeInspectionState, primary, decoy}
use viper_vault.Crypto.{Primitives}
use viper_vault.Vault.Types.{
  serialize, VaultFile, VaultHeader, encrypted_storage, DualVaultHeader, DualCiphertextEnvelope,
}
use viper_vault.Vault.Codec.{storage_mode, storage_bytes}
use viper_vault.Vault.Duress.{VaultJson, encrypt_duress_envelope_from_plaintext_json}
use viper_vault.Vault.Duress.Opens.{
  IsAead, AreApart, IsEnvelope, encrypted-IsEnvelope, IsEnvelope-opens,
}
use viper_vault.Vault.Create.{dual_vault_header, store_envelope}
use viper_vault.Unlock.{unlock_vault_to_plaintext_json_with_outcome}
use viper_vault.Unlock.Reopened.{parsed_of, IsWritten, opens-envelope, EnvelopesReadBack}

-- A file whose payload is a stored envelope under its own header.
pub record IsDual (c : Primitives) (j : VaultJson) (pw1 pw2 json1 json2 : Bytes) (file : VaultFile)
    : Type 0 where
  pub dh : DualVaultHeader
  pub hb : Bytes
  pub env : DualCiphertextEnvelope
  pub ct : Bytes
  pub is_dual : file.header.duress ≡ some dh
  pub first : file.header.crypto ≡ dh.primary
  pub stores : file.storage ≡ encrypted_storage ct
  pub writes : j.headers.to_vec file.header ≡ some hb
  pub holds : IsEnvelope c j hb dh pw1 pw2 json1 json2 env
  pub stored : j.envelopes.to_vec env ≡ some ct

-- Each password opens its own JSON.
pub IsDual-opens :
    (c : Primitives) (j : VaultJson) (pw1 pw2 json1 json2 : Bytes) (file : VaultFile)
    (probed : RuntimeInspectionState) (expected : Option ℕ) (max_len v : ℕ) (hb out : Bytes)
    → IsAead c
    → EnvelopesReadBack j
    → AreApart c file.header.crypto pw1 pw2
    → IsWritten j.headers probed expected max_len v hb out file
    → IsDual c j pw1 pw2 json1 json2 file
    → (unlock_vault_to_plaintext_json_with_outcome c j (parsed_of v hb file) pw1
        ≡ ok (primary, json1))
      × (unlock_vault_to_plaintext_json_with_outcome c j (parsed_of v hb file) pw2
          ≡ ok (decoy, json2))
IsDual-opens c j pw1 pw2 json1 json2 file probed expected max_len v hb out aead reads apart w d =
    let same : d.hb ≡ hb = some-injective (sym d.writes ∙ w.writes) in
    let apart' : AreApart c d.dh.primary pw1 pw2 =
      subst (λ x. AreApart c x pw1 pw2) d.first apart in
    let holds : IsEnvelope c j hb d.dh pw1 pw2 json1 json2 d.env =
      subst (λ x. IsEnvelope c j x d.dh pw1 pw2 json1 json2 d.env) same d.holds in
    let (o1, o2) = IsEnvelope-opens c j hb d.dh pw1 pw2 json1 json2 d.env aead apart' holds in
    let mode = ap storage_mode d.stores in
    let read =
      ap (λ x. j.envelopes.from_slice (storage_bytes x)) d.stores ∙ reads d.env d.ct d.stored in
    (
      opens-envelope c j (parsed_of v hb file) d.dh d.env pw1 primary json1 mode d.is_dual read o1,
      opens-envelope c j (parsed_of v hb file) d.dh d.env pw2 decoy json2 mode d.is_dual read o2,
    )

pub store_envelope-IsDual :
    (c : Primitives) (j : VaultJson) (schema id : ℕ) (dh : DualVaultHeader) (hb : Bytes)
    (env : DualCiphertextEnvelope) (pw1 pw2 json1 json2 : Bytes) (file : VaultFile)
    → j.headers.to_vec (dual_vault_header schema id dh) ≡ some hb
    → encrypt_duress_envelope_from_plaintext_json c j hb dh pw1 pw2 json1 json2 ≡ ok env
    → store_envelope j (dual_vault_header schema id dh) env ≡ ok file
    → IsDual c j pw1 pw2 json1 json2 file
unfolding store_envelope
store_envelope-IsDual c j schema id dh hb env pw1 pw2 json1 json2 file w e h =
    let (ct, stored, made) = >>=-eq-ok (ok_or (j.envelopes.to_vec env) serialize) _ h in
    subst (λ f. IsDual c j pw1 pw2 json1 json2 f) (ok-injective made)
      (record {
        dh = dh;
        hb = hb;
        env = env;
        ct = ct;
        is_dual = refl;
        first = refl;
        stores = refl;
        writes = w;
        holds = encrypted-IsEnvelope c j hb dh pw1 pw2 json1 json2 env e;
        stored = ok_or-ok _ _ ct stored;
      })

pub store_envelope-header :
    (j : VaultJson) (h : VaultHeader) (env : DualCiphertextEnvelope) (file : VaultFile)
    → store_envelope j h env ≡ ok file
    → file.header ≡ h
unfolding store_envelope
store_envelope-header j h env file stored =
    let (ct, _, made) = >>=-eq-ok (ok_or (j.envelopes.to_vec env) serialize) _ stored in
    ap (λ (f : VaultFile). f.header) (sym (ok-injective made))
