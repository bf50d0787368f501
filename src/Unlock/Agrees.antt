-- ===== src/Unlock/Agrees.antt =====
-- The two ways into a vault of core/unlock.rs give the same answer.
use viper_vault.Base.{
  ◌≡◌, refl, Result, ok, err, ◌>>=◌, Bytes, arith, List, some, none, map_err, ok_or, ◌⊎◌, inl, inr,
  Option-cases,
}
use viper_vault.Entries.Types.{VaultEntry}
use viper_vault.Session.{UnlockOutcome, primary, decoy}
use viper_vault.Crypto.{Primitives}
use viper_vault.Vault.Types.{
  VaultParseError, ParsedVaultFile, DualVaultHeader, StorageMode, encrypted, plaintext_json,
}
use viper_vault.Vault.Duress.{
  VaultJson, validated, first_branch, validate_payload_json, payload_of_json,
  decrypt_with_crypto_header, unlock_duress_envelope_to_plaintext_json, unlock_duress_envelope,
}
use viper_vault.Unlock.{
  UnlockError, decode_unlocked, unlock_dual, unlock_dual_payload, unlock_single, unlock_vault,
  unlock_vault_to_plaintext_json, unlock_vault_to_plaintext_json_with_outcome,
  unlock_vault_with_outcome,
}

-- Decoding the payload of an unlock's answer.
abbrev pub decoded :
    VaultJson → UnlockOutcome × Bytes → Result UnlockError (UnlockOutcome × List VaultEntry)
decoded j (outcome, json) = decode_unlocked j json >>= (λ payload. ok (outcome, payload))

mode-cases : (m : StorageMode) → (m ≡ encrypted) ⊎ (m ≡ plaintext_json)
mode-cases encrypted = inl refl
mode-cases plaintext_json = inr refl

-- What a branch was validated to be, it decodes to.
validated-decodes :
    (j : VaultJson) (o : UnlockOutcome) (pt : Bytes)
    → map_err
        (λ _. UnlockError.auth_failed)
        (validated j o pt >>= (λ (x : UnlockOutcome × Bytes).
          payload_of_json j x.1 >>= (λ payload. ok (x.0, payload))))
      ≡ (map_err (λ _. UnlockError.auth_failed) (validated j o pt) >>= decoded j)
unfolding validated validate_payload_json payload_of_json decode_unlocked
validated-decodes j o pt = ground arith

branch-decodes :
    (j : VaultJson) (r1 r2 : Result VaultParseError Bytes)
    → map_err
        (λ _. UnlockError.auth_failed)
        (first_branch j r1 r2 >>= (λ (x : UnlockOutcome × Bytes).
          payload_of_json j x.1 >>= (λ payload. ok (x.0, payload))))
      ≡ (map_err (λ _. UnlockError.auth_failed) (first_branch j r1 r2) >>= decoded j)
unfolding first_branch
branch-decodes j (ok pt) r2 = validated-decodes j primary pt
branch-decodes j (err _) (ok pt) = validated-decodes j decoy pt
branch-decodes j (err _) (err _) = refl

dual-decodes :
    (c : Primitives) (j : VaultJson) (parsed : ParsedVaultFile) (dh : DualVaultHeader)
    (password : Bytes)
    → unlock_dual_payload c j parsed dh password
      ≡ (unlock_dual c j parsed dh password >>= decoded j)
unfolding unlock_dual unlock_dual_payload unlock_duress_envelope
    unlock_duress_envelope_to_plaintext_json
dual-decodes c j parsed dh password =
    elim (j.envelopes.from_slice parsed.payload)
      as (λ x.
        ((ok_or x UnlockError.payload_decode) >>= (λ e.
          map_err (λ _. UnlockError.auth_failed)
            (unlock_duress_envelope c j parsed.header_bytes dh e password)))
        ≡ (((ok_or x UnlockError.payload_decode) >>= (λ e.
              map_err (λ _. UnlockError.auth_failed)
                (unlock_duress_envelope_to_plaintext_json c j parsed.header_bytes dh e password)))
            >>= decoded j)) [
              | none ↦ refl
              | some e ↦
                  branch-decodes j
                    (decrypt_with_crypto_header c parsed.header_bytes dh.primary e.primary_ct
                      password)
                    (decrypt_with_crypto_header c parsed.header_bytes dh.decoy e.decoy_ct password)
            ]

single-decodes :
    (c : Primitives) (j : VaultJson) (parsed : ParsedVaultFile) (password : Bytes)
    → parsed.mode ≡ encrypted
    → parsed.header.duress ≡ none
    → (unlock_vault c j parsed password >>= (λ payload. ok (primary, payload)))
      ≡ (unlock_single c j parsed password >>= decoded j)
unfolding unlock_vault unlock_vault_to_plaintext_json unlock_vault_to_plaintext_json_with_outcome
    unlock_single
single-decodes c j parsed password e h = ground arith

-- Opening a file to its payload is opening it to its protected JSON and then decoding that, for
-- every file and password, errors included.
pub unlock-decodes :
    (c : Primitives) (j : VaultJson) (parsed : ParsedVaultFile) (password : Bytes)
    → unlock_vault_with_outcome c j parsed password
      ≡ (unlock_vault_to_plaintext_json_with_outcome c j parsed password >>= decoded j)
unfolding unlock_vault_with_outcome unlock_vault_to_plaintext_json_with_outcome
unlock-decodes c j parsed password = elim (mode-cases parsed.mode) [
  | inr e ↦ rw e refl
  | inl e ↦ elim (Option-cases parsed.header.duress) [
    | inl n ↦ rw (e, n) (single-decodes c j parsed password e n)
    | inr (dh, n) ↦ rw (e, n) (dual-decodes c j parsed dh password)
  ]
]
