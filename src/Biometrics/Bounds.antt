-- ===== src/Biometrics/Bounds.antt =====
-- What a biometric unlock can open, and what its session may do (core/biometrics.rs).
use viper_vault.Base.{
  ℕ, ◌≡◌, ◌≢◌, ◌⊎◌, inl, inr, refl, sym, ap, true, false, List, none, some, Result, ok, err, Done,
  ◌>>◌, Bytes, guard, guard-eq-ok, arith, Result-cases,
}
use mathlib.Core.Path.{subst}
use viper_vault.Session.{RuntimeInspectionState, SensitiveOperation, biometric}
use viper_vault.Policy.{PolicyContext, allow_biometric_unlock}
use viper_vault.Crypto.{Primitives, decrypt_xchacha20poly1305}
use viper_vault.Vault.Types.{ParsedVaultFile}
use viper_vault.Vault.Codec.{is_plaintext}
use viper_vault.LockState.Types.{VaultLockManager}
use viper_vault.LockState.Timer.{unlock_with_plaintext_json_with_strength}
use viper_vault.LockState.Posture.{authorize_sensitive_operation}
use viper_vault.LockState.History.{SessionStep, run_session}
use viper_vault.LockState.Ceiling.{IsBarred, WhenUnlocked, barred_never_authorized}
use viper_vault.Biometrics.{
  BiometricError, policy_denied, unavailable, BiometricBackend,
  unlock_vault_to_plaintext_json_with_master_key, open_with, unlock_with_master_key, released_key,
  unlock_with_biometrics,
}

-- What a biometric unlock that succeeded went through, with the manager it left.
pub record IsUnlockedBy (c : Primitives) (m m' : VaultLockManager) (policy : PolicyContext)
    (parsed : ParsedVaultFile) (timeout : ℕ) (probed : RuntimeInspectionState) (key : Bytes)
    : Type 0 where
  pub json : Bytes
  pub allowed : allow_biometric_unlock policy ≡ true
  pub not_plaintext : is_plaintext parsed.mode ≡ false
  pub not_dual : parsed.header.duress ≡ none
  pub unseals :
      c.unseal key parsed.header.crypto.nonce parsed.payload parsed.header_bytes ≡ some json
  pub opens : m' ≡ unlock_with_plaintext_json_with_strength m json timeout biometric probed

master_key-ok :
    (c : Primitives) (parsed : ParsedVaultFile) (key json : Bytes)
    → unlock_vault_to_plaintext_json_with_master_key c parsed key ≡ ok json
    → (is_plaintext parsed.mode ≡ false)
      × (parsed.header.duress ≡ none)
      × (c.unseal key parsed.header.crypto.nonce parsed.payload parsed.header_bytes ≡ some json)
unfolding unlock_vault_to_plaintext_json_with_master_key decrypt_xchacha20poly1305
master_key-ok c parsed key json h = (ground arith, ground arith, ground arith)

opened-or_same :
    (c : Primitives) (m m' : VaultLockManager) (policy : PolicyContext) (parsed : ParsedVaultFile)
    (timeout : ℕ) (probed : RuntimeInspectionState) (key : Bytes) (r : Result BiometricError Bytes)
    (answer : Result BiometricError Done)
    → (guard (allow_biometric_unlock policy) policy_denied
        >> unlock_vault_to_plaintext_json_with_master_key c parsed key)
      ≡ r
    → open_with m timeout probed r ≡ (m', answer)
    → ((m' ≡ m) × (answer ≢ ok tt)) ⊎ IsUnlockedBy c m m' policy parsed timeout probed key
unfolding open_with
opened-or_same c m m' policy parsed timeout probed key (err e) answer read opens =
    inl (ap (λ x. x.0) (sym opens), (λ h. cc))
opened-or_same c m m' policy parsed timeout probed key (ok json) answer read opens =
    let (allowed, decrypts) = guard-eq-ok (allow_biometric_unlock policy) policy_denied _ read in
    let (not_plaintext, not_dual, unseals) = master_key-ok c parsed key json decrypts in
    inr (record {
      json = json;
      allowed = allowed;
      not_plaintext = not_plaintext;
      not_dual = not_dual;
      unseals = unseals;
      opens = ap (λ x. x.0) (sym opens);
    })

keyed-or_same :
    (c : Primitives) (m m' : VaultLockManager) (policy : PolicyContext) (parsed : ParsedVaultFile)
    (timeout : ℕ) (probed : RuntimeInspectionState) (key : Bytes)
    (answer : Result BiometricError Done)
    → unlock_with_master_key c m policy parsed timeout probed key ≡ (m', answer)
    → ((m' ≡ m) × (answer ≢ ok tt)) ⊎ IsUnlockedBy c m m' policy parsed timeout probed key
unfolding unlock_with_master_key
keyed-or_same c m m' policy parsed timeout probed key answer opens =
    opened-or_same c m m' policy parsed timeout probed key
      (guard (allow_biometric_unlock policy) policy_denied
        >> unlock_vault_to_plaintext_json_with_master_key c parsed key)
      answer refl opens

released_key-ok :
    (c : Primitives) (m : VaultLockManager) (policy : PolicyContext) (parsed : ParsedVaultFile)
    (timeout : ℕ) (probed : RuntimeInspectionState) (backend : BiometricBackend)
    (vault_id key : Bytes)
    → released_key c m policy parsed timeout probed backend vault_id ≡ ok key
    → (backend.is_available ≡ true) × (backend.unseal_master_key vault_id ≡ ok key)
unfolding released_key
released_key-ok c m policy parsed timeout probed backend vault_id key h =
    let (_, h1) = guard-eq-ok (allow_biometric_unlock policy) policy_denied _ h in
    guard-eq-ok backend.is_available unavailable _ h1

-- A biometric unlock leaves the manager as it was and does not succeed, or the policy allowed it, the
-- platform was available and released a key, and that key unsealed the payload of an encrypted file
-- without a duress header, which the manager then holds as a biometric session.
pub biometric_opens_only :
    (c : Primitives) (m m' : VaultLockManager) (policy : PolicyContext) (parsed : ParsedVaultFile)
    (timeout : ℕ) (probed : RuntimeInspectionState) (backend : BiometricBackend) (vault_id : Bytes)
    (answer : Result BiometricError Done)
    → unlock_with_biometrics c m policy parsed timeout probed backend vault_id ≡ (m', answer)
    → ((m' ≡ m) × (answer ≢ ok tt))
      ⊎ ((key : Bytes) × (backend.is_available ≡ true)
          × (backend.unseal_master_key vault_id ≡ ok key)
          × IsUnlockedBy c m m' policy parsed timeout probed key)
unfolding unlock_with_biometrics
biometric_opens_only c m m' policy parsed timeout probed backend vault_id answer h =
    elim (Result-cases (released_key c m policy parsed timeout probed backend vault_id)) [
      | inr (e, failed) ↦
          let same : ◌≡◌ {A = VaultLockManager × Result BiometricError Done} (m, err e)
              (m', answer) =
            rw (unlock_with_biometrics, failed) at h in
          inl (ap (λ x. x.0) (sym same), (λ k. cc))
      | inl (key, released) ↦
          let keyed : unlock_with_master_key c m policy parsed timeout probed key ≡ (m', answer) =
            rw (unlock_with_biometrics, released) at h in
          elim (keyed-or_same c m m' policy parsed timeout probed key answer keyed) [
            | inl same ↦ inl same
            | inr by ↦
                let (available, unsealed) =
                  released_key-ok c m policy parsed timeout probed backend vault_id key released in
                inr (key, available, unsealed, by)
          ]
    ]

biometric-IsBarred :
    (m m' : VaultLockManager) (json : Bytes) (timeout : ℕ) (probed : RuntimeInspectionState)
    → m' ≡ unlock_with_plaintext_json_with_strength m json timeout biometric probed
    → WhenUnlocked IsBarred m'.state
unfolding unlock_with_plaintext_json_with_strength
biometric-IsBarred m m' json timeout probed h =
    subst (λ (x : VaultLockManager). WhenUnlocked IsBarred x.state) (sym h) (inl refl)

-- After a biometric unlock that succeeded no sensitive operation is authorized, whatever calls,
-- events and timers follow up to the next unlock, also after the re-authentication flag was cleared.
pub biometric_never_authorized :
    (c : Primitives) (m m' : VaultLockManager) (policy : PolicyContext) (parsed : ParsedVaultFile)
    (timeout : ℕ) (probed : RuntimeInspectionState) (backend : BiometricBackend) (vault_id : Bytes)
    (xs : List SessionStep) (op : SensitiveOperation) (p : PolicyContext)
    → unlock_with_biometrics c m policy parsed timeout probed backend vault_id ≡ (m', ok tt)
    → authorize_sensitive_operation (run_session m' xs) op ≢ ok p
biometric_never_authorized c m m' policy parsed timeout probed backend vault_id xs op p h =
    elim (biometric_opens_only c m m' policy parsed timeout probed backend vault_id (ok tt) h) [
      | inl same ↦ absurd (same.1 refl)
      | inr (key, available, unsealed, by) ↦
          barred_never_authorized m' xs op p
            (biometric-IsBarred m m' by.json timeout probed by.opens)
    ]
