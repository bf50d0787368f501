-- ===== src/Unlock/Authentic.antt =====
-- What an opened vault of core/unlock.rs was made of.
use viper_vault.Base.{
  ℕ, ◌≡◌, refl, ap, ◌∙◌, Option, none, some, Result, ok, err, Bytes, arith, map_err, ok_or, inl,
  inr, Option-cases, >>=-eq-ok, guard-eq-ok, ok-injective, sym, not, ok_or-ok, map_err-ok,
}
use viper_vault.Session.{UnlockOutcome, primary, decoy}
use viper_vault.Crypto.{
  Primitives, derive_master_key_from_password, decrypt_xchacha20poly1305, validate_argon2id_params,
}
use viper_vault.Crypto.Bounds.{AreWithinPolicy, derived-AreWithinPolicy}
use viper_vault.Vault.Types.{
  VaultParseError, KdfParams, argon2id, CryptoHeader, ParsedVaultFile, DualCiphertextEnvelope,
  DualVaultHeader,
}
use viper_vault.Vault.Codec.{is_plaintext}
use viper_vault.Vault.Duress.{
  VaultJson, decrypt_with_crypto_header, derive_key_of, first_branch, validated,
  unlock_duress_envelope_to_plaintext_json,
}
use viper_vault.Unlock.{
  UnlockError, derive_unlock_key, unlock_single, unlock_dual,
  unlock_vault_to_plaintext_json_with_outcome,
}

-- The crypto header and the ciphertext of each branch of a file. A file without a duress header has no
-- decoy branch.
pub branch_of : VaultJson → ParsedVaultFile → UnlockOutcome → Option (CryptoHeader × Bytes)
branch_of j parsed o = elim parsed.header.duress [
  | none ↦ elim o [ primary ↦ some (parsed.header.crypto, parsed.payload) | decoy ↦ none ]
  | some dh ↦ elim (j.envelopes.from_slice parsed.payload) [
    | none ↦ none
    | some e ↦ elim o [
      | primary ↦ some (dh.primary, e.primary_ct)
      | decoy ↦ some (dh.decoy, e.decoy_ct)
    ]
  ]
]

-- The ciphertext unseals to the plaintext under the file's header bytes, with a key that Argon2id
-- makes from the password at a cost within the policy.
pub record Unseals (c : Primitives) (ch : CryptoHeader) (header_bytes ct password pt : Bytes)
    : Type 0 where
  pub mem_kib : ℕ
  pub time_cost : ℕ
  pub lanes : ℕ
  pub key : Bytes
  pub params : ch.kdf ≡ argon2id mem_kib time_cost lanes
  pub within : AreWithinPolicy mem_kib time_cost lanes
  pub hashed : c.hash mem_kib time_cost lanes password ch.salt ≡ some key
  pub unsealed : c.unseal key ch.nonce ct header_bytes ≡ some pt

derived-hash :
    (c : Primitives) (password salt : Bytes) (m t l : ℕ) (key : Bytes)
    → derive_master_key_from_password c password salt m t l ≡ ok key
    → c.hash m t l password salt ≡ some key
unfolding derive_master_key_from_password validate_argon2id_params
derived-hash c password salt m t l key h = ground arith

-- Unsealing by a header whose parameters are known.
Unseals-with :
    (c : Primitives) (ch : CryptoHeader) (hb ct password pt key : Bytes) (m t l : ℕ)
    → ch.kdf ≡ argon2id m t l
    → derive_master_key_from_password c password ch.salt m t l ≡ ok key
    → c.unseal key ch.nonce ct hb ≡ some pt
    → Unseals c ch hb ct password pt
Unseals-with c ch hb ct password pt key m t l k d u = record {
  mem_kib = m;
  time_cost = t;
  lanes = l;
  key = key;
  params = k;
  within = derived-AreWithinPolicy c password ch.salt m t l key d;
  hashed = derived-hash c password ch.salt m t l key d;
  unsealed = u;
}

pub kdf-cases : (k : KdfParams) → (m : ℕ) × (t : ℕ) × (l : ℕ) × (k ≡ argon2id m t l)
kdf-cases (argon2id m t l) = (m, t, l, refl)

pub derive_key_of-ok :
    (c : Primitives) (k : KdfParams) (m t l : ℕ) (password salt key : Bytes)
    → k ≡ argon2id m t l
    → derive_key_of c k password salt ≡ ok key
    → derive_master_key_from_password c password salt m t l ≡ ok key
unfolding derive_key_of
derive_key_of-ok c k m t l password salt key e h = ground arith

derive_unlock_key-ok :
    (c : Primitives) (j : VaultJson) (k : KdfParams) (m t l : ℕ) (password salt key : Bytes)
    → k ≡ argon2id m t l
    → derive_unlock_key c j k password salt ≡ ok key
    → derive_master_key_from_password c password salt m t l ≡ ok key
unfolding derive_unlock_key
derive_unlock_key-ok c j k m t l password salt key e h = ground arith

pub decrypt-ok :
    {E : Type 0} (c : Primitives) (why : E) (key nonce ct hb pt : Bytes)
    → map_err (λ _. why) (decrypt_xchacha20poly1305 c key nonce ct hb) ≡ ok pt
    → c.unseal key nonce ct hb ≡ some pt
unfolding decrypt_xchacha20poly1305
decrypt-ok c why key nonce ct hb pt h = ground arith

pub decrypted-Unseals :
    (c : Primitives) (ch : CryptoHeader) (hb ct password pt : Bytes)
    → decrypt_with_crypto_header c hb ch ct password ≡ ok pt
    → Unseals c ch hb ct password pt
unfolding decrypt_with_crypto_header
decrypted-Unseals c ch hb ct password pt h =
    let (m, t, l, k) = kdf-cases ch.kdf in
    let (key, d, u) = >>=-eq-ok (derive_key_of c ch.kdf password ch.salt) _ h in
    Unseals-with c ch hb ct password pt key m t l k
      (derive_key_of-ok c ch.kdf m t l password ch.salt key k d)
      (decrypt-ok c VaultParseError.auth_failed key ch.nonce ct hb pt u)

-- What the branches of an envelope answer.
data Answers (r1 r2 : Result VaultParseError Bytes) (pt : Bytes) : UnlockOutcome → Type 0 where
  by_primary : r1 ≡ ok pt → Answers r1 r2 pt primary
  by_decoy : r2 ≡ ok pt → Answers r1 r2 pt decoy

validated-ok :
    (j : VaultJson) (o o' : UnlockOutcome) (pt pt' : Bytes)
    → validated j o pt ≡ ok (o', pt')
    → (o ≡ o') × (pt ≡ pt')
unfolding validated
validated-ok j o o' pt pt' h = ground arith

first_branch-Answers :
    (j : VaultJson) (r1 r2 : Result VaultParseError Bytes) (o : UnlockOutcome) (pt : Bytes)
    → first_branch j r1 r2 ≡ ok (o, pt)
    → Answers r1 r2 pt o
unfolding first_branch
first_branch-Answers j (ok p1) r2 primary pt h =
    by_primary (ap ok (validated-ok j primary primary p1 pt h).1)
first_branch-Answers j (ok p1) r2 decoy pt h =
    let never = (validated-ok j primary decoy p1 pt h).0 in cc
first_branch-Answers j (err e) (ok p2) decoy pt h =
    by_decoy (ap ok (validated-ok j decoy decoy p2 pt h).1)
first_branch-Answers j (err e) (ok p2) primary pt h =
    let never = (validated-ok j decoy primary p2 pt h).0 in cc
first_branch-Answers j (err e) (err f) o pt h = cc

-- The header and ciphertext that a branch of the file holds unseal to what was answered.
pub IsOpened :
    Primitives → VaultJson → ParsedVaultFile → (password : Bytes) → UnlockOutcome → Bytes → Type 0
IsOpened c j parsed password o pt =
    (ch : CryptoHeader) × (ct : Bytes) × (branch_of j parsed o ≡ some (ch, ct))
    × Unseals c ch parsed.header_bytes ct password pt

single-opened :
    (c : Primitives) (j : VaultJson) (parsed : ParsedVaultFile) (password : Bytes)
    (o : UnlockOutcome) (pt : Bytes)
    → parsed.header.duress ≡ none
    → unlock_single c j parsed password ≡ ok (o, pt)
    → IsOpened c j parsed password o pt
unfolding unlock_single branch_of IsOpened
single-opened c j parsed password o pt n h =
    let crypto : CryptoHeader = parsed.header.crypto in
    let (m, t, l, k) = kdf-cases crypto.kdf in
    let (key, d, rest) = >>=-eq-ok (derive_unlock_key c j crypto.kdf password crypto.salt) _ h in
    let (json, u, same) = >>=-eq-ok _ _ rest in
    let pair : ◌≡◌ {A = UnlockOutcome × Bytes} (primary, json) (o, pt) = ok-injective same in
    let unsealed =
      decrypt-ok c UnlockError.auth_failed key crypto.nonce parsed.payload parsed.header_bytes json
        u in
    let is_primary : primary ≡ o = ap (λ x. x.0) pair in
    let shown : branch_of j parsed primary ≡ some (crypto, parsed.payload) = rw n refl in
    (
      crypto,
      parsed.payload,
      ap (branch_of j parsed) (sym is_primary) ∙ shown,
      Unseals-with c crypto parsed.header_bytes parsed.payload password pt key m t l k
          (derive_unlock_key-ok c j crypto.kdf m t l password crypto.salt key k d)
          (unsealed ∙ ap (λ x. some x.1) pair),
    )

branch_of-dual :
    (j : VaultJson) (parsed : ParsedVaultFile) (dh : DualVaultHeader) (e : DualCiphertextEnvelope)
    → parsed.header.duress ≡ some dh
    → j.envelopes.from_slice parsed.payload ≡ some e
    → (branch_of j parsed primary ≡ some (dh.primary, e.primary_ct))
      × (branch_of j parsed decoy ≡ some (dh.decoy, e.decoy_ct))
unfolding branch_of
branch_of-dual j parsed dh e n r = (ground arith, ground arith)

answered-opened :
    (c : Primitives) (j : VaultJson) (parsed : ParsedVaultFile) (dh : DualVaultHeader)
    (e : DualCiphertextEnvelope) (password : Bytes) (o : UnlockOutcome) (pt : Bytes)
    → parsed.header.duress ≡ some dh
    → j.envelopes.from_slice parsed.payload ≡ some e
    → Answers
        (decrypt_with_crypto_header c parsed.header_bytes dh.primary e.primary_ct password)
        (decrypt_with_crypto_header c parsed.header_bytes dh.decoy e.decoy_ct password)
        pt
        o
    → IsOpened c j parsed password o pt
unfolding IsOpened
answered-opened c j parsed dh e password primary pt n r (by_primary d) = (
  dh.primary,
  e.primary_ct,
  (branch_of-dual j parsed dh e n r).0,
  decrypted-Unseals c dh.primary parsed.header_bytes e.primary_ct password pt d,
)
answered-opened c j parsed dh e password decoy pt n r (by_decoy d) = (
  dh.decoy,
  e.decoy_ct,
  (branch_of-dual j parsed dh e n r).1,
  decrypted-Unseals c dh.decoy parsed.header_bytes e.decoy_ct password pt d,
)

dual-opened :
    (c : Primitives) (j : VaultJson) (parsed : ParsedVaultFile) (dh : DualVaultHeader)
    (password : Bytes) (o : UnlockOutcome) (pt : Bytes)
    → parsed.header.duress ≡ some dh
    → unlock_dual c j parsed dh password ≡ ok (o, pt)
    → IsOpened c j parsed password o pt
unfolding unlock_dual unlock_duress_envelope_to_plaintext_json
dual-opened c j parsed dh password o pt n h =
    let (e, r, rest) =
      >>=-eq-ok (ok_or (j.envelopes.from_slice parsed.payload) UnlockError.payload_decode) _ h in
    let r1 = decrypt_with_crypto_header c parsed.header_bytes dh.primary e.primary_ct password in
    let r2 = decrypt_with_crypto_header c parsed.header_bytes dh.decoy e.decoy_ct password in
    answered-opened c j parsed dh e password o pt n (ok_or-ok _ _ e r)
      (first_branch-Answers j r1 r2 o pt (map_err-ok _ (first_branch j r1 r2) (o, pt) rest))

-- A file opens only to what the ciphertext of the answered branch unseals to under the stored header
-- bytes, with a key that Argon2id makes from the password, the salt and the costs of that branch's
-- header; and only when these costs are within the policy.
pub unlocked-IsOpened :
    (c : Primitives) (j : VaultJson) (parsed : ParsedVaultFile) (password : Bytes)
    (o : UnlockOutcome) (pt : Bytes)
    → unlock_vault_to_plaintext_json_with_outcome c j parsed password ≡ ok (o, pt)
    → IsOpened c j parsed password o pt
unfolding unlock_vault_to_plaintext_json_with_outcome
unlocked-IsOpened c j parsed password o pt h =
    let (encrypted_mode, rest) = guard-eq-ok (not (is_plaintext parsed.mode)) _ _ h in
    elim (Option-cases parsed.header.duress) [
      | inl n ↦ single-opened c j parsed password o pt n (rw n at rest)
      | inr (dh, n) ↦ dual-opened c j parsed dh password o pt n (rw n at rest)
    ]
