-- ===== src/Unlock/Reopened.antt =====
-- Writing a vault file and opening what was written (vault/codec.rs, core/unlock.rs).
use viper_vault.Base.{
  ℕ, ◌≡◌, refl, ap, ◌∙◌, ◌<◌, ◌≤◌, Bool, true, false, Option, none, some, ok, ◌>>=◌, Bytes, length,
  ◌^◌, arith, List,
}
use viper_vault.Entries.Types.{VaultEntry}
use viper_vault.Session.{RuntimeInspectionState, UnlockOutcome, primary}
use viper_vault.Crypto.{Primitives, derive_master_key_from_password, decrypt_xchacha20poly1305}
use viper_vault.Crud.{decode_payload_from_plaintext_json}
use viper_vault.Vault.Types.{
  VaultFile, DualVaultHeader, DualCiphertextEnvelope, ParsedVaultFile, encrypted, argon2id,
}
use viper_vault.Vault.Codec.{
  HeaderJson, is_plaintext, storage_mode, storage_bytes, encode_vault_storage, decode_vault_file,
  matches_expected,
}
use viper_vault.Vault.Codec.RoundTrip.{decode-encode}
use viper_vault.Vault.Duress.{VaultJson, unlock_duress_envelope_to_plaintext_json}
use viper_vault.Unlock.{
  decode_unlocked, unlock_dual, unlock_single, derive_unlock_key,
  unlock_vault_to_plaintext_json_with_outcome, unlock_vault_with_outcome,
}
use viper_vault.Unlock.Agrees.{decoded, unlock-decodes}

-- What reading a written file should give.
abbrev pub parsed_of : (v : ℕ) (hb : Bytes) → VaultFile → ParsedVaultFile
parsed_of v hb file = record {
  format_version = v;
  header = file.header;
  header_bytes = hb;
  mode = storage_mode file.storage;
  payload = storage_bytes file.storage;
}

-- An encrypted file was written to bytes that a reader with these settings takes: its header's JSON
-- reads back, and its lengths and version fit.
pub record IsWritten (j : HeaderJson) (probed : RuntimeInspectionState) (expected : Option ℕ)
    (max_len v : ℕ) (hb out : Bytes) (file : VaultFile) : Type 0 where
  pub writes : j.to_vec file.header ≡ some hb
  pub reads : j.from_slice hb ≡ some file.header
  pub header_fits : length hb < 2 ^ 32
  pub payload_fits :
      (length (storage_bytes file.storage) ≤ max_len)
      × (length (storage_bytes file.storage) < 2 ^ 64)
  pub version_fits : v < 2 ^ 16
  pub expects : matches_expected expected v ≡ true
  pub not_plaintext : is_plaintext (storage_mode file.storage) ≡ false
  pub encoded : encode_vault_storage j probed file.header file.storage v ≡ ok out

pub reopened :
    (j : HeaderJson) (probed probed' : RuntimeInspectionState) (expected : Option ℕ) (max_len v : ℕ)
    (hb out : Bytes) (file : VaultFile) (allow : Bool)
    → IsWritten j probed expected max_len v hb out file
    → decode_vault_file j probed' out expected max_len allow ≡ ok (parsed_of v hb file)
reopened j probed probed' expected max_len v hb out file allow w =
    let closed = w.not_plaintext in
    decode-encode j probed probed' file.header file.storage v hb out expected max_len allow w.writes
      w.reads w.header_fits w.payload_fits.0 w.payload_fits.1 w.version_fits w.expects (λ q. cc)
      w.encoded

-- A payload's JSON that opens, opens to the payload.
pub opens-payload :
    (c : Primitives) (j : VaultJson) (p : ParsedVaultFile) (password : Bytes) (o : UnlockOutcome)
    (json : Bytes) (payload : List VaultEntry)
    → unlock_vault_to_plaintext_json_with_outcome c j p password ≡ ok (o, json)
    → decode_payload_from_plaintext_json j.payloads json ≡ some payload
    → unlock_vault_with_outcome c j p password ≡ ok (o, payload)
unfolding decode_unlocked
opens-payload c j p password o json payload h k =
    unlock-decodes c j p password ∙ (ap (λ r. r >>= decoded j) h ∙ rw k refl)

-- A file with a duress header opens as its envelope does.
pub opens-envelope :
    (c : Primitives) (j : VaultJson) (p : ParsedVaultFile) (dh : DualVaultHeader)
    (e : DualCiphertextEnvelope) (password : Bytes) (o : UnlockOutcome) (json : Bytes)
    → p.mode ≡ encrypted
    → p.header.duress ≡ some dh
    → j.envelopes.from_slice p.payload ≡ some e
    → unlock_duress_envelope_to_plaintext_json c j p.header_bytes dh e password ≡ ok (o, json)
    → unlock_vault_to_plaintext_json_with_outcome c j p password ≡ ok (o, json)
unfolding unlock_vault_to_plaintext_json_with_outcome unlock_dual
opens-envelope c j p dh e password o json m d r u = ground arith

-- A file without one opens when its ciphertext unseals under the derived key.
pub opens-single :
    (c : Primitives) (j : VaultJson) (p : ParsedVaultFile) (m t l : ℕ) (key password json : Bytes)
    → p.mode ≡ encrypted
    → p.header.duress ≡ none
    → p.header.crypto.kdf ≡ argon2id m t l
    → derive_master_key_from_password c password p.header.crypto.salt m t l ≡ ok key
    → c.unseal key p.header.crypto.nonce p.payload p.header_bytes ≡ some json
    → unlock_vault_to_plaintext_json_with_outcome c j p password ≡ ok (primary, json)
unfolding unlock_vault_to_plaintext_json_with_outcome unlock_single derive_unlock_key
    decrypt_xchacha20poly1305
opens-single c j p m t l key password json e n k d u = ground arith

-- `serde_json` reads back what it wrote: the envelopes, and a payload at hand.
abbrev pub EnvelopesReadBack : VaultJson → Type 0
EnvelopesReadBack j =
    (e : DualCiphertextEnvelope) (bs : Bytes)
    → j.envelopes.to_vec e ≡ some bs
    → j.envelopes.from_slice bs ≡ some e

abbrev pub ReadsBack : VaultJson → List VaultEntry → Type 0
ReadsBack j payload =
    (json : Bytes)
    → j.payloads.to_vec payload ≡ some json
    → decode_payload_from_plaintext_json j.payloads json ≡ some payload
