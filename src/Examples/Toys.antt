-- ===== src/Examples/Toys.antt =====
-- A cipher, a serializer and two vault files to try the theorems on (crypto, vault/create.rs).
use viper_vault.Base.{
  ℕ, ◌≡◌, refl, true, List, [], ◌∷◌, ◌++◌, Option, none, some, err, Bytes, length, take, drop, ◌==◌,
  if◌then◌else◌, take-length_append, drop-length_append, ok-injective, some-injective, arith,
  ==_refl,
}
use mathlib.Core.Path.{subst}
use viper_vault.Text.{len}
use viper_vault.Session.{not_debugged}
use viper_vault.Entries.Types.{VaultEntry, validate_invariants}
use viper_vault.Crypto.{
  Primitives, derive_master_key_from_password, validate_argon2id_params, encrypt_xchacha20poly1305,
  decrypt_xchacha20poly1305,
}
use viper_vault.Crud.{decode_payload_from_plaintext_json, deserialize_entries}
use viper_vault.Vault.Types.{
  VaultParseError, VaultHeader, VaultFile, CryptoHeader, encrypted_storage, encrypted, argon2id,
  xchacha20_poly1305, auth_failed,
}
use viper_vault.Vault.Codec.{container, encode_vault_storage, serialize_header_json}
use viper_vault.Vault.Duress.{
  VaultJson, encrypt_with_crypto_header, decrypt_with_crypto_header, derive_key_of,
}
use viper_vault.Vault.Duress.Opens.{IsAead, AreApart}
use viper_vault.Vault.Create.{VaultKdfPolicy, DualDraws}
use viper_vault.Unlock.Reopened.{IsWritten, EnvelopesReadBack, ReadsBack}
use viper_vault.Examples.Stored.{mail}

abbrev pub unseal_by : (key ct : Bytes) → Option Bytes
unseal_by key [] = none
unseal_by key (n ∷ pt) = if n == length key then some pt else none

-- A key is the password, and a ciphertext tells only the length of its key.
abbrev pub toy : Primitives
toy = record {
  new_params = λ _ _ _. true;
  hash = λ _ _ _ pw _. some pw;
  seal = λ key _ pt _. some (length key ∷ pt);
  unseal = λ key _ ct _. unseal_by key ct;
}

pub toy-IsAead : IsAead toy
toy-IsAead key nonce pt aad ct h =
    subst (λ x. unseal_by key x ≡ some pt) (some-injective h) (rw (==_refl (length key)) refl)

abbrev pub entries_of : ℕ → List VaultEntry
entries_of n = if n == 0 then [] else mail ∷ []

abbrev pub json_of : VaultHeader → VaultJson
json_of h = record {
  headers = record { to_vec = λ _. some (b'{' ∷ b'}' ∷ []); from_slice = λ _. some h };
  envelopes = record {
    to_vec = λ e. some (length e.primary_ct ∷ (e.primary_ct ++ e.decoy_ct));
    from_slice = λ b. elim b [
      | [] ↦ none
      | n ∷ rest ↦ some (record { primary_ct = take n rest; decoy_ct = drop n rest })
    ];
  };
  payloads = record {
    to_vec = λ es. elim es [ [] ↦ some (0 ∷ []) | _ ∷ _ ↦ some (1 ∷ []) ];
    from_slice = λ b. elim b [ [] ↦ none | n ∷ _ ↦ some (entries_of n) ];
  };
}

pub envelopes-ReadBack : (h : VaultHeader) → EnvelopesReadBack (json_of h)
envelopes-ReadBack h e bs w =
    subst (λ x. (json_of h).envelopes.from_slice x ≡ some e) (some-injective w)
      (rw (take-length_append e.primary_ct e.decoy_ct, drop-length_append e.primary_ct e.decoy_ct)
        refl)

pub mail-ReadsBack : (h : VaultHeader) → ReadsBack (json_of h) (mail ∷ [])
unfolding decode_payload_from_plaintext_json deserialize_entries validate_invariants len
mail-ReadsBack h json w =
    subst (λ x. decode_payload_from_plaintext_json (json_of h).payloads x ≡ some (mail ∷ []))
      (some-injective w) refl

pub empty-ReadsBack : (h : VaultHeader) → ReadsBack (json_of h) []
unfolding decode_payload_from_plaintext_json deserialize_entries
empty-ReadsBack h json w =
    subst (λ x. decode_payload_from_plaintext_json (json_of h).payloads x ≡ some [])
      (some-injective w) refl

abbrev pub kdf : VaultKdfPolicy
kdf = record { mem_kib = 65536; time_cost = 3; lanes = 1 }

abbrev pub drawn : DualDraws
drawn = record {
  salt1 = some (1 ∷ []);
  nonce1 = some (2 ∷ []);
  salt2 = some (3 ∷ []);
  nonce2 = some (4 ∷ []);
}

-- The headers of the vaults below.
abbrev pub crypto : (salt nonce : ℕ) → CryptoHeader
crypto salt nonce = record {
  kdf = argon2id 65536 3 1;
  aead = xchacha20_poly1305;
  salt = salt ∷ [];
  nonce = nonce ∷ [];
}

abbrev pub single_header : VaultHeader
single_header = record { schema_version = 1; vault_id = 42; crypto = crypto 1 2; duress = none }

abbrev pub dual_header : VaultHeader
dual_header = record {
  schema_version = 1;
  vault_id = 42;
  crypto = crypto 1 2;
  duress = some (record { primary = crypto 1 2; decoy = crypto 3 4 });
}

abbrev pub single_file : VaultFile
single_file = record { header = single_header; storage = encrypted_storage (1 ∷ 1 ∷ []) }

-- Passwords of one and of two bytes seal the payloads `1` and `0`.
abbrev pub dual_file : VaultFile
dual_file = record { header = dual_header; storage = encrypted_storage (2 ∷ 1 ∷ 1 ∷ 2 ∷ 0 ∷ []) }

pub single_file-IsWritten :
    IsWritten
      (json_of single_header).headers
      not_debugged
      (some 1)
      1024
      1
      (b'{' ∷ b'}' ∷ [])
      (container 1 encrypted (b'{' ∷ b'}' ∷ []) (1 ∷ 1 ∷ []))
      single_file
unfolding encode_vault_storage serialize_header_json
single_file-IsWritten = record {
  writes = refl;
  reads = refl;
  header_fits = omega arith;
  payload_fits = (omega arith, omega arith);
  version_fits = omega arith;
  expects = refl;
  not_plaintext = refl;
  encoded = refl;
}

pub dual_file-IsWritten :
    IsWritten
      (json_of dual_header).headers
      not_debugged
      (some 1)
      1024
      1
      (b'{' ∷ b'}' ∷ [])
      (container 1 encrypted (b'{' ∷ b'}' ∷ []) (2 ∷ 1 ∷ 1 ∷ 2 ∷ 0 ∷ []))
      dual_file
unfolding encode_vault_storage serialize_header_json
dual_file-IsWritten = record {
  writes = refl;
  reads = refl;
  header_fits = omega arith;
  payload_fits = (omega arith, omega arith);
  version_fits = omega arith;
  expects = refl;
  not_plaintext = refl;
  encoded = refl;
}

pub apart : AreApart toy (crypto 1 2) (7 ∷ []) (7 ∷ 8 ∷ [])
unfolding encrypt_with_crypto_header decrypt_with_crypto_header derive_key_of
    derive_master_key_from_password validate_argon2id_params encrypt_xchacha20poly1305
    decrypt_xchacha20poly1305
apart hb pt ct h =
    subst
      (λ x.
        (e : VaultParseError) × (decrypt_with_crypto_header toy hb (crypto 1 2) x (7 ∷ 8 ∷ [])
          ≡ err e))
      (ok-injective h) (auth_failed, refl)
