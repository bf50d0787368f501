-- ===== src/Examples/Containers.antt =====
-- Vault containers and TOTP codes (vault/codec.rs, totp/engine.rs).
use viper_vault.Base.{
  ℕ, zero, suc, ◌≡◌, ◌↔◌, refl, [], ◌∷◌, none, some, true, false, ok, Bytes, all-AreBytes, to_le,
  arith,
}
use viper_vault.Text.{len}
use viper_vault.Session.{not_debugged}
use viper_vault.Entries.Types.{TotpSecret, sha1, validate_base32}
use viper_vault.Vault.Types.{
  VaultHeader, CryptoHeader, ParsedVaultFile, argon2id, xchacha20_poly1305, encrypted,
  encrypted_storage,
}
use viper_vault.Vault.Codec.{HeaderJson, container, encode_vault_storage, decode_vault_file}
use viper_vault.Vault.Codec.RoundTrip.{IsAcceptable, bytes_of, decode-encode}
use viper_vault.Vault.Codec.Inversion.{decode_iff}
use viper_vault.Totp.{Base32, Hmac, totp_generate_from_secret, totp_verify}
use viper_vault.Totp.Window.{totp_verify-generated}

abbrev crypto : CryptoHeader
crypto = record {
  kdf = argon2id 65536 3 1;
  aead = xchacha20_poly1305;
  salt = 7 ∷ [];
  nonce = 9 ∷ [];
}

abbrev header : VaultHeader
header = record { schema_version = 1; vault_id = 42; crypto = crypto; duress = none }

-- A header format with this one header in it.
abbrev json : HeaderJson
json = record { to_vec = λ _. some (b'{' ∷ b'}' ∷ []); from_slice = λ _. some header }

abbrev file : ParsedVaultFile
file = record {
  format_version = 1;
  header = header;
  header_bytes = b'{' ∷ b'}' ∷ [];
  mode = encrypted;
  payload = 5 ∷ 6 ∷ [];
}

decode-encode_example :
    decode_vault_file json not_debugged (bytes_of file) (some 1) 1024 false ≡ ok file
unfolding encode_vault_storage
decode-encode_example =
    decode-encode json not_debugged not_debugged header (encrypted_storage (5 ∷ 6 ∷ [])) 1
      (b'{' ∷ b'}' ∷ []) (bytes_of file) (some 1) 1024 false refl refl (omega arith) (omega arith)
      (omega arith) (omega arith) refl (λ q. cc) refl

decode_iff_example :
    decode_vault_file json not_debugged (bytes_of file) none 1024 false ≡ ok file
    ↔ IsAcceptable json not_debugged none 1024 false file × (bytes_of file ≡ bytes_of file)
unfolding container to_le
decode_iff_example =
    decode_iff json not_debugged none 1024 false (bytes_of file) file
      (all-AreBytes (bytes_of file) refl)

abbrev key_block : TotpSecret
key_block = record {
  issuer = none;
  account_name = none;
  secret_b32 = b'M' ∷ b'Z' ∷ b'X' ∷ b'W' ∷ b'6' ∷ b'Y' ∷ b'T' ∷ b'B' ∷ [];
  digits = 6;
  period_secs = 30;
  algorithm = sha1;
}

abbrev repeated : ℕ → ℕ → Bytes
repeated zero b = []
repeated (suc n) b = b ∷ repeated n b

abbrev codec : Base32
codec = record { unpadded = λ _ _. some (repeated 16 1); padded = λ _ _. none }

abbrev constant_hmac : Hmac
constant_hmac _ _ _ = some (repeated 20 3)

totp_verify-generated_example : totp_verify codec constant_hmac key_block 1040 529027 1 ≡ ok true
unfolding totp_generate_from_secret validate_base32 len
totp_verify-generated_example =
    totp_verify-generated codec constant_hmac key_block 1000 1040 529027 1
      (λ _ _ _. (repeated 20 3, refl, omega arith)) (omega arith) (omega arith) (omega arith)
      (omega arith) refl
