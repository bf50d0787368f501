-- ===== src/Crypto.antt =====
-- Key derivation and authenticated encryption: core/crates/vipervault-core/src/crypto. Argon2id and
-- XChaCha20-Poly1305 themselves are parameters; a password is its UTF-8 bytes.
use viper_vault.Base.{
  ℕ, ◌*◌, Bool, not, ◌||◌, Option, Result, err, ok, Done, ◌>>=◌, ◌>>◌, Bytes, within, ◌==◌, ◌&&◌,
  if◌then◌else◌, guard, ok_or,
}
pub mod Bounds

-- The crates argon2 and chacha20poly1305. `new_params` tells whether `Params::new` takes the
-- numbers, `hash` is `hash_password_into` for an output of 32 bytes, and `none` is their error.
pub record Primitives : Type 0 where
  pub new_params : (mem_kib time_cost lanes : ℕ) → Bool
  pub hash : (mem_kib time_cost lanes : ℕ) → (password salt : Bytes) → Option Bytes
  pub seal : (key nonce plaintext aad : Bytes) → Option Bytes
  pub unseal : (key nonce ciphertext aad : Bytes) → Option Bytes

abbrev pub default_argon2id_mem_kib : ℕ
default_argon2id_mem_kib = 64 * 1024

abbrev pub default_argon2id_time_cost : ℕ
default_argon2id_time_cost = 3

abbrev pub default_argon2id_lanes : ℕ
default_argon2id_lanes = 1

abbrev pub max_argon2id_mem_kib : ℕ
max_argon2id_mem_kib = 512 * 1024

abbrev pub max_argon2id_time_cost : ℕ
max_argon2id_time_cost = 5

pub data KdfError : Type 0 where
  invalid_params argon2_failure sys_rng : KdfError

pub data AeadError : Type 0 where
  sys_rng encrypt decrypt : AeadError

unfoldable pub validate_argon2id_params : (mem_kib time_cost lanes : ℕ) → Result KdfError Done
validate_argon2id_params mem_kib time_cost lanes =
    if not (within default_argon2id_mem_kib max_argon2id_mem_kib mem_kib)
      || not (within default_argon2id_time_cost max_argon2id_time_cost time_cost)
      || not (lanes == default_argon2id_lanes)
    then err invalid_params
    else ok tt

unfoldable pub derive_master_key_from_password :
    Primitives → (password salt : Bytes) → (mem_kib time_cost lanes : ℕ) → Result KdfError Bytes
unfolding validate_argon2id_params
derive_master_key_from_password c password salt mem_kib time_cost lanes = do
  validate_argon2id_params mem_kib time_cost lanes
  guard (c.new_params mem_kib time_cost lanes) invalid_params
  ok_or (c.hash mem_kib time_cost lanes password salt) argon2_failure

-- `SysRng.try_fill_bytes` answers the bytes drawn, or fails.
unfoldable pub generate_vault_salt : (drawn : Option Bytes) → Result KdfError Bytes
generate_vault_salt drawn = ok_or drawn KdfError.sys_rng

unfoldable pub generate_xchacha20_nonce : (drawn : Option Bytes) → Result AeadError Bytes
generate_xchacha20_nonce drawn = ok_or drawn AeadError.sys_rng

unfoldable pub encrypt_xchacha20poly1305 :
    Primitives → (key nonce plaintext aad : Bytes) → Result AeadError Bytes
encrypt_xchacha20poly1305 c key nonce plaintext aad = ok_or (c.seal key nonce plaintext aad) encrypt

unfoldable pub decrypt_xchacha20poly1305 :
    Primitives → (key nonce ciphertext aad : Bytes) → Result AeadError Bytes
decrypt_xchacha20poly1305 c key nonce ciphertext aad =
    ok_or (c.unseal key nonce ciphertext aad) decrypt
