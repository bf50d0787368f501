-- ===== src/Crypto/Bounds.antt =====
-- The policy on Argon2id's cost (crypto/kdf.rs).
use viper_vault.Base.{ℕ, ◌≤◌, ◌≡◌, Bytes, ok, arith}
use viper_vault.Crypto.{Primitives, validate_argon2id_params, derive_master_key_from_password}

-- The costs that the policy takes.
abbrev pub AreWithinPolicy : (mem_kib time_cost lanes : ℕ) → Type 0
AreWithinPolicy mem_kib time_cost lanes =
    (65536 ≤ mem_kib) × (mem_kib ≤ 524288) × (3 ≤ time_cost) × (time_cost ≤ 5) × (lanes ≡ 1)

-- A key is only ever derived at a cost within the policy.
pub derived-AreWithinPolicy :
    (c : Primitives) (password salt : Bytes) (mem_kib time_cost lanes : ℕ) (key : Bytes)
    → derive_master_key_from_password c password salt mem_kib time_cost lanes ≡ ok key
    → AreWithinPolicy mem_kib time_cost lanes
unfolding derive_master_key_from_password validate_argon2id_params
derived-AreWithinPolicy c password salt mem_kib time_cost lanes key h = ground arith
