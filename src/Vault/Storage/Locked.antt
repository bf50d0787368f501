-- ===== src/Vault/Storage/Locked.antt =====
-- The entry points of the storage module and the lock file that they hold (vault/storage.rs). The
-- lock is released when the call returns, which changes no file.
use viper_vault.Base.{[], ◌∷◌, ◌++◌, Result, ok, err, Done, Bytes}
use viper_vault.Text.{Str}
use viper_vault.Vault.Storage.Disk.{
  VaultPath, VaultStorageError, invalid_path, io, lock, lock_suffix, parent, map_answer, Step, call,
  answer_of, ◌>>=◌, ◌>>◌,
}
use viper_vault.Vault.Storage.Writer.{write_vault_atomic_with_backend}
use viper_vault.Vault.Storage.Backend.{Os, real_storage_backend}

-- `vault.bin.lock` beside `vault.bin`
unfoldable pub lock_path_for : VaultPath → Result VaultStorageError VaultPath
lock_path_for [] = err invalid_path
lock_path_for (base_name ∷ dir) = ok ((base_name ++ lock_suffix) ∷ dir)

module _ (os : Os) where
  unfoldable pub open_lock_file : VaultPath → Step Done
  unfolding map_answer
  open_lock_file path = call (map_answer io (os.open_or_create path))

  unfoldable pub lock_shared : VaultPath → Step Done
  unfolding lock_path_for open_lock_file map_answer
  lock_shared vault_path = do
    lock_path ← answer_of (lock_path_for vault_path)
    open_lock_file lock_path
    call (map_answer lock (os.lock_shared lock_path))

  unfoldable pub lock_exclusive : VaultPath → Step Done
  unfolding lock_path_for open_lock_file map_answer
  lock_exclusive vault_path = do
    lock_path ← answer_of (lock_path_for vault_path)
    open_lock_file lock_path
    call (map_answer lock (os.lock_exclusive lock_path))

  unfoldable pub read_vault_bytes : VaultPath → Step Bytes
  unfolding map_answer
  read_vault_bytes path = call (map_answer io (os.read_to_end path))

  unfoldable pub read_vault_locked : VaultPath → Step Bytes
  unfolding lock_shared read_vault_bytes
  read_vault_locked path = do lock_shared path; read_vault_bytes path

  unfoldable pub write_vault_atomic : (suffix : Str) → VaultPath → Bytes → Step Done
  unfolding parent lock_exclusive real_storage_backend write_vault_atomic_with_backend map_answer
  write_vault_atomic suffix path bytes = do
    dir ← answer_of (parent path)
    call (map_answer io (os.create_dir_all dir))
    lock_exclusive path
    write_vault_atomic_with_backend (real_storage_backend os suffix) path bytes
