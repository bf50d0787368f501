-- ===== src/Vault/Storage/Writer.antt =====
-- The transactional writer over a storage backend (vault/storage.rs).
use viper_vault.Base.{Result, ok, err, Done, Bytes}
use viper_vault.Text.{Str}
use viper_vault.Vault.Storage.Disk.{
  VaultPath, VaultStorageError, parent, file_name, Op, Trace, Step, call, answer_of, ◌>>=◌, ◌>>◌,
}

-- The trait `StorageBackend`; a temporary file is known by its path.
pub record StorageBackend : Type 0 where
  pub temp_path_for : (dir : VaultPath) → (base_name : Str) → VaultPath
  pub create_temp_file : VaultPath → Op VaultStorageError Done
  pub write_all : VaultPath → Bytes → Op VaultStorageError Done
  pub sync_temp_file : VaultPath → Op VaultStorageError Done
  pub rename : (source target : VaultPath) → Op VaultStorageError Done
  pub remove_file : VaultPath → Op VaultStorageError Done
  pub sync_parent_dir : VaultPath → Op VaultStorageError Done

-- The closure that makes, fills and moves the temporary file.
unfoldable pub replace_target : StorageBackend → (tmp_path path dir : VaultPath) → Bytes → Step Done
replace_target b tmp_path path dir bytes = do
  call (b.create_temp_file tmp_path)
  call (b.write_all tmp_path bytes)
  call (b.sync_temp_file tmp_path)
  call (b.rename tmp_path path)
  call (b.sync_parent_dir dir)

-- `if result.is_err() { let _ = backend.remove_file(&tmp_path); } result`
unfoldable pub clean_up :
    Op VaultStorageError Done
    → Trace × Result VaultStorageError Done
    → Trace × Result VaultStorageError Done
clean_up remove (t, ok _) = (t, ok tt)
clean_up remove (t, err e) = ((call remove t).0, err e)

unfoldable pub write_vault_atomic_with_backend : StorageBackend → VaultPath → Bytes → Step Done
unfolding parent file_name replace_target clean_up
write_vault_atomic_with_backend b path bytes = do
  dir ← answer_of (parent path)
  base_name ← answer_of (file_name path)
  let tmp_path : VaultPath = b.temp_path_for dir base_name
  λ t. clean_up (b.remove_file tmp_path) (replace_target b tmp_path path dir bytes t)
