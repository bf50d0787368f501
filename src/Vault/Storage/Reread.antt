-- ===== src/Vault/Storage/Reread.antt =====
-- Reading a vault that was saved (vault/storage.rs).
use viper_vault.Base.{◌≡◌, refl, ◌∙◌, [], ◌∷◌, some, Result, ok, Done, Bytes}
use mathlib.Core.Path.{subst}
use viper_vault.Text.{Str}
use viper_vault.Vault.Storage.Disk.{
  VaultPath, VaultStorageError, Stored, Disk, map_answer, temp_path_for,
}
use viper_vault.Vault.Storage.Backend.{IsBackend, Os, real_storage_backend}
use viper_vault.Vault.Storage.Hoare.{Ends}
use viper_vault.Vault.Storage.Atomic.{IsDone, written}
use viper_vault.Vault.Storage.Locked.{
  lock_path_for, open_lock_file, lock_shared, read_vault_bytes, read_vault_locked,
  write_vault_atomic,
}
use viper_vault.Vault.Storage.Saved.{IsOs, lock_of, lock-differs, Unsaved, save-IsSafe}

-- The lock file opens, the lock is granted, and a file that is there is read to its end.
pub record IsReadable (os : Os) : Type 0 where
  pub opens : (p : VaultPath) (d : Disk) → (os.open_or_create p d).answer ≡ ok tt
  pub locks : (p : VaultPath) (d : Disk) → (os.lock_shared p d).answer ≡ ok tt
  pub reads :
      (p : VaultPath) (d : Disk) (f : Stored)
      → d p ≡ some f
      → (os.read_to_end p d).answer ≡ ok f.bytes

read_vault_locked-some :
    (os : Os) (dir : VaultPath) (name : Str) (d : Disk) (f : Stored)
    → IsOs os
    → IsReadable os
    → d (name ∷ dir) ≡ some f
    → (read_vault_locked os (name ∷ dir) (record { disk = d; seen = [] })).1 ≡ ok f.bytes
unfolding read_vault_locked lock_shared lock_path_for open_lock_file read_vault_bytes map_answer
read_vault_locked-some os dir name d f laws r there =
    let path : VaultPath = name ∷ dir in
    let lock_path : VaultPath = lock_of dir name in
    let d1 : Disk = (os.open_or_create lock_path d).after in
    let d2 : Disk = (os.lock_shared lock_path d1).after in
    let kept1 : d1 path ≡ d path = (laws.open_touches lock_path d).1 path (lock-differs dir name) in
    let kept2 : d2 path ≡ d1 path = (laws.shared_touches lock_path d1).1 path in
    let opened = r.opens lock_path d in
    let locked = r.locks lock_path d1 in
    let bytes = r.reads path d2 f (kept2 ∙ (kept1 ∙ there)) in rw (opened, locked, bytes) refl

ended-well :
    (Good Bad : Disk → Type 0) (d : Disk) (r : Result VaultStorageError Done)
    → r ≡ ok tt
    → Ends Good Bad d r
    → Good d
ended-well Good Bad d r h ends = subst (Ends Good Bad d) h ends

-- What a save that succeeds wrote is what reading the vault answers next, when the lock file can be
-- opened and locked and files that are there can be read.
pub save_then_read :
    (os : Os) (suffix : Str) (dir : VaultPath) (name : Str) (bytes : Bytes) (d0 : Disk)
    → IsOs os
    → IsBackend (real_storage_backend os suffix)
    → IsReadable os
    → (write_vault_atomic os suffix (name ∷ dir) bytes (record { disk = d0; seen = [] })).1 ≡ ok tt
    → (read_vault_locked os (name ∷ dir) (record {
      disk =
          (write_vault_atomic os suffix
            (name ∷ dir)
            bytes
            (record { disk = d0; seen = [] })).0.disk;
      seen = [];
    })).1
      ≡ ok bytes
save_then_read os suffix dir name bytes d0 laws backend readable saved =
    let done =
      ended-well (IsDone (temp_path_for suffix dir name) (lock_of dir name) (name ∷ dir) bytes d0)
        (Unsaved os suffix dir name bytes d0) _ _ saved
        (save-IsSafe os suffix dir name bytes d0 laws backend).1 in
    read_vault_locked-some os dir name _ (written bytes) laws readable done.0.new_target
