-- ===== src/Vault/Storage/Backend.antt =====
-- What the writer relies on, and the production backend (vault/storage.rs).
use viper_vault.Base.{
  ◌≡◌, ◌≢◌, ℕ, Bool, true, List, [], ◌∷◌, ◌++◌, none, some, ok, err, Done, Bytes,
}
use viper_vault.Text.{Str}
use viper_vault.Vault.Storage.Disk.{
  VaultPath, VaultStorageError, io, temp_path_for, Disk, Op, map_answer,
}
use viper_vault.Vault.Storage.Writer.{StorageBackend}

abbrev pub AllDisks : (Disk → Type 0) → List Disk → Type 0
AllDisks P [] = Unit {0}
AllDisks P (d ∷ ds) = P d × AllDisks P ds

-- The disks differ at most at one path.
abbrev pub IsSameBut : VaultPath → Disk → Disk → Type 0
IsSameBut p d d' = (q : VaultPath) → q ≢ p → d' q ≡ d q

abbrev pub IsSame : Disk → Disk → Type 0
IsSame d d' = (q : VaultPath) → d' q ≡ d q

-- What the operation touches: one path, whether it succeeds, fails or is interrupted.
abbrev pub OnlyTouches : {E A : Type 0} → VaultPath → Op E A → Type 0
OnlyTouches p op = (d : Disk) → AllDisks (IsSameBut p d) (op d).passed × IsSameBut p d (op d).after

abbrev pub TouchesNothing : {E A : Type 0} → Op E A → Type 0
TouchesNothing op = (d : Disk) → AllDisks (IsSame d) (op d).passed × IsSame d (op d).after

-- The documented behaviour of the system calls behind a backend.
pub record IsBackend (b : StorageBackend) : Type 0 where
  pub create_touches : (p : VaultPath) → OnlyTouches p (b.create_temp_file p)
  pub create_makes :
      (p : VaultPath) (d : Disk)
      → (b.create_temp_file p d).answer ≡ ok tt
      → (s : Bool) × ((b.create_temp_file p d).after p ≡ some (record { bytes = []; synced = s }))
  pub write_touches : (p : VaultPath) (bs : Bytes) → OnlyTouches p (b.write_all p bs)
  pub write_appends :
      (p : VaultPath) (bs old : Bytes) (s : Bool) (d : Disk)
      → d p ≡ some (record { bytes = old; synced = s })
      → (b.write_all p bs d).answer ≡ ok tt
      → (s' : Bool) × ((b.write_all p bs d).after p
          ≡ some (record { bytes = old ++ bs; synced = s' }))
  pub sync_touches : (p : VaultPath) → OnlyTouches p (b.sync_temp_file p)
  pub sync_syncs :
      (p : VaultPath) (bs : Bytes) (s : Bool) (d : Disk)
      → d p ≡ some (record { bytes = bs; synced = s })
      → (b.sync_temp_file p d).answer ≡ ok tt
      → (b.sync_temp_file p d).after p ≡ some (record { bytes = bs; synced = true })
  -- `rename` is atomic: it passes through no other disk.
  pub rename_atomic : (p q : VaultPath) (d : Disk) → (b.rename p q d).passed ≡ []
  pub rename_moves :
      (p q : VaultPath) (d : Disk)
      → p ≢ q
      → (b.rename p q d).answer ≡ ok tt
      → ((b.rename p q d).after q ≡ d p)
        × ((b.rename p q d).after p ≡ none)
        × ((r : VaultPath) → r ≢ p → r ≢ q → (b.rename p q d).after r ≡ d r)
  pub rename_fails :
      (p q : VaultPath) (d : Disk) (e : VaultStorageError)
      → (b.rename p q d).answer ≡ err e
      → IsSame d (b.rename p q d).after
  pub remove_touches : (p : VaultPath) → OnlyTouches p (b.remove_file p)
  pub remove_removes :
      (p : VaultPath) (d : Disk)
      → (b.remove_file p d).answer ≡ ok tt
      → (b.remove_file p d).after p ≡ none
  pub remove_fails :
      (p : VaultPath) (d : Disk) (e : VaultStorageError)
      → (b.remove_file p d).answer ≡ err e
      → IsSame d (b.remove_file p d).after
  pub dir_touches : (dir : VaultPath) → TouchesNothing (b.sync_parent_dir dir)

-- The system calls that the module makes, with `std::io::Error` as a number. `write_all`,
-- `sync_all` and the locks are on an open file, known by its path.
pub record Os : Type 0 where
  pub create_new : VaultPath → Op ℕ Done
  pub write_all : VaultPath → Bytes → Op ℕ Done
  pub sync_all : VaultPath → Op ℕ Done
  pub rename : (source target : VaultPath) → Op ℕ Done
  pub remove_file : VaultPath → Op ℕ Done
  pub sync_dir : VaultPath → Op ℕ Done
  pub create_dir_all : VaultPath → Op ℕ Done
  pub open_or_create : VaultPath → Op ℕ Done
  pub lock_shared : VaultPath → Op ℕ Done
  pub lock_exclusive : VaultPath → Op ℕ Done
  pub read_to_end : VaultPath → Op ℕ Bytes

-- `RealStorageBackend`, with the text of the UUID that a temporary path draws.
unfoldable pub real_storage_backend : Os → (suffix : Str) → StorageBackend
unfolding temp_path_for map_answer
real_storage_backend os suffix = record {
  temp_path_for = temp_path_for suffix;
  create_temp_file = λ p. map_answer io (os.create_new p);
  write_all = λ p bs. map_answer io (os.write_all p bs);
  sync_temp_file = λ p. map_answer io (os.sync_all p);
  rename = λ p q. map_answer io (os.rename p q);
  remove_file = λ p. map_answer io (os.remove_file p);
  sync_parent_dir = λ dir. map_answer io (os.sync_dir dir);
}
