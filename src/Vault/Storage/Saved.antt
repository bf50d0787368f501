-- ===== src/Vault/Storage/Saved.antt =====
-- Saving a vault under its lock, and reading what was saved (vault/storage.rs).
use viper_vault.Base.{
  ◌≡◌, ◌≢◌, refl, ap, ◌∙◌, ◌⊎◌, inl, inr, ℕ, [], ◌∷◌, ◌++◌, Bytes, length-append, arith,
}
use viper_vault.Text.{Str}
use viper_vault.Vault.Storage.Disk.{
  VaultPath, VaultStorageError, io, lock, Disk, Op, call, parent, map_answer, temp_path_for,
  lock_suffix, head_length,
}
use viper_vault.Vault.Storage.Writer.{write_vault_atomic_with_backend}
use viper_vault.Vault.Storage.Backend.{
  AllDisks, IsSameBut, IsSame, OnlyTouches, TouchesNothing, IsBackend, Os, real_storage_backend,
}
use viper_vault.Vault.Storage.Hoare.{Ends, Goes, AllDisks-map, Goes-call, Goes-bind, Goes-weaken}
use viper_vault.Vault.Storage.Atomic.{IsBefore, IsDone, IsSafe, Ends-by}
use viper_vault.Vault.Storage.Crash.{Left, write-goes}
use viper_vault.Vault.Storage.Locked.{
  lock_path_for, open_lock_file, lock_exclusive, write_vault_atomic,
}

-- The documented behaviour of the calls around the writer: opening a lock file touches only that
-- file, making directories and locking touch no file.
pub record IsOs (os : Os) : Type 0 where
  pub dir_touches : (dir : VaultPath) → TouchesNothing (os.create_dir_all dir)
  pub open_touches : (p : VaultPath) → OnlyTouches p (os.open_or_create p)
  pub shared_touches : (p : VaultPath) → TouchesNothing (os.lock_shared p)
  pub exclusive_touches : (p : VaultPath) → TouchesNothing (os.lock_exclusive p)

-- The lock file of a vault.
abbrev pub lock_of : (dir : VaultPath) → (name : Str) → VaultPath
lock_of dir name = (name ++ lock_suffix) ∷ dir

pub lock-differs : (dir : VaultPath) (name : Str) → (name ∷ dir) ≢ lock_of dir name
lock-differs dir name e =
    let longer = ap head_length e in
    let total = length-append name lock_suffix in absurd (omega arith)

-- At most the lock file differs from the first disk.
abbrev pub IsUntouched : (lock_path : VaultPath) → (d0 d : Disk) → Type 0
IsUntouched lock_path d0 d = (q : VaultPath) → q ≢ lock_path → d q ≡ d0 q

-- What a save that failed leaves; it may have failed before the writer began.
abbrev pub Unsaved :
    (os : Os) → (suffix : Str) → (dir : VaultPath) → (name : Str) → Bytes → (d0 d : Disk) → Type 0
Unsaved os suffix dir name bytes d0 d =
    IsUntouched (lock_of dir name) d0 d
    ⊎ Left (real_storage_backend os suffix) (temp_path_for suffix dir name) (lock_of dir name)
        (name ∷ dir) bytes d0 d

-- A call that touches at most the lock file.
call-IsUntouched :
    {A : Type 0} (tmp p path : VaultPath) (bytes : Bytes) (d0 : Disk) (f : ℕ → VaultStorageError)
    (op : Op ℕ A)
    → OnlyTouches p op
    → Goes
        (IsSafe tmp p path bytes d0)
        (IsUntouched p d0)
        (call (map_answer f op))
        (IsUntouched p d0)
        (IsUntouched p d0)
unfolding map_answer
call-IsUntouched tmp p path bytes d0 f op touches =
    Goes-call (IsSafe tmp p path bytes d0) (IsUntouched p d0) (IsUntouched p d0) (IsUntouched p d0)
      (map_answer f op) (λ d h. inl (λ q n l. h q l))
      (λ d h.
        let (passed, same) = touches d in
        let after : IsUntouched p d0 (op d).after = λ q l. same q l ∙ h q l in
        (
          AllDisks-map (IsSameBut p d) (IsSafe tmp p path bytes d0) (op d).passed
              (λ d' k. inl (λ q n l. k q l ∙ h q l)) passed,
          Ends-by (IsUntouched p d0) (IsUntouched p d0) _ _ (λ _ _. after) (λ _ _. after),
        ))

nothing-touches : {A : Type 0} (p : VaultPath) (op : Op ℕ A) → TouchesNothing op → OnlyTouches p op
nothing-touches p op h d =
    let (passed, same) = h d in
    (
      AllDisks-map (IsSame d) (IsSameBut p d) (op d).passed (λ d' k q n. k q) passed,
      (λ q n. same q),
    )

module _ (os : Os) (laws : IsOs os) (suffix : Str) (dir : VaultPath) (name : Str) (bytes : Bytes)
    (d0 : Disk) where
  abbrev tmp : VaultPath
  tmp = temp_path_for suffix dir name

  abbrev lock_path : VaultPath
  lock_path = lock_of dir name

  abbrev Safe : Disk → Type 0
  Safe = IsSafe tmp lock_path (name ∷ dir) bytes d0

  abbrev Early : Disk → Type 0
  Early = IsUntouched lock_path d0

  abbrev Bad : Disk → Type 0
  Bad = Unsaved os suffix dir name bytes d0

  early :
      {A : Type 0} (f : ℕ → VaultStorageError) (op : Op ℕ A)
      → OnlyTouches lock_path op
      → Goes Safe Early (call (map_answer f op)) Early Bad
  early f op touches =
      Goes-weaken Safe Early Early Early Early Early Bad (call (map_answer f op)) (λ d h. h)
        (λ d h. h) (λ d h. inl h)
        (call-IsUntouched tmp lock_path (name ∷ dir) bytes d0 f op touches)

  lock_exclusive-goes : Goes Safe Early (lock_exclusive os (name ∷ dir)) Early Bad
  unfolding lock_exclusive lock_path_for open_lock_file
  lock_exclusive-goes =
      Goes-bind Safe Early Early Early Bad (open_lock_file os lock_path) _
        (early io (os.open_or_create lock_path) (laws.open_touches lock_path))
        (λ _. early lock (os.lock_exclusive lock_path) (
          nothing-touches lock_path (os.lock_exclusive lock_path)
            (laws.exclusive_touches lock_path)))

  save-goes :
      IsBackend (real_storage_backend os suffix)
      → Goes Safe Early
          (write_vault_atomic os suffix (name ∷ dir) bytes)
          (IsDone tmp lock_path (name ∷ dir) bytes d0)
          Bad
  unfolding write_vault_atomic parent
  save-goes backend =
      let Saved : Disk → Type 0 = IsDone tmp lock_path (name ∷ dir) bytes d0 in
      Goes-bind Safe Early Early Saved Bad (call (map_answer io (os.create_dir_all dir))) _
        (early io (os.create_dir_all dir)
          (nothing-touches lock_path (os.create_dir_all dir) (laws.dir_touches dir)))
        (λ _.
          Goes-bind Safe Early Early Saved Bad (lock_exclusive os (name ∷ dir)) _
            lock_exclusive-goes
            (λ _.
              Goes-weaken Safe (IsBefore tmp lock_path d0) Early Saved Saved
                (Left (real_storage_backend os suffix) tmp lock_path (name ∷ dir) bytes d0) Bad
                (write_vault_atomic_with_backend (real_storage_backend os suffix) (name ∷ dir)
                  bytes)
                (λ d h q n l. h q l) (λ d h. h) (λ d h. inr h)
                (write-goes os suffix lock_path dir name bytes d0 backend)))

-- Saving a vault, whichever of its system calls fail and wherever it is interrupted: every disk on
-- the way, and the last one, holds at the vault's path either the old file or all of the new bytes,
-- synced, and no file but the vault, its lock file and its temporary file changes. A save that succeeds
-- leaves the new file and no temporary file; one that fails has touched only the lock file, or
-- leaves no temporary file, or leaves the disk that its failed removal of that file left.
pub save-IsSafe :
    (os : Os) (suffix : Str) (dir : VaultPath) (name : Str) (bytes : Bytes) (d0 : Disk)
    → IsOs os
    → IsBackend (real_storage_backend os suffix)
    → AllDisks
        (IsSafe (temp_path_for suffix dir name) (lock_of dir name) (name ∷ dir) bytes d0)
        (write_vault_atomic os suffix (name ∷ dir) bytes (record { disk = d0; seen = [] })).0.seen
      × Ends
          (IsDone (temp_path_for suffix dir name) (lock_of dir name) (name ∷ dir) bytes d0)
          (Unsaved os suffix dir name bytes d0)
          (write_vault_atomic os suffix (name ∷ dir) bytes (record { disk = d0; seen = [] })).0.disk
          (write_vault_atomic os suffix (name ∷ dir) bytes (record { disk = d0; seen = [] })).1
save-IsSafe os suffix dir name bytes d0 laws backend =
    save-goes os laws suffix dir name bytes d0 backend (record { disk = d0; seen = [] }) tt
      (λ q l. refl)
