-- ===== src/Vault/Storage/Crash.antt =====
-- The transactional write under failures and crashes (vault/storage.rs).
use viper_vault.Base.{
  ◌≡◌, ◌≢◌, refl, ap, ◌∙◌, sym, ◌⊎◌, inl, inr, ◌∷◌, ◌++◌, none, Result, ok, err, Done, Done-cases,
  Bytes, length-append, arith,
}
use viper_vault.Text.{Str}
use viper_vault.Vault.Storage.Disk.{
  VaultPath, VaultStorageError, Disk, Trace, parent, file_name, temp_path_for, tmp_infix,
  head_length,
}
use viper_vault.Vault.Storage.Writer.{
  StorageBackend, replace_target, clean_up, write_vault_atomic_with_backend,
}
use viper_vault.Vault.Storage.Backend.{AllDisks, IsSameBut, IsBackend, Os, real_storage_backend}
use viper_vault.Vault.Storage.Hoare.{Ends, Goes, AllDisks-map, AllDisks-append}
use viper_vault.Vault.Storage.Atomic.{IsBefore, IsDone, IsSafe, replace_target-goes}

-- The temporary file is gone, or the disk is the one that the attempt to remove it left when it
-- failed.
abbrev pub IsCleaned : StorageBackend → VaultPath → Disk → Type 0
IsCleaned b tmp d =
    (d tmp ≡ none)
    ⊎ ((d' : Disk) × (e : VaultStorageError) × ((b.remove_file tmp d').answer ≡ err e)
        × ((b.remove_file tmp d').after ≡ d))

-- What a write that failed leaves.
abbrev pub Left :
    StorageBackend → (tmp lock path : VaultPath) → (bytes : Bytes) → (d0 d : Disk) → Type 0
Left b tmp lock path bytes d0 d = IsSafe tmp lock path bytes d0 d × IsCleaned b tmp d

module _ (b : StorageBackend) (laws : IsBackend b) (tmp lock path : VaultPath) (bytes : Bytes)
    (d0 : Disk) (differ : tmp ≢ path) where
  IsSafe-but_tmp :
      (d d' : Disk)
      → IsSafe tmp lock path bytes d0 d
      → IsSameBut tmp d d'
      → IsSafe tmp lock path bytes d0 d'
  IsSafe-but_tmp d d' (inl before) same = inl (λ q n l. same q n ∙ before q n l)
  IsSafe-but_tmp d d' (inr after) same = inr (record {
    new_target = same path (λ e. differ (sym e)) ∙ after.new_target;
    others = λ q n l m. same q n ∙ after.others q n l m;
  })

  removed : (d : Disk) → IsCleaned b tmp (b.remove_file tmp d).after
  removed d = elim (Done-cases (b.remove_file tmp d).answer) [
    | inl done ↦ inl (laws.remove_removes tmp d done)
    | inr (e, failed) ↦ inr (d, e, failed, refl)
  ]

  clean_up-Ends :
      (x : Trace × Result VaultStorageError Done)
      → AllDisks (IsSafe tmp lock path bytes d0) x.0.seen
      → Ends (IsDone tmp lock path bytes d0) (IsSafe tmp lock path bytes d0) x.0.disk x.1
      → AllDisks (IsSafe tmp lock path bytes d0) (clean_up (b.remove_file tmp) x).0.seen
        × Ends
            (IsDone tmp lock path bytes d0)
            (Left b tmp lock path bytes d0)
            (clean_up (b.remove_file tmp) x).0.disk
            (clean_up (b.remove_file tmp) x).1
  unfolding clean_up
  clean_up-Ends (t, ok _) seen ends = (seen, ends)
  clean_up-Ends (t, err e) seen ends =
      let (passed, same) = laws.remove_touches tmp t.disk in
      (
        AllDisks-append (IsSafe tmp lock path bytes d0) (b.remove_file tmp t.disk).passed
            (t.disk ∷ t.seen)
            (AllDisks-map (IsSameBut tmp t.disk) (IsSafe tmp lock path bytes d0) _
              (λ d' k. IsSafe-but_tmp t.disk d' ends k) passed)
            (ends, seen),
        (IsSafe-but_tmp t.disk _ ends same, removed t.disk),
      )

-- A temporary path is never the path that it stands for.
temp_path-differs :
    (suffix : Str) (dir : VaultPath) (name : Str) → temp_path_for suffix dir name ≢ (name ∷ dir)
unfolding temp_path_for
temp_path-differs suffix dir name e =
    let longer = ap head_length e in
    let total = length-append name (tmp_infix ++ suffix) in absurd (omega arith)

-- The writer of the production backend as a whole.
pub write-goes :
    (os : Os) (suffix : Str) (lock dir : VaultPath) (name : Str) (bytes : Bytes) (d0 : Disk)
    → IsBackend (real_storage_backend os suffix)
    → Goes
        (IsSafe (temp_path_for suffix dir name) lock (name ∷ dir) bytes d0)
        (IsBefore (temp_path_for suffix dir name) lock d0)
        (write_vault_atomic_with_backend (real_storage_backend os suffix) (name ∷ dir) bytes)
        (IsDone (temp_path_for suffix dir name) lock (name ∷ dir) bytes d0)
        (Left
          (real_storage_backend os suffix)
          (temp_path_for suffix dir name)
          lock
          (name ∷ dir)
          bytes
          d0)
unfolding write_vault_atomic_with_backend real_storage_backend parent file_name
write-goes os suffix lock dir name bytes d0 laws t seen before =
    let b : StorageBackend = real_storage_backend os suffix in
    let tmp : VaultPath = temp_path_for suffix dir name in
    let path : VaultPath = name ∷ dir in
    let differ = temp_path-differs suffix dir name in
    let (seen', ends) =
      replace_target-goes b laws tmp lock path bytes d0 differ dir t seen before in
    clean_up-Ends b laws tmp lock path bytes d0 differ (replace_target b tmp path dir bytes t) seen'
      ends
