-- ===== src/Vault/Storage/Atomic.antt =====
-- What the writer leaves on the disk, whatever fails and wherever it stops (vault/storage.rs).
use viper_vault.Base.{
  ◌≡◌, ◌≢◌, refl, ◌∙◌, sym, ◌⊎◌, inl, inr, Bool, true, [], none, some, Result, ok, err, Done, Bytes,
}
use mathlib.Core.Path.{subst}
use viper_vault.Vault.Storage.Disk.{VaultPath, VaultStorageError, Stored, Disk, Op, call}
use viper_vault.Vault.Storage.Writer.{StorageBackend, replace_target}
use viper_vault.Vault.Storage.Backend.{AllDisks, IsSameBut, IsSame, IsBackend}
use viper_vault.Vault.Storage.Hoare.{Ends, Goes, AllDisks-map, Goes-call, Goes-bind}

-- The file that the writer is to make.
abbrev pub written : Bytes → Stored
written bytes = record { bytes = bytes; synced = true }

-- At most the temporary file and the lock file differ from the first disk.
abbrev pub IsBefore : (tmp lock : VaultPath) → (d0 d : Disk) → Type 0
IsBefore tmp lock d0 d = (q : VaultPath) → q ≢ tmp → q ≢ lock → d q ≡ d0 q

-- The target is the new file, complete and synced, and at most these two files differ else.
pub record IsAfter (tmp lock path : VaultPath) (bytes : Bytes) (d0 d : Disk) : Type 0 where
  pub new_target : d path ≡ some (written bytes)
  pub others : (q : VaultPath) → q ≢ tmp → q ≢ lock → q ≢ path → d q ≡ d0 q

-- The same, and no temporary file is left.
abbrev pub IsDone : (tmp lock path : VaultPath) → (bytes : Bytes) → (d0 d : Disk) → Type 0
IsDone tmp lock path bytes d0 d = IsAfter tmp lock path bytes d0 d × (d tmp ≡ none)

abbrev pub IsSafe : (tmp lock path : VaultPath) → (bytes : Bytes) → (d0 d : Disk) → Type 0
IsSafe tmp lock path bytes d0 d = IsBefore tmp lock d0 d ⊎ IsAfter tmp lock path bytes d0 d

pub Ends-by :
    {A : Type 0} (Good Bad : Disk → Type 0) (d : Disk) (r : Result VaultStorageError A)
    → ((a : A) → r ≡ ok a → Good d)
    → ((e : VaultStorageError) → r ≡ err e → Bad d)
    → Ends Good Bad d r
Ends-by Good Bad d (ok a) f g = f a refl
Ends-by Good Bad d (err e) f g = g e refl

module _ (b : StorageBackend) (laws : IsBackend b) (tmp lock path : VaultPath) (bytes : Bytes)
    (d0 : Disk) (differ : tmp ≢ path) where
  abbrev pub Safe : Disk → Type 0
  Safe = IsSafe tmp lock path bytes d0

  abbrev pub Before : Disk → Type 0
  Before = IsBefore tmp lock d0

  -- Before the target is replaced, with what the temporary file holds.
  abbrev Filled : Bytes → Disk → Type 0
  Filled bs d = Before d × ((s : Bool) × (d tmp ≡ some (record { bytes = bs; synced = s })))

  abbrev Synced : Disk → Type 0
  Synced d = Before d × (d tmp ≡ some (written bytes))

  Before-only :
      (d : Disk) (op : Op VaultStorageError Done)
      → Before d
      → AllDisks (IsSameBut tmp d) (op d).passed × IsSameBut tmp d (op d).after
      → AllDisks Safe (op d).passed × Before (op d).after
  Before-only d op h (passed, after) = (
    AllDisks-map (IsSameBut tmp d) Safe (op d).passed (λ d' k. inl (λ q n l. k q n ∙ h q n l))
        passed,
    (λ q n l. after q n ∙ h q n l),
  )

  create-goes : Goes Safe Before (call (b.create_temp_file tmp)) (Filled []) Safe
  create-goes =
      Goes-call Safe Before (Filled []) Safe (b.create_temp_file tmp) (λ d h. inl h)
        (λ d h.
          let (passed, before) =
            Before-only d (b.create_temp_file tmp) h (laws.create_touches tmp d) in
          (
            passed,
            Ends-by (Filled []) Safe _ _ (λ _ made. (before, laws.create_makes tmp d made))
                (λ e failed. inl before),
          ))

  write-goes : Goes Safe (Filled []) (call (b.write_all tmp bytes)) (Filled bytes) Safe
  write-goes =
      Goes-call Safe (Filled []) (Filled bytes) Safe (b.write_all tmp bytes) (λ d h. inl h.0)
        (λ d h.
          let (passed, before) =
            Before-only d (b.write_all tmp bytes) h.0 (laws.write_touches tmp bytes d) in
          (
            passed,
            Ends-by (Filled bytes) Safe _ _
                (λ _ done. (before, laws.write_appends tmp bytes [] h.1.0 d h.1.1 done))
                (λ e failed. inl before),
          ))

  sync-goes : Goes Safe (Filled bytes) (call (b.sync_temp_file tmp)) Synced Safe
  sync-goes =
      Goes-call Safe (Filled bytes) Synced Safe (b.sync_temp_file tmp) (λ d h. inl h.0)
        (λ d h.
          let (passed, before) =
            Before-only d (b.sync_temp_file tmp) h.0 (laws.sync_touches tmp d) in
          (
            passed,
            Ends-by Synced Safe _ _
                (λ _ done. (before, laws.sync_syncs tmp bytes h.1.0 d h.1.1 done))
                (λ e failed. inl before),
          ))

  abbrev pub Replaced : Disk → Type 0
  Replaced = IsDone tmp lock path bytes d0

  rename-goes : Goes Safe Synced (call (b.rename tmp path)) Replaced Safe
  rename-goes =
      Goes-call Safe Synced Replaced Safe (b.rename tmp path) (λ d h. inl h.0)
        (λ d h. (
          subst (AllDisks Safe) (sym (laws.rename_atomic tmp path d)) tt,
          Ends-by Replaced Safe _ _
              (λ _ done.
                let (moved, gone, others) = laws.rename_moves tmp path d differ done in
                (
                  record { new_target = moved ∙ h.1; others = λ q n l m. others q n m ∙ h.0 q n l },
                  gone,
                ))
              (λ e failed. inl (λ q n l. laws.rename_fails tmp path d e failed q ∙ h.0 q n l)),
        ))

  Replaced-same : (d d' : Disk) → Replaced d → IsSame d d' → Replaced d'
  Replaced-same d d' (h, gone) same = (
    record { new_target = same path ∙ h.new_target; others = λ q n l m. same q ∙ h.others q n l m },
    same tmp ∙ gone,
  )

  dir-goes : (dir : VaultPath) → Goes Safe Replaced (call (b.sync_parent_dir dir)) Replaced Safe
  dir-goes dir =
      Goes-call Safe Replaced Replaced Safe (b.sync_parent_dir dir) (λ d h. inr h.0)
        (λ d h.
          let (passed, same) = laws.dir_touches dir d in
          let after = Replaced-same d (b.sync_parent_dir dir d).after h same in
          (
            AllDisks-map (IsSame d) Safe (b.sync_parent_dir dir d).passed
                (λ d' k. inr (Replaced-same d d' h k).0) passed,
            Ends-by Replaced Safe _ _ (λ _ done. after) (λ e failed. inr after.0),
          ))

  pub replace_target-goes :
      (dir : VaultPath) → Goes Safe Before (replace_target b tmp path dir bytes) Replaced Safe
  unfolding replace_target
  replace_target-goes dir = Goes-bind Safe Before (Filled []) Replaced Safe _ _ create-goes (λ _.
      Goes-bind Safe (Filled []) (Filled bytes) Replaced Safe _ _ write-goes (λ _.
        Goes-bind Safe (Filled bytes) Synced Replaced Safe _ _ sync-goes
          (λ _. Goes-bind Safe Synced Replaced Replaced Safe _ _ rename-goes (λ _. dir-goes dir))))
