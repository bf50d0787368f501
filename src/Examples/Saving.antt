-- ===== src/Examples/Saving.antt =====
-- Saving to a file system in memory (vault/storage.rs).
use viper_vault.Base.{
  ℕ, ◌≡◌, ◌≢◌, refl, ◌∙◌, Bool, true, false, ◌&&◌, List, [], ◌∷◌, ◌++◌, Option, none, some, ok, err,
  Done, Bytes, bytes_eq, bytes_eq_refl, bytes_eq_sound, if◌then◌else◌, map_err, Bool-cases, inl,
  inr,
}
use viper_vault.Vault.Storage.Disk.{
  VaultPath, Disk, Stored, Outcome, Op, VaultStorageError, io, map_answer, temp_path_for,
}
use viper_vault.Vault.Storage.Backend.{AllDisks, IsSameBut, IsBackend, Os, real_storage_backend}
use viper_vault.Vault.Storage.Hoare.{Ends}
use viper_vault.Vault.Storage.Atomic.{IsDone, IsSafe}
use viper_vault.Vault.Storage.Locked.{write_vault_atomic, read_vault_locked}
use viper_vault.Vault.Storage.Saved.{IsOs, Unsaved, lock_of, save-IsSafe}
use viper_vault.Vault.Storage.Reread.{IsReadable, save_then_read}

abbrev path_eq : VaultPath → VaultPath → Bool
path_eq [] [] = true
path_eq [] (n ∷ q) = false
path_eq (n ∷ p) [] = false
path_eq (n ∷ p) (m ∷ q) = bytes_eq n m && path_eq p q

path_eq_refl : (p : VaultPath) → path_eq p p ≡ true
path_eq_refl [] = refl
path_eq_refl (n ∷ p) = rw (bytes_eq_refl n) (path_eq_refl p)

path_eq_sound : (p q : VaultPath) → path_eq p q ≡ true → p ≡ q
path_eq_sound [] [] h = refl
path_eq_sound [] (n ∷ q) h = cc
path_eq_sound (n ∷ p) [] h = cc
path_eq_sound (n ∷ p) (m ∷ q) h = elim (Bool-cases (bytes_eq n m)) [
  | inl e ↦ let heads = bytes_eq_sound n m e in let tails = path_eq_sound p q (rw e at h) in cc
  | inr e ↦ absurd (let never : false ≡ true = rw e at h in cc)
]

abbrev set : VaultPath → Option Stored → Disk → Disk
set p v d q = if path_eq q p then v else d q

set-same : (p : VaultPath) (v : Option Stored) (d : Disk) → set p v d p ≡ v
set-same p v d = rw (path_eq_refl p) refl

set-other :
    (p : VaultPath) (v : Option Stored) (d : Disk) (q : VaultPath) → q ≢ p → set p v d q ≡ d q
set-other p v d q h = elim (Bool-cases (path_eq q p)) [
  | inl e ↦ absurd (h (path_eq_sound q p e))
  | inr e ↦ rw e refl
]

abbrev done : {E : Type 0} → Disk → Outcome E Done
done d = record { passed = []; after = d; answer = ok tt }

abbrev failed : {A : Type 0} → ℕ → Disk → Outcome ℕ A
failed code d = record { passed = []; after = d; answer = err code }

abbrev create_at : Option Stored → VaultPath → Op ℕ Done
create_at none p d = done (set p (some (record { bytes = []; synced = false })) d)
create_at (some f) p d = failed 17 d

abbrev change_at : (Stored → Option Stored) → Option Stored → VaultPath → Op ℕ Done
change_at f none p d = failed 2 d
change_at f (some x) p d = done (set p (f x) d)

abbrev move_at : Option Stored → (source target : VaultPath) → Op ℕ Done
move_at none p q d = failed 2 d
move_at (some f) p q d = done (set q (some f) (set p none d))

abbrev open_at : Option Stored → VaultPath → Op ℕ Done
open_at none p d = done (set p (some (record { bytes = []; synced = false })) d)
open_at (some f) p d = done d

abbrev read_at : Option Stored → Op ℕ Bytes
read_at none d = failed 2 d
read_at (some f) d = record { passed = []; after = d; answer = ok f.bytes }

abbrev memory_os : Os
memory_os = record {
  create_new = λ p d. create_at (d p) p d;
  write_all =
      λ p bs d. change_at (λ f. some (record { bytes = f.bytes ++ bs; synced = false })) (d p) p d;
  sync_all = λ p d. change_at (λ f. some (record { bytes = f.bytes; synced = true })) (d p) p d;
  rename = λ p q d. move_at (d p) p q d;
  remove_file = λ p d. change_at (λ _. none) (d p) p d;
  sync_dir = λ p d. done d;
  create_dir_all = λ p d. done d;
  open_or_create = λ p d. open_at (d p) p d;
  lock_shared = λ p d. done d;
  lock_exclusive = λ p d. done d;
  read_to_end = λ p d. read_at (d p) d;
}

create_at-touches :
    (v : Option Stored) (p : VaultPath) (d : Disk)
    → AllDisks (IsSameBut p d) (create_at v p d).passed × IsSameBut p d (create_at v p d).after
create_at-touches none p d = (tt, set-other p _ d)
create_at-touches (some f) p d = (tt, (λ q n. refl))

create_at-makes :
    (v : Option Stored) (p : VaultPath) (d : Disk)
    → map_err io (create_at v p d).answer ≡ ok tt
    → (s : Bool) × ((create_at v p d).after p ≡ some (record { bytes = []; synced = s }))
create_at-makes none p d h = (false, set-same p _ d)
create_at-makes (some f) p d h = absurd (cc)

change_at-touches :
    (f : Stored → Option Stored) (v : Option Stored) (p : VaultPath) (d : Disk)
    → AllDisks (IsSameBut p d) (change_at f v p d).passed × IsSameBut p d (change_at f v p d).after
change_at-touches f none p d = (tt, (λ q n. refl))
change_at-touches f (some x) p d = (tt, set-other p (f x) d)

change_at-some :
    (f : Stored → Option Stored) (v : Option Stored) (x : Stored) (p : VaultPath) (d : Disk)
    → v ≡ some x
    → (change_at f v p d).after p ≡ f x
change_at-some f v x p d h = rw h (set-same p (f x) d)

change_at-fails :
    (f : Stored → Option Stored) (v : Option Stored) (p : VaultPath) (d : Disk)
    (e : VaultStorageError)
    → map_err io (change_at f v p d).answer ≡ err e
    → (q : VaultPath) → (change_at f v p d).after q ≡ d q
change_at-fails f none p d e h q = refl
change_at-fails f (some x) p d e h q = absurd (cc)

removes :
    (v : Option Stored) (p : VaultPath) (d : Disk)
    → map_err io (change_at (λ _. none) v p d).answer ≡ ok tt
    → (change_at (λ _. none) v p d).after p ≡ none
removes none p d h = absurd (cc)
removes (some x) p d h = set-same p none d

moves :
    (v : Option Stored) (p q : VaultPath) (d : Disk)
    → p ≢ q
    → map_err io (move_at v p q d).answer ≡ ok tt
    → ((move_at v p q d).after q ≡ v)
      × ((move_at v p q d).after p ≡ none)
      × ((r : VaultPath) → r ≢ p → r ≢ q → (move_at v p q d).after r ≡ d r)
moves none p q d n h = absurd (cc)
moves (some f) p q d n h = (
  set-same q (some f) (set p none d),
  set-other q (some f) (set p none d) p n ∙ set-same p none d,
  (λ r m l. set-other q (some f) (set p none d) r l ∙ set-other p none d r m),
)

moves-fails :
    (v : Option Stored) (p q : VaultPath) (d : Disk) (e : VaultStorageError)
    → map_err io (move_at v p q d).answer ≡ err e
    → (r : VaultPath) → (move_at v p q d).after r ≡ d r
moves-fails none p q d e h r = refl
moves-fails (some f) p q d e h r = absurd (cc)

moves-passed : (v : Option Stored) (p q : VaultPath) (d : Disk) → (move_at v p q d).passed ≡ []
moves-passed none p q d = refl
moves-passed (some f) p q d = refl

abbrev uuid : List ℕ
uuid = b'1' ∷ []

memory_os-IsBackend : IsBackend (real_storage_backend memory_os uuid)
unfolding real_storage_backend map_answer
memory_os-IsBackend = record {
  create_touches = λ p d. create_at-touches (d p) p d;
  create_makes = λ p d h. create_at-makes (d p) p d h;
  write_touches = λ p bs d. change_at-touches _ (d p) p d;
  write_appends = λ p bs old s d h _. (false, change_at-some _ (d p) _ p d h);
  sync_touches = λ p d. change_at-touches _ (d p) p d;
  sync_syncs = λ p bs s d h _. change_at-some _ (d p) _ p d h;
  rename_atomic = λ p q d. moves-passed (d p) p q d;
  rename_moves = λ p q d n h. moves (d p) p q d n h;
  rename_fails = λ p q d e h. moves-fails (d p) p q d e h;
  remove_touches = λ p d. change_at-touches _ (d p) p d;
  remove_removes = λ p d h. removes (d p) p d h;
  remove_fails = λ p d e h. change_at-fails _ (d p) p d e h;
  dir_touches = λ dir d. (tt, (λ q. refl));
}

open_at-touches :
    (v : Option Stored) (p : VaultPath) (d : Disk)
    → AllDisks (IsSameBut p d) (open_at v p d).passed × IsSameBut p d (open_at v p d).after
open_at-touches none p d = (tt, set-other p _ d)
open_at-touches (some f) p d = (tt, (λ q n. refl))

opens : (v : Option Stored) (p : VaultPath) (d : Disk) → (open_at v p d).answer ≡ ok tt
opens none p d = refl
opens (some f) p d = refl

memory_os-IsOs : IsOs memory_os
memory_os-IsOs = record {
  dir_touches = λ dir d. (tt, (λ q. refl));
  open_touches = λ p d. open_at-touches (d p) p d;
  shared_touches = λ p d. (tt, (λ q. refl));
  exclusive_touches = λ p d. (tt, (λ q. refl));
}

read_at-some :
    (v : Option Stored) (d : Disk) (f : Stored) → v ≡ some f → (read_at v d).answer ≡ ok f.bytes
read_at-some v d f h = rw h refl

memory_os-IsReadable : IsReadable memory_os
memory_os-IsReadable = record {
  opens = λ p d. opens (d p) p d;
  locks = λ p d. refl;
  reads = λ p d f h. read_at-some (d p) d f h;
}

-- A disk with a vault `v` of one byte, in the directory that paths start from.
abbrev old_disk : Disk
old_disk = set ((b'v' ∷ []) ∷ []) (some (record { bytes = 1 ∷ []; synced = true })) (λ _. none)

save-IsSafe_example :
    AllDisks
      (IsSafe
        (temp_path_for uuid [] (b'v' ∷ []))
        (lock_of [] (b'v' ∷ []))
        ((b'v' ∷ []) ∷ [])
        (2 ∷ 3 ∷ [])
        old_disk)
      (write_vault_atomic memory_os uuid
        ((b'v' ∷ []) ∷ [])
        (2 ∷ 3 ∷ [])
        (record { disk = old_disk; seen = [] })).0.seen
    × Ends
        (IsDone
          (temp_path_for uuid [] (b'v' ∷ []))
          (lock_of [] (b'v' ∷ []))
          ((b'v' ∷ []) ∷ [])
          (2 ∷ 3 ∷ [])
          old_disk)
        (Unsaved memory_os uuid [] (b'v' ∷ []) (2 ∷ 3 ∷ []) old_disk)
        (write_vault_atomic memory_os uuid
          ((b'v' ∷ []) ∷ [])
          (2 ∷ 3 ∷ [])
          (record { disk = old_disk; seen = [] })).0.disk
        (write_vault_atomic memory_os uuid
          ((b'v' ∷ []) ∷ [])
          (2 ∷ 3 ∷ [])
          (record { disk = old_disk; seen = [] })).1
save-IsSafe_example =
    save-IsSafe memory_os uuid [] (b'v' ∷ []) (2 ∷ 3 ∷ []) old_disk memory_os-IsOs
      memory_os-IsBackend

save_then_read_example :
    (read_vault_locked memory_os ((b'v' ∷ []) ∷ []) (record {
      disk =
          (write_vault_atomic memory_os uuid
            ((b'v' ∷ []) ∷ [])
            (2 ∷ 3 ∷ [])
            (record { disk = old_disk; seen = [] })).0.disk;
      seen = [];
    })).1
    ≡ ok (2 ∷ 3 ∷ [])
unfolding write_vault_atomic bytes_eq
save_then_read_example =
    save_then_read memory_os uuid [] (b'v' ∷ []) (2 ∷ 3 ∷ []) old_disk memory_os-IsOs
      memory_os-IsBackend memory_os-IsReadable refl
