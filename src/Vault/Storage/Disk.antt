-- ===== src/Vault/Storage/Disk.antt =====
-- Paths, disks, operations on them and the steps of the storage code (vault/storage.rs).
use viper_vault.Base.{
  ℕ, Bool, List, [], ◌∷◌, ◌++◌, Option, Result, ok, err, Done, Bytes, map_err, length,
}
use viper_vault.Text.{Str}

-- A path is the list of its normal components, the last one first. The empty list stands for the
-- paths without a parent or a file name. File names are Unicode, so that `to_string_lossy` keeps them.
abbrev pub VaultPath : Type 0
VaultPath = List Str

pub data VaultStorageError : Type 0 where
  invalid_path : VaultStorageError
  io lock : (code : ℕ) → VaultStorageError

-- `path.parent().ok_or(InvalidPath)` and `path.file_name().ok_or(InvalidPath)`
unfoldable pub parent : VaultPath → Result VaultStorageError VaultPath
parent [] = err invalid_path
parent (name ∷ dir) = ok dir

unfoldable pub file_name : VaultPath → Result VaultStorageError Str
file_name [] = err invalid_path
file_name (name ∷ dir) = ok name

abbrev pub lock_suffix : Str
lock_suffix = b'.' ∷ b'l' ∷ b'o' ∷ b'c' ∷ b'k' ∷ []

abbrev pub tmp_infix : Str
tmp_infix = b'.' ∷ b't' ∷ b'm' ∷ b'p' ∷ b'.' ∷ []

-- `dir.join(format!(".{}.tmp.{}", base_name, suffix))`; the suffix is a fresh UUID's text.
unfoldable pub temp_path_for : (suffix : Str) → (dir : VaultPath) → (base_name : Str) → VaultPath
temp_path_for suffix dir base_name = (b'.' ∷ (base_name ++ (tmp_infix ++ suffix))) ∷ dir

-- The length of a file name, by which a path and those derived from it differ.
abbrev pub head_length : VaultPath → ℕ
head_length [] = 0
head_length (name ∷ dir) = length name

-- A file's bytes, and whether all of them have reached the disk.
pub record Stored : Type 0 where
  pub bytes : Bytes
  pub synced : Bool

abbrev pub Disk : Type 0
Disk = VaultPath → Option Stored

-- What an operation did: the disks it passed through, the disk it left and its answer.
pub record Outcome (E A : Type 0) : Type 0 where
  pub passed : List Disk
  pub after : Disk
  pub answer : Result E A

abbrev pub Op : Type 0 → Type 0 → Type 0
Op E A = Disk → Outcome E A

-- `.map_err(f)` on what an operation answers
unfoldable pub map_answer : {E F A : Type 0} → (E → F) → Op E A → Op F A
map_answer f op d = record {
  passed = (op d).passed;
  after = (op d).after;
  answer = map_err f (op d).answer;
}

-- The disk, and all disks before it.
pub record Trace : Type 0 where
  pub disk : Disk
  pub seen : List Disk

abbrev pub Step : Type 0 → Type 0
Step A = Trace → Trace × Result VaultStorageError A

abbrev pub call : {A : Type 0} → Op VaultStorageError A → Step A
call op t = (
  record { disk = (op t.disk).after; seen = (op t.disk).passed ++ (t.disk ∷ t.seen) },
  (op t.disk).answer,
)

abbrev pub answer_of : {A : Type 0} → Result VaultStorageError A → Step A
answer_of r t = (t, r)

-- `let x = step?;` and what comes after it
abbrev pub continue_with :
    {A B : Type 0}
    → (A → Step B)
    → Trace × Result VaultStorageError A
    → Trace × Result VaultStorageError B
continue_with k (t, ok a) = k a t
continue_with k (t, err e) = (t, err e)

module _ {A B : Type 0} where
  infixl 5 ◌>>=◌
  abbrev pub ◌>>=◌ : Step A → (A → Step B) → Step B
  (s >>= k) t = continue_with k (s t)

module _ {B : Type 0} where
  infixl 5 ◌>>◌
  abbrev pub ◌>>◌ : Step Done → Step B → Step B
  s >> rest = s >>= (λ _. rest)
