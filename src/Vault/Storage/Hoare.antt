-- ===== src/Vault/Storage/Hoare.antt =====
-- Reasoning about the steps of the storage code: a condition before, conditions after success and
-- failure, and one that every disk on the way meets.
use viper_vault.Base.{List, [], ◌∷◌, ◌++◌, Result, ok, err}
use viper_vault.Vault.Storage.Disk.{
  VaultStorageError, Disk, Op, Trace, Step, call, continue_with, ◌>>=◌,
}
use viper_vault.Vault.Storage.Backend.{AllDisks}

-- How a step ends.
abbrev pub Ends :
    {A : Type 0} (Good Bad : Disk → Type 0) → Disk → Result VaultStorageError A → Type 0
Ends Good Bad d (ok a) = Good d
Ends Good Bad d (err e) = Bad d

-- From a disk with P, every disk that a crash could leave has I, and the step ends with Good or Bad.
abbrev pub Goes : {A : Type 0} (I P : Disk → Type 0) → Step A → (Good Bad : Disk → Type 0) → Type 0
Goes I P s Good Bad =
    (t : Trace)
    → AllDisks I t.seen
    → P t.disk
    → AllDisks I (s t).0.seen × Ends Good Bad (s t).0.disk (s t).1

pub AllDisks-append :
    (I : Disk → Type 0) (xs ys : List Disk) → AllDisks I xs → AllDisks I ys → AllDisks I (xs ++ ys)
AllDisks-append I [] ys h k = k
AllDisks-append I (x ∷ xs) ys (hx, h) k = (hx, AllDisks-append I xs ys h k)

pub AllDisks-map :
    (I J : Disk → Type 0) (ds : List Disk)
    → ((d : Disk) → I d → J d)
    → AllDisks I ds
    → AllDisks J ds
AllDisks-map I J [] f h = tt
AllDisks-map I J (d ∷ ds) f (hd, h) = (f d hd, AllDisks-map I J ds f h)

pub Goes-call :
    {A : Type 0} (I P Good Bad : Disk → Type 0) (op : Op VaultStorageError A)
    → ((d : Disk) → P d → I d)
    → ((d : Disk) → P d → AllDisks I (op d).passed × Ends Good Bad (op d).after (op d).answer)
    → Goes I P (call op) Good Bad
Goes-call I P Good Bad op safe does t seen p =
    let (passed, ends) = does t.disk p in
    (AllDisks-append I (op t.disk).passed (t.disk ∷ t.seen) passed (safe t.disk p, seen), ends)

continued :
    {A B : Type 0} (I P Mid Good Bad : Disk → Type 0) (k : A → Step B)
    (x : Trace × Result VaultStorageError A)
    → ((a : A) → Goes I Mid (k a) Good Bad)
    → AllDisks I x.0.seen
    → Ends Mid Bad x.0.disk x.1
    → AllDisks I (continue_with k x).0.seen
      × Ends Good Bad (continue_with k x).0.disk (continue_with k x).1
continued I P Mid Good Bad k (t, ok a) next seen ends = next a t seen ends
continued I P Mid Good Bad k (t, err e) next seen ends = (seen, ends)

pub Goes-bind :
    {A B : Type 0} (I P Mid Good Bad : Disk → Type 0) (s : Step A) (k : A → Step B)
    → Goes I P s Mid Bad
    → ((a : A) → Goes I Mid (k a) Good Bad)
    → Goes I P (s >>= k) Good Bad
Goes-bind I P Mid Good Bad s k first next t seen p =
    let (seen', ends) = first t seen p in continued I P Mid Good Bad k (s t) next seen' ends

pub Ends-map :
    {A : Type 0} (Good Good' Bad Bad' : Disk → Type 0) (d : Disk) (r : Result VaultStorageError A)
    → ((d : Disk) → Good d → Good' d)
    → ((d : Disk) → Bad d → Bad' d)
    → Ends Good Bad d r
    → Ends Good' Bad' d r
Ends-map Good Good' Bad Bad' d (ok a) g h ends = g d ends
Ends-map Good Good' Bad Bad' d (err e) g h ends = h d ends

-- A step that leaves weaker conditions.
pub Goes-weaken :
    {A : Type 0} (I P P' Good Good' Bad Bad' : Disk → Type 0) (s : Step A)
    → ((d : Disk) → P' d → P d)
    → ((d : Disk) → Good d → Good' d)
    → ((d : Disk) → Bad d → Bad' d)
    → Goes I P s Good Bad
    → Goes I P' s Good' Bad'
Goes-weaken I P P' Good Good' Bad Bad' s f g h goes t seen p =
    let (seen', ends) = goes t seen (f t.disk p) in
    (seen', Ends-map Good Good' Bad Bad' (s t).0.disk (s t).1 g h ends)
