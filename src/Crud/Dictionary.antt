-- ===== src/Crud/Dictionary.antt =====
-- The changes that core/entries.rs makes to the list of entries, as a dictionary from identifiers.
use viper_vault.Base.{
  ℕ, ◌≡◌, refl, ap, ◌∙◌, Bool, true, false, List, [], ◌∷◌, ◌++◌, Option, none, some, Result, ok,
  err, Done, ◌==◌, if◌then◌else◌, any, length, arith, ◌≤◌, not,
}
use viper_vault.Entries.Error.{EntryError, duplicate_entry, entry_not_found}
use viper_vault.Entries.Types.{VaultEntry, EntryUpdate}
use viper_vault.Entries.Update.{Update, apply_update}
use viper_vault.Entries.Rejected.{meta-apply_update}
use viper_vault.Crud.{
  has_id, find_entry, push_entry, change_entry, replace_with, retain_others, remove_entries,
  CrudCall, adds, replaces, edits, deletes, change_of,
}

-- The abstract payload: what is stored under an identifier.
abbrev pub Entries : Type 0
Entries = ℕ → Option VaultEntry

abbrev pub put : ℕ → Option VaultEntry → Entries → Entries
put i v d j = if j == i then v else d j

abbrev pub change_at : ℕ → Update → Entries → Option VaultEntry → Entries × Result EntryError Done
change_at i u d none = (d, err entry_not_found)
change_at i u d (some e) = (put i (some (u e).0) d, (u e).1)

abbrev pub add_at : VaultEntry → Entries → Option VaultEntry → Entries × Result EntryError Done
add_at e d none = (put e.meta.id (some e) d, ok tt)
add_at e d (some x) = (d, err duplicate_entry)

abbrev pub remove_at : ℕ → Entries → Option VaultEntry → Entries × Result EntryError Done
remove_at i d none = (d, err entry_not_found)
remove_at i d (some x) = (put i none d, ok tt)

-- What each call promises.
unfoldable pub promised : CrudCall → Entries → Entries × Result EntryError Done
unfolding apply_update
promised (adds e) d = add_at e d (d e.meta.id)
promised (replaces i e) d = change_at i (replace_with e) d (d i)
promised (edits i u) d = change_at i (apply_update u) d (d i)
promised (deletes i) d = remove_at i d (d i)

abbrev pub look : List VaultEntry → Entries
look es i = find_entry i es

-- A whole entry that replaces another carries its identifier.
abbrev pub KeepsId : CrudCall → Type 0
KeepsId (replaces i e) = e.meta.id ≡ i
KeepsId _ = Unit

abbrev pub is_some : {A : Type 0} → Option A → Bool
is_some none = false
is_some (some _) = true

any-find : (i : ℕ) (es : List VaultEntry) → any (has_id i) es ≡ is_some (find_entry i es)
unfolding find_entry
any-find i [] = refl
any-find i (e ∷ es) = let ih = any-find i es in ground arith

find-push :
    (j : ℕ) (e : VaultEntry) (es : List VaultEntry)
    → find_entry e.meta.id es ≡ none
    → find_entry j (es ++ (e ∷ [])) ≡ (if j == e.meta.id then some e else find_entry j es)
unfolding find_entry
find-push j e [] h = ground arith
find-push j e (x ∷ es) h = let ih = find-push j e es in ground arith

-- The closure keeps the identifier of the entry that it changes.
KeepsIdOf : ℕ → Update → Type 0
KeepsIdOf i u = (e : VaultEntry) → e.meta.id ≡ i → (u e).0.meta.id ≡ i

result-change :
    (i : ℕ) (u : Update) (es : List VaultEntry)
    → (change_entry i u es).1 ≡ (change_at i u (look es) (find_entry i es)).1
unfolding change_entry find_entry
result-change i u [] = refl
result-change i u (e ∷ es) = let ih = result-change i u es in ground arith

find-change :
    (i j : ℕ) (u : Update) (es : List VaultEntry)
    → KeepsIdOf i u
    → find_entry j (change_entry i u es).0 ≡ (change_at i u (look es) (find_entry i es)).0 j
unfolding change_entry find_entry KeepsIdOf
find-change i j u [] k = refl
find-change i j u (e ∷ es) k = let ih = find-change i j u es k in let k' = k e in ground arith

find-retain :
    (i j : ℕ) (es : List VaultEntry) → find_entry j (retain_others i es) ≡ put i none (look es) j
unfolding retain_others find_entry
find-retain i j [] = ground arith
find-retain i j (e ∷ es) = let ih = find-retain i j es in ground arith

length-retain :
    (i : ℕ) (es : List VaultEntry)
    → (length (retain_others i es) ≤ length es)
      × ((length (retain_others i es) == length es) ≡ not (is_some (find_entry i es)))
      × (find_entry i es ≡ none → retain_others i es ≡ es)
unfolding retain_others find_entry
length-retain i [] = ground arith
length-retain i (e ∷ es) = let (le, eq, same) = length-retain i es in ground arith

replace-KeepsIdOf : (i : ℕ) (e : VaultEntry) → e.meta.id ≡ i → KeepsIdOf i (replace_with e)
unfolding KeepsIdOf
replace-KeepsIdOf i e h x q = h

update-KeepsIdOf : (i : ℕ) (u : EntryUpdate) → KeepsIdOf i (apply_update u)
unfolding KeepsIdOf
update-KeepsIdOf i u e q = ap (λ m. m.id) (meta-apply_update u e) ∙ q

push-promised :
    (e : VaultEntry) (es : List VaultEntry) (j : ℕ)
    → ((push_entry e es).1 ≡ (add_at e (look es) (find_entry e.meta.id es)).1)
      × (find_entry j (push_entry e es).0 ≡ (add_at e (look es) (find_entry e.meta.id es)).0 j)
unfolding push_entry
push-promised e es j =
    let found = any-find e.meta.id es in let pushed = find-push j e es in ground arith

remove-promised :
    (i : ℕ) (es : List VaultEntry) (j : ℕ)
    → ((remove_entries i es).1 ≡ (remove_at i (look es) (find_entry i es)).1)
      × (find_entry j (remove_entries i es).0 ≡ (remove_at i (look es) (find_entry i es)).0 j)
unfolding remove_entries
remove-promised i es j =
    let (le, eq, same) = length-retain i es in let found = find-retain i j es in ground arith

-- The calls that change the payload implement the dictionary: each answers the promised result, and
-- what is found afterwards under any identifier is what is promised, on success and on failure
-- (a whole entry that replaces another is required to carry its identifier).
pub change_of-promised :
    (c : CrudCall) (es : List VaultEntry) (j : ℕ)
    → KeepsId c
    → ((change_of c es).1 ≡ (promised c (look es)).1)
      × (find_entry j (change_of c es).0 ≡ (promised c (look es)).0 j)
unfolding change_of promised
change_of-promised (adds e) es j k = push-promised e es j
change_of-promised (replaces i e) es j k =
    (result-change i _ es, find-change i j _ es (replace-KeepsIdOf i e k))
change_of-promised (edits i u) es j k =
    (result-change i _ es, find-change i j _ es (update-KeepsIdOf i u))
change_of-promised (deletes i) es j k = remove-promised i es j
