-- ===== src/Crud/Unique.antt =====
-- Identifiers stay unique under the calls of core/entries.rs.
use viper_vault.Base.{ℕ, ◌≡◌, refl, ap, ◌∙◌, false, List, [], ◌∷◌, ◌++◌, ◌==◌, any, arith, ◌||◌}
use viper_vault.Entries.Types.{VaultEntry}
use viper_vault.Entries.Update.{Update}
use viper_vault.Entries.Rejected.{meta-apply_update}
use viper_vault.Crud.{
  has_id, push_entry, change_entry, retain_others, remove_entries, CrudCall, adds, replaces, edits,
  deletes, change_of,
}
use viper_vault.Crud.Dictionary.{KeepsId}

-- No two entries have the same identifier.
unfoldable pub HasUniqueIds : List VaultEntry → Type 0
HasUniqueIds [] = Unit
HasUniqueIds (e ∷ es) = (any (has_id e.meta.id) es ≡ false) × HasUniqueIds es

any-push :
    (i : ℕ) (e : VaultEntry) (es : List VaultEntry)
    → any (has_id i) (es ++ (e ∷ [])) ≡ any (has_id i) es || e.meta.id == i
any-push i e [] = ground arith
any-push i e (x ∷ es) = let ih = any-push i e es in ground arith

push-HasUniqueIds :
    (e : VaultEntry) (es : List VaultEntry)
    → HasUniqueIds es
    → any (has_id e.meta.id) es ≡ false
    → HasUniqueIds (es ++ (e ∷ []))
unfolding HasUniqueIds
push-HasUniqueIds e [] h q = ground arith
push-HasUniqueIds e (x ∷ es) (h, hs) q =
    let ih = push-HasUniqueIds e es hs in let new = any-push x.meta.id e es in ground arith

-- A change of one entry that keeps the identifier of every entry.
any-change :
    (i j : ℕ) (u : Update) (es : List VaultEntry)
    → ((e : VaultEntry) → e.meta.id ≡ i → (u e).0.meta.id ≡ i)
    → any (has_id j) (change_entry i u es).0 ≡ any (has_id j) es
unfolding change_entry
any-change i j u [] k = refl
any-change i j u (e ∷ es) k = let ih = any-change i j u es k in let k' = k e in ground arith

change-HasUniqueIds :
    (i : ℕ) (u : Update) (es : List VaultEntry)
    → ((e : VaultEntry) → e.meta.id ≡ i → (u e).0.meta.id ≡ i)
    → HasUniqueIds es
    → HasUniqueIds (change_entry i u es).0
unfolding change_entry HasUniqueIds
change-HasUniqueIds i u [] k h = tt
change-HasUniqueIds i u (e ∷ es) k (h, hs) =
    let ih = change-HasUniqueIds i u es k hs in
    let others = any-change i e.meta.id u es k in let k' = k e in ground arith

any-retain :
    (i j : ℕ) (es : List VaultEntry)
    → any (has_id j) es ≡ false
    → any (has_id j) (retain_others i es) ≡ false
unfolding retain_others
any-retain i j [] h = refl
any-retain i j (e ∷ es) h = let ih = any-retain i j es in ground arith

retain-HasUniqueIds :
    (i : ℕ) (es : List VaultEntry) → HasUniqueIds es → HasUniqueIds (retain_others i es)
unfolding retain_others HasUniqueIds
retain-HasUniqueIds i [] h = tt
retain-HasUniqueIds i (e ∷ es) (h, hs) =
    let ih = retain-HasUniqueIds i es hs in let others = any-retain i e.meta.id es h in ground arith

-- The identifiers of the stored entries stay pairwise different under every call, whether it
-- succeeds or fails (a whole entry that replaces another is required to carry its identifier).
pub change_of-HasUniqueIds :
    (c : CrudCall) (es : List VaultEntry)
    → KeepsId c
    → HasUniqueIds es
    → HasUniqueIds (change_of c es).0
unfolding change_of push_entry remove_entries
change_of-HasUniqueIds (adds e) es k h = let pushed = push-HasUniqueIds e es h in ground arith
change_of-HasUniqueIds (replaces i e) es k h = change-HasUniqueIds i _ es (λ _ _. k) h
change_of-HasUniqueIds (edits i u) es k h =
    change-HasUniqueIds i _ es (λ e q. ap (λ m. m.id) (meta-apply_update u e) ∙ q) h
change_of-HasUniqueIds (deletes i) es k h = let kept = retain-HasUniqueIds i es h in ground arith
