-- ===== src/LockState/Tasks.antt =====
-- Laws of the runtime's task list: what a lookup by number answers after a change or a removal, and
-- predicates that hold of every task.
use mathlib.Core.Path.{subst}
use viper_vault.Base.{
  Bool-cases, inl, inr, ℕ, ◌≡◌, ◌≢◌, refl, some, List, [], ◌∷◌, arith, ◌==◌, map,
}
use viper_vault.LockState.Types.{Task, find_task, update_task, remove_task}

pub find-update_ne :
    (i j : ℕ) (f : Task → Task) (ts : List Task)
    → i ≢ j
    → ((t : Task) → (f t).id ≡ t.id)
    → find_task i (update_task j f ts) ≡ find_task i ts
unfolding find_task update_task
find-update_ne i j f [] n k = refl
find-update_ne i j f (t ∷ ts) n k = ground (arith, k t, find-update_ne i j f ts n k)

pub find-update_self :
    (i : ℕ) (f : Task → Task) (ts : List Task) {t : Task}
    → ((u : Task) → (f u).id ≡ u.id)
    → find_task i ts ≡ some t
    → find_task i (update_task i f ts) ≡ some (f t)
unfolding find_task update_task
find-update_self i f [] k h = cc
find-update_self i f (u ∷ ts) {t} k h = ground (arith, k u, find-update_self i f ts {t = t} k)

pub find-remove_ne :
    (i j : ℕ) (ts : List Task) → i ≢ j → find_task i (remove_task j ts) ≡ find_task i ts
unfolding find_task remove_task
find-remove_ne i j [] n = refl
find-remove_ne i j (t ∷ ts) n = ground (arith, find-remove_ne i j ts n)

pub find-map :
    (i : ℕ) (f : Task → Task) (ts : List Task) {t : Task}
    → ((u : Task) → (f u).id ≡ u.id)
    → find_task i ts ≡ some t
    → find_task i (map f ts) ≡ some (f t)
unfolding find_task
find-map i f [] k h = cc
find-map i f (u ∷ ts) {t} k h = ground (arith, k u, find-map i f ts {t = t} k)

pub find-id : (i : ℕ) (ts : List Task) {t : Task} → find_task i ts ≡ some t → t.id ≡ i
unfolding find_task
find-id i [] h = cc
find-id i (u ∷ ts) {t} h = ground (arith, find-id i ts {t = t})

-- Every task satisfies the predicate.
abbrev pub AllTasks : (Task → Type 0) → List Task → Type 0
AllTasks P [] = Unit {0}
AllTasks P (t ∷ ts) = P t × AllTasks P ts

pub AllTasks-update :
    (P : Task → Type 0) (i : ℕ) (f : Task → Task) (ts : List Task)
    → ((t : Task) → P t → P (f t))
    → AllTasks P ts
    → AllTasks P (update_task i f ts)
unfolding update_task
AllTasks-update P i f [] k h = tt
AllTasks-update P i f (t ∷ ts) k h = ground (arith, k t h.0, AllTasks-update P i f ts k h.1)

pub AllTasks-remove :
    (P : Task → Type 0) (i : ℕ) (ts : List Task) → AllTasks P ts → AllTasks P (remove_task i ts)
unfolding remove_task
AllTasks-remove P i [] h = tt
AllTasks-remove P i (t ∷ ts) h = ground (arith, AllTasks-remove P i ts h.1)

pub AllTasks-map :
    (P : Task → Type 0) (f : Task → Task) (ts : List Task)
    → ((t : Task) → P t → P (f t))
    → AllTasks P ts
    → AllTasks P (map f ts)
AllTasks-map P f [] k h = tt
AllTasks-map P f (t ∷ ts) k h = (k t h.0, AllTasks-map P f ts k h.1)

pub AllTasks-find :
    (P : Task → Type 0) (i : ℕ) (ts : List Task) {t : Task}
    → AllTasks P ts
    → find_task i ts ≡ some t
    → P t
unfolding find_task
AllTasks-find P i [] h e = cc
AllTasks-find P i (u ∷ ts) {t} h e = elim (Bool-cases (u.id == i)) [
  | inl hit ↦ let same : u ≡ t = ground arith in subst P same h.0
  | inr miss ↦ AllTasks-find P i ts h.1 (rw miss at e)
]

pub AllTasks-weaken :
    (P Q : Task → Type 0) (ts : List Task)
    → ((t : Task) → P t → Q t)
    → AllTasks P ts
    → AllTasks Q ts
AllTasks-weaken P Q [] k h = tt
AllTasks-weaken P Q (t ∷ ts) k h = (k t h.0, AllTasks-weaken P Q ts k h.1)
