-- ===== src/Clipboard/Grounded.antt =====
-- What a clear task has waited for and read (clipboard/guard.rs).
use viper_vault.Base.{
  ◌&&◌, ℕ, ◌+◌, ◌≤◌, ◌≡◌, refl, ◌⊎◌, inl, inr, List, [], ◌∷◌, Option, none, some, arith, ◌==◌, leb,
  leb→le, Bool-cases, some-injective,
}
use mathlib.Core.Path.{subst}
use viper_vault.Text.{Str}
use viper_vault.Clipboard.{
  ClipboardBackend, Phase, spawned, sleeping, running, checking, ended, ClearTask, World, Event,
  written, scheduled, cancelled, elapsed, used, started, woken, reads, finishes, is_waiting,
  abort_task, change_task, find_task, begin_sleep, end_sleep, read_current, end_task, in_phase,
  cancel, write, schedule, on_event, on_events,
}
use viper_vault.Clipboard.Tracked.{Each}

-- The worlds that a history passes through, each just before one of its events.
abbrev pub Passed : {S : Type 0} → ClipboardBackend S → List (Event S) → World S → World S → Type 0
Passed b [] w w0 = ⊥
Passed b (e ∷ es) w w0 = (w0 ≡ w) ⊎ Passed b es (on_event b e w) w0

module _ {S : Type 0} (b : ClipboardBackend S) (K : World S → Type 0) where
  -- What a task that went on after its sleep relies on: its time has come, and what it read was on the
  -- clipboard of a world with K, when its time had come.
  abbrev pub IsGrounded : (now : ℕ) → Phase → Type 0
  IsGrounded now (running due) = due ≤ now
  IsGrounded now (checking due (some cur)) =
      (w0 : World S) × K w0 × (due ≤ w0.now) × (b.get w0.clipboard ≡ some cur)
  IsGrounded now p = Unit {0}

  abbrev pub AreGrounded : (now : ℕ) → List ClearTask → Type 0
  AreGrounded now ts = Each (λ t. IsGrounded now t.phase) ts

  change-AreGrounded :
      (now i : ℕ) (f : Phase → Phase) (ts : List ClearTask)
      → ((p : Phase) → IsGrounded now p → IsGrounded now (f p))
      → AreGrounded now ts
      → AreGrounded now (change_task i (in_phase f) ts)
  unfolding change_task
  change-AreGrounded now i f [] k h = tt
  change-AreGrounded now i f (t ∷ ts) k (ht, hs) = elim (Bool-cases (t.id == i)) [
    | inl same ↦ rw same (k t.phase ht, hs)
    | inr other ↦ rw other (ht, change-AreGrounded now i f ts k hs)
  ]

  abort-AreGrounded :
      (now i : ℕ) (ts : List ClearTask) → AreGrounded now ts → AreGrounded now (abort_task i ts)
  unfolding abort_task
  abort-AreGrounded now i [] h = tt
  abort-AreGrounded now i (t ∷ ts) (ht, hs) =
      let rest = abort-AreGrounded now i ts hs in
      elim (Bool-cases (is_waiting t.phase && t.id == i)) [
        | inl gone ↦ rw gone rest
        | inr stays ↦ rw stays (ht, rest)
      ]

  cancel-AreGrounded :
      (w : World S) (task : Option ℕ)
      → AreGrounded w.now w.tasks
      → AreGrounded
          (cancel b (record w { task = task })).now
          (cancel b (record w { task = task })).tasks
  unfolding cancel
  cancel-AreGrounded w none h = h
  cancel-AreGrounded w (some i) h = abort-AreGrounded w.now i w.tasks h

  later-IsGrounded : (now n : ℕ) (p : Phase) → IsGrounded now p → IsGrounded (now + n) p
  later-IsGrounded now n (spawned timeout) h = tt
  later-IsGrounded now n (sleeping due) h = tt
  later-IsGrounded now n (running due) h = omega arith
  later-IsGrounded now n (checking due none) h = tt
  later-IsGrounded now n (checking due (some cur)) h = h
  later-IsGrounded now n ended h = tt

  later-AreGrounded :
      (now n : ℕ) (ts : List ClearTask) → AreGrounded now ts → AreGrounded (now + n) ts
  later-AreGrounded now n [] h = tt
  later-AreGrounded now n (t ∷ ts) (ht, hs) =
      (later-IsGrounded now n t.phase ht, later-AreGrounded now n ts hs)

  begin-IsGrounded : (now : ℕ) (p : Phase) → IsGrounded now p → IsGrounded now (begin_sleep now p)
  unfolding begin_sleep
  begin-IsGrounded now (spawned timeout) h = tt
  begin-IsGrounded now (sleeping due) h = tt
  begin-IsGrounded now (running due) h = h
  begin-IsGrounded now (checking due current) h = h
  begin-IsGrounded now ended h = tt

  end-IsGrounded : (now : ℕ) (p : Phase) → IsGrounded now p → IsGrounded now (end_sleep now p)
  unfolding end_sleep
  end-IsGrounded now (spawned timeout) h = tt
  end-IsGrounded now (sleeping due) h = elim (Bool-cases (leb due now)) [
    | inl over ↦ rw over (leb→le due now over)
    | inr early ↦ rw early tt
  ]
  end-IsGrounded now (running due) h = h
  end-IsGrounded now (checking due current) h = h
  end-IsGrounded now ended h = tt

  read-IsGrounded :
      (w : World S) (contents : Option Str) (p : Phase)
      → K w
      → b.get w.clipboard ≡ contents
      → IsGrounded w.now p
      → IsGrounded w.now (read_current contents p)
  unfolding read_current
  read-IsGrounded w contents (spawned timeout) k q h = tt
  read-IsGrounded w contents (sleeping due) k q h = tt
  read-IsGrounded w none (running due) k q h = tt
  read-IsGrounded w (some cur) (running due) k q h = (w, k, h, q)
  read-IsGrounded w contents (checking due current) k q h = h
  read-IsGrounded w contents ended k q h = tt

  task_end-IsGrounded : (now : ℕ) (p : Phase) → IsGrounded now p → IsGrounded now (end_task p)
  unfolding end_task
  task_end-IsGrounded now (spawned timeout) h = tt
  task_end-IsGrounded now (sleeping due) h = tt
  task_end-IsGrounded now (running due) h = h
  task_end-IsGrounded now (checking due current) h = tt
  task_end-IsGrounded now ended h = tt

  on_event-AreGrounded :
      (e : Event S) (w : World S)
      → K w
      → AreGrounded w.now w.tasks
      → AreGrounded (on_event b e w).now (on_event b e w).tasks
  unfolding on_event write schedule
  on_event-AreGrounded (written secret) w k h = h
  on_event-AreGrounded (scheduled secret timeout) w k h = (tt, cancel-AreGrounded w w.task h)
  on_event-AreGrounded cancelled w k h = cancel-AreGrounded w w.task h
  on_event-AreGrounded (elapsed n) w k h = later-AreGrounded w.now n w.tasks h
  on_event-AreGrounded (used by) w k h = h
  on_event-AreGrounded (started i) w k h =
      change-AreGrounded w.now i _ w.tasks (begin-IsGrounded w.now) h
  on_event-AreGrounded (woken i) w k h =
      change-AreGrounded w.now i _ w.tasks (end-IsGrounded w.now) h
  on_event-AreGrounded (reads i) w k h =
      change-AreGrounded w.now i _ w.tasks (λ p. read-IsGrounded w (b.get w.clipboard) p k refl) h
  on_event-AreGrounded (finishes i) w k h =
      change-AreGrounded w.now i _ w.tasks (task_end-IsGrounded w.now) h

  pub on_events-AreGrounded :
      (es : List (Event S)) (w : World S)
      → ((w0 : World S) → Passed b es w w0 → K w0)
      → AreGrounded w.now w.tasks
      → AreGrounded (on_events b es w).now (on_events b es w).tasks
  unfolding on_events
  on_events-AreGrounded [] w k h = h
  on_events-AreGrounded (e ∷ es) w k h =
      on_events-AreGrounded es (on_event b e w) (λ w0 p. k w0 (inr p))
        (on_event-AreGrounded e w (k w (inl refl)) h)

  pub find-IsGrounded :
      (now i : ℕ) (ts : List ClearTask) {t : ClearTask}
      → AreGrounded now ts
      → find_task i ts ≡ some t
      → IsGrounded now t.phase
  unfolding find_task
  find-IsGrounded now i [] h f = cc
  find-IsGrounded now i (u ∷ ts) {t} (hu, hs) f = elim (Bool-cases (u.id == i)) [
    | inl same ↦
        let q : some u ≡ some t = rw (find_task, same) at f in
        subst (λ (x : ClearTask). IsGrounded now x.phase) (some-injective q) hu
    | inr other ↦ find-IsGrounded now i ts hs (rw (find_task, other) at f)
  ]
