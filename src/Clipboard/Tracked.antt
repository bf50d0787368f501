-- ===== src/Clipboard/Tracked.antt =====
-- The tasks of the guard that wait (clipboard/guard.rs): one at most, which the guard can abort.
use viper_vault.Base.{
  ℕ, ◌+◌, ◌≤◌, ◌≡◌, refl, sym, true, false, List, [], ◌∷◌, Option, none, some, ◌==◌, ==_iff, arith,
  if◌then◌else◌, Bool-cases, inl, inr, some-injective,
}
use viper_vault.Text.{Str}
use viper_vault.Clipboard.{
  ClipboardBackend, Phase, spawned, sleeping, running, checking, ended, ClearTask, World, Event,
  written, scheduled, cancelled, elapsed, used, started, woken, reads, finishes, is_waiting,
  abort_task, change_task, begin_sleep, end_sleep, read_current, end_task, in_phase, new, cancel,
  schedule, write, moved, on_event, on_events,
}

abbrev pub Each : (ClearTask → Type 0) → List ClearTask → Type 0
Each P [] = Unit {0}
Each P (t ∷ ts) = P t × Each P ts

-- The secret last scheduled, unless it was cancelled since, by the events alone.
unfoldable pub last_after : {S : Type 0} → Event S → Option Str → Option Str
last_after (scheduled secret timeout) last = some secret
last_after cancelled last = none
last_after e last = last

unfoldable pub last_scheduled : {S : Type 0} → List (Event S) → Option Str → Option Str
unfolding last_after
last_scheduled [] last = last
last_scheduled (e ∷ es) last = last_scheduled es (last_after e last)

unfoldable pub waiting : List ClearTask → ℕ
unfolding is_waiting
waiting [] = 0
waiting (t ∷ ts) = (if is_waiting t.phase then 1 else 0) + waiting ts

-- A task that waits is the one whose handle the guard has, and it captured the given secret.
abbrev pub IsHeld : (task : Option ℕ) → (last : Option Str) → ClearTask → Type 0
IsHeld task last t = is_waiting t.phase ≡ true → (task ≡ some t.id) × (last ≡ some t.value)

abbrev pub IsTracked : {S : Type 0} → (last : Option Str) → World S → Type 0
IsTracked last w = Each (IsHeld w.task last) w.tasks × (waiting w.tasks ≤ 1)

-- A phase that waits comes only from one that waits.
abbrev Advances : (Phase → Phase) → Type 0
Advances f = (p : Phase) → is_waiting (f p) ≡ true → is_waiting p ≡ true

change-IsHeld :
    (task : Option ℕ) (last : Option Str) (i : ℕ) (f : Phase → Phase) (ts : List ClearTask)
    → Advances f
    → Each (IsHeld task last) ts
    → Each (IsHeld task last) (change_task i (in_phase f) ts)
unfolding change_task
change-IsHeld task last i f [] adv h = tt
change-IsHeld task last i f (t ∷ ts) adv (ht, hs) = elim (Bool-cases (t.id == i)) [
  | inl same ↦ rw same ((λ waits. ht (adv t.phase waits)), hs)
  | inr other ↦ rw other (ht, change-IsHeld task last i f ts adv hs)
]

change-waiting :
    (i : ℕ) (f : Phase → Phase) (ts : List ClearTask)
    → Advances f
    → waiting (change_task i (in_phase f) ts) ≤ waiting ts
unfolding change_task waiting
change-waiting i f [] adv = omega arith
change-waiting i f (t ∷ ts) adv =
    let ih = change-waiting i f ts adv in
    elim (Bool-cases (t.id == i)) [
      | inr other ↦ rw other (omega arith)
      | inl same ↦ rw same (elim (Bool-cases (is_waiting (f t.phase))) [
        | inl waits ↦ let before = adv t.phase waits in rw (waits, before) (omega arith)
        | inr rests ↦ rw rests (omega arith)
      ])
    ]

abbrev pub IsIdle : ClearTask → Type 0
IsIdle t = is_waiting t.phase ≡ false

idle-IsHeld :
    (task : Option ℕ) (last : Option Str) (ts : List ClearTask)
    → Each IsIdle ts
    → Each (IsHeld task last) ts
idle-IsHeld task last [] h = tt
idle-IsHeld task last (t ∷ ts) (ht, hs) = ((λ waits. cc), idle-IsHeld task last ts hs)

idle-waiting : (ts : List ClearTask) → Each IsIdle ts → waiting ts ≡ 0
unfolding waiting
idle-waiting [] h = refl
idle-waiting (t ∷ ts) (ht, hs) = rw ht (omega (arith, idle-waiting ts hs))

abort-IsIdle :
    (i : ℕ) (last : Option Str) (ts : List ClearTask)
    → Each (IsHeld (some i) last) ts
    → Each IsIdle (abort_task i ts)
unfolding abort_task
abort-IsIdle i last [] h = tt
abort-IsIdle i last (t ∷ ts) (ht, hs) = elim (Bool-cases (is_waiting t.phase)) [
  | inr rests ↦ rw rests (rests, abort-IsIdle i last ts hs)
  | inl waits ↦
      let own : (t.id == i) ≡ true = (==_iff t.id i).1 (sym (some-injective (ht waits).0)) in
      rw (waits, own) (abort-IsIdle i last ts hs)
]

unowned-IsIdle :
    (last : Option Str) (ts : List ClearTask) → Each (IsHeld none last) ts → Each IsIdle ts
unowned-IsIdle last [] h = tt
unowned-IsIdle last (t ∷ ts) (ht, hs) = elim (Bool-cases (is_waiting t.phase)) [
  | inr rests ↦ (rests, unowned-IsIdle last ts hs)
  | inl waits ↦ let held = (ht waits).0 in cc
]

module _ {S : Type 0} (b : ClipboardBackend S) where
  cancel_of-IsIdle :
      (w : World S) (task : Option ℕ) (last : Option Str)
      → Each (IsHeld task last) w.tasks
      → Each IsIdle (cancel b (record w { task = task })).tasks
  unfolding cancel
  cancel_of-IsIdle w none last h = unowned-IsIdle last w.tasks h
  cancel_of-IsIdle w (some i) last h = abort-IsIdle i last w.tasks h

  pub cancel-IsIdle :
      (w : World S) (last : Option Str)
      → Each (IsHeld w.task last) w.tasks
      → Each IsIdle (cancel b w).tasks
  cancel-IsIdle w last h = cancel_of-IsIdle w w.task last h

  moved-IsTracked :
      (last : Option Str) (w : World S) (i : ℕ) (f : Phase → Phase)
      → Advances f
      → IsTracked last w
      → IsTracked last (moved b i f w)
  moved-IsTracked last w i f adv (held, few) =
      let fewer = change-waiting i f w.tasks adv in
      (change-IsHeld w.task last i f w.tasks adv held, omega arith)

  begin-Advances : (now : ℕ) → Advances (begin_sleep now)
  unfolding begin_sleep is_waiting
  begin-Advances now (spawned timeout) h = h
  begin-Advances now (sleeping due) h = h
  begin-Advances now (running due) h = h
  begin-Advances now (checking due current) h = h
  begin-Advances now ended h = h

  end-Advances : (now : ℕ) → Advances (end_sleep now)
  unfolding end_sleep is_waiting
  end-Advances now (spawned timeout) h = h
  end-Advances now (sleeping due) h = refl
  end-Advances now (running due) h = h
  end-Advances now (checking due current) h = h
  end-Advances now ended h = h

  read-Advances : (contents : Option Str) → Advances (read_current contents)
  unfolding read_current is_waiting
  read-Advances contents (spawned timeout) h = h
  read-Advances contents (sleeping due) h = h
  read-Advances contents (running due) h = h
  read-Advances contents (checking due current) h = h
  read-Advances contents ended h = h

  task_end-Advances : Advances end_task
  unfolding end_task is_waiting
  task_end-Advances (spawned timeout) h = h
  task_end-Advances (sleeping due) h = h
  task_end-Advances (running due) h = h
  task_end-Advances (checking due current) h = h
  task_end-Advances ended h = h

  pub on_event-IsTracked :
      (e : Event S) (last : Option Str) (w : World S)
      → IsTracked last w
      → IsTracked (last_after e last) (on_event b e w)
  unfolding on_event last_after write schedule waiting
  on_event-IsTracked (written secret) last w h = h
  on_event-IsTracked (scheduled secret timeout) last w (held, few) =
      let idle = cancel-IsIdle w last held in
      let none_waits = idle-waiting (cancel b w).tasks idle in
      (
        ((λ waits. (refl, refl)), idle-IsHeld _ _ (cancel b w).tasks idle),
        omega (arith, none_waits),
      )
  on_event-IsTracked cancelled last w (held, few) =
      let idle = cancel-IsIdle w last held in
      let none_waits = idle-waiting (cancel b w).tasks idle in
      (idle-IsHeld _ _ (cancel b w).tasks idle, omega (arith, none_waits))
  on_event-IsTracked (elapsed n) last w h = h
  on_event-IsTracked (used by) last w h = h
  on_event-IsTracked (started i) last w h =
      moved-IsTracked last w i (begin_sleep w.now) (begin-Advances w.now) h
  on_event-IsTracked (woken i) last w h =
      moved-IsTracked last w i (end_sleep w.now) (end-Advances w.now) h
  on_event-IsTracked (reads i) last w h =
      moved-IsTracked last w i _ (read-Advances (b.get w.clipboard)) h
  on_event-IsTracked (finishes i) last w h = moved-IsTracked last w i end_task task_end-Advances h

  on_events-IsTracked_from :
      (es : List (Event S)) (last : Option Str) (w : World S)
      → IsTracked last w
      → IsTracked (last_scheduled es last) (on_events b es w)
  unfolding on_events last_scheduled
  on_events-IsTracked_from [] last w h = h
  on_events-IsTracked_from (e ∷ es) last w h =
      on_events-IsTracked_from es (last_after e last) (on_event b e w)
        (on_event-IsTracked e last w h)

-- After any history of the guard, in which the halves of copies, cancellations, the steps of the tasks,
-- time and other programs come in any order, at most one task waits for its timeout: the one whose
-- handle the guard has, so that the guard can abort it. It captured the secret that was last scheduled
-- and was not cancelled since.
pub on_events-IsTracked :
    {S : Type 0} (b : ClipboardBackend S) (es : List (Event S)) (s : S)
    → IsTracked (last_scheduled es none) (on_events b es (new b s))
unfolding new waiting
on_events-IsTracked b es s = on_events-IsTracked_from b es none (new b s) (tt, omega arith)
