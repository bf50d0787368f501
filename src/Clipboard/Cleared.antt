-- ===== src/Clipboard/Cleared.antt =====
-- When the guard clears the clipboard (clipboard/guard.rs).
use viper_vault.Base.{
  ℕ, ◌+◌, ◌≤◌, ◌≡◌, refl, ap, ◌∙◌, ◌⊎◌, inl, inr, List, [], ◌∷◌, Option, none, some, arith, ==_refl,
  leb, if◌then◌else◌, Bool-cases, bytes_eq, bytes_eq_sound, bytes_eq_refl,
}
use mathlib.Core.Path.{subst}
use viper_vault.Text.{Str}
use viper_vault.Clipboard.{
  ClipboardBackend, Phase, spawned, sleeping, running, checking, ended, ClearTask, World, Event,
  moved, elapsed, started, woken, reads, finishes, change_task, find_task, begin_sleep, end_sleep,
  read_current, clear_if_unchanged, finish, new, cancel, write, schedule, copy_with_timeout,
  on_event, on_events,
}
use viper_vault.Clipboard.Grounded.{Passed, IsGrounded, on_events-AreGrounded, find-IsGrounded}

-- Why the task of an id may clear the clipboard of the last world: it has a secret, and in a world
-- that the history passed through, when its time had come, the clipboard held that very secret.
pub record IsJustified {S : Type 0} (b : ClipboardBackend S) (es : List (Event S)) (w : World S)
    (i : ℕ) : Type 0 where
  pub t : ClearTask
  pub found : find_task i (on_events b es w).tasks ≡ some t
  pub due : ℕ
  pub compared : t.phase ≡ checking due (some t.value)
  pub read_in : World S
  pub passed : Passed b es w read_in
  pub over : due ≤ read_in.now
  pub held : b.get read_in.clipboard ≡ some t.value

module _ {S : Type 0} (b : ClipboardBackend S) where
  -- A task clears only after it has read its own secret.
  clears-read :
      (value : Str) (p : Phase) (s : S)
      → (clear_if_unchanged b value p s ≡ s)
        ⊎ ((due : ℕ) × (p ≡ checking due (some value))
            × (clear_if_unchanged b value p s ≡ b.clear s))
  unfolding clear_if_unchanged
  clears-read value (spawned timeout) s = inl refl
  clears-read value (sleeping due) s = inl refl
  clears-read value (running due) s = inl refl
  clears-read value (checking due none) s = inl refl
  clears-read value (checking due (some cur)) s = elim (Bool-cases (bytes_eq cur value)) [
    | inl same ↦ inr (
      due,
      ap (λ x. checking due (some x)) (bytes_eq_sound cur value same),
      rw (same, clear_if_unchanged) refl,
    )
    | inr differs ↦ inl (rw (differs, clear_if_unchanged) refl)
  ]
  clears-read value ended s = inl refl

  finish-clears :
      (o : Option ClearTask) (s : S)
      → (finish b o s ≡ s)
        ⊎ ((t : ClearTask) × (due : ℕ) × (o ≡ some t)
            × (t.phase ≡ checking due (some t.value))
            × (finish b o s ≡ b.clear s))
  unfolding finish
  finish-clears none s = inl refl
  finish-clears (some t) s = elim (clears-read t.value t.phase s) [
    | inl same ↦ inl same
    | inr (due, compared, clears) ↦ inr (t, due, refl, compared, clears)
  ]

-- After any history of the guard, in which the halves of copies, cancellations, the steps of the tasks,
-- time and other programs come in any order, the comparison of a task leaves the clipboard as it was,
-- or it clears it, and then the task has read the clipboard in a world that the history passed
-- through, after the end of its sleep, and found there the very secret that it captured. (Another
-- program, or a new copy, may write the clipboard between that read and the clearing.)
pub finishes_clears_only :
    {S : Type 0} (b : ClipboardBackend S) (es : List (Event S)) (s : S) (i : ℕ)
    → let w = on_events b es (new b s) in
      ((on_event b (finishes i) w).clipboard ≡ w.clipboard)
      ⊎ (((on_event b (finishes i) w).clipboard ≡ b.clear w.clipboard)
          × IsJustified b es (new b s) i)
unfolding on_event new
finishes_clears_only b es s i =
    let w = on_events b es (new b s) in
    elim (finish-clears b (find_task i w.tasks) w.clipboard) [
      | inl same ↦ inl same
      | inr (t, due, found, compared, clears) ↦
          let K : World _ → Type 0 = Passed b es (new b s) in
          let grounded = on_events-AreGrounded b K es (new b s) (λ w0 p. p) tt in
          let g = find-IsGrounded b K w.now i w.tasks grounded found in
          let (w0, p, over, held) = subst (IsGrounded b K w.now) compared g in
          inr (
            clears,
            record {
              t = t;
              found = found;
              due = due;
              compared = compared;
              read_in = w0;
              passed = p;
              over = over;
              held = held;
            },
          )
    ]

-- A clipboard that answers the text it was last set to.
abbrev pub IsFaithful : {S : Type 0} → ClipboardBackend S → Type 0
IsFaithful {S} b = (secret : Str) (s : S) → b.get (b.set secret s) ≡ some secret

-- The clipboard after the task of an id went on by itself: polled for the first time after some
-- delay, and again n milliseconds later.
abbrev pub clipboard_after : {S : Type 0} → ClipboardBackend S → (i delay n : ℕ) → World S → S
clipboard_after b i delay n w =
    (on_events b
      (elapsed delay ∷ (started i ∷ (elapsed n ∷ (woken i ∷ (reads i ∷ (finishes i ∷ []))))))
      w).clipboard

leb-later : (now timeout n : ℕ) → leb (now + timeout) (now + n) ≡ leb timeout n
leb-later now timeout n = ground arith

module _ {S : Type 0} (b : ClipboardBackend S) where
  -- A copy leaves its task in front of those that the cancellation left.
  abbrev copied_world : Str → ℕ → World S → World S
  copied_world secret timeout w = record {
    clipboard = b.set secret w.clipboard;
    task = some w.next_id;
    tasks = record { id = w.next_id; value = secret; phase = spawned timeout } ∷ (cancel b w).tasks;
    now = w.now;
    next_id = w.next_id + 1;
  }

  copy_of-closed :
      (secret : Str) (timeout : ℕ) (w : World S) (task : Option ℕ)
      → copy_with_timeout b secret timeout (record w { task = task })
        ≡ copied_world secret timeout (record w { task = task })
  unfolding copy_with_timeout schedule write cancel
  copy_of-closed secret timeout w none = refl
  copy_of-closed secret timeout w (some i) = refl

  pub copy-closed :
      (secret : Str) (timeout : ℕ) (w : World S)
      → copy_with_timeout b secret timeout w ≡ copied_world secret timeout w
  copy-closed secret timeout w = copy_of-closed secret timeout w w.task

  -- A world with the task of a copy in front, at some time and in some phase.
  abbrev fronted : ℕ → Str → World S → List ClearTask → (now : ℕ) → Phase → World S
  fronted i value w ts now p = record w {
    tasks = record { id = i; value = value; phase = p } ∷ ts;
    now = now;
  }

  moved-fronted :
      (i : ℕ) (value : Str) (w : World S) (ts : List ClearTask) (now : ℕ) (p : Phase)
      (f : Phase → Phase)
      → moved b i f (fronted i value w ts now p) ≡ fronted i value w ts now (f p)
  unfolding change_task
  moved-fronted i value w ts now p f = rw (==_refl i) refl

  finish-fronted :
      (i : ℕ) (value : Str) (w : World S) (ts : List ClearTask) (now : ℕ) (p : Phase)
      → (on_event b (finishes i) (fronted i value w ts now p)).clipboard
        ≡ clear_if_unchanged b value p w.clipboard
  unfolding on_event find_task finish
  finish-fronted i value w ts now p = rw (==_refl i) refl

  -- The way of the task in front through its phases.
  fronted-finishes :
      (i : ℕ) (value : Str) (w : World S) (ts : List ClearTask) (now delay n : ℕ) (p : Phase)
      → clipboard_after b i delay n (fronted i value w ts now p)
        ≡ clear_if_unchanged b value
            (read_current
              (b.get w.clipboard)
              (end_sleep (now + delay + n) (begin_sleep (now + delay) p)))
            w.clipboard
  unfolding on_events
  fronted-finishes i value w ts now delay n p =
      let t1 : ℕ = now + delay in
      let t2 : ℕ = now + delay + n in
      let p1 : Phase = begin_sleep t1 p in
      let p2 : Phase = end_sleep t2 p1 in
      let p3 : Phase = read_current (b.get w.clipboard) p2 in
      let rest1 : World S → S =
        (λ x. (on_events b (elapsed n ∷ (woken i ∷ (reads i ∷ (finishes i ∷ [])))) x).clipboard) in
      let rest2 : World S → S = (λ x. (on_events b (reads i ∷ (finishes i ∷ [])) x).clipboard) in
      let rest3 : World S → S = (λ x. (on_event b (finishes i) x).clipboard) in
      ap rest1 (moved-fronted i value w ts t1 p (begin_sleep t1))
      ∙ ap rest2 (moved-fronted i value w ts t2 p1 (end_sleep t2))
      ∙ ap rest3 (moved-fronted i value w ts t2 p2 (read_current (b.get w.clipboard)))
      ∙ finish-fronted i value w ts t2 p3

  slept-clears :
      (secret : Str) (timeout now n : ℕ) (s : S)
      → b.get s ≡ some secret
      → clear_if_unchanged b secret
          (read_current (b.get s) (end_sleep (now + n) (begin_sleep now (spawned timeout))))
          s
        ≡ (if leb timeout n then b.clear s else s)
  unfolding begin_sleep end_sleep read_current clear_if_unchanged
  slept-clears secret timeout now n s read = elim (Bool-cases (leb timeout n)) [
    | inl over ↦
        rw (leb-later now timeout n, over, read, bytes_eq_refl secret, clear_if_unchanged) refl
    | inr early ↦ rw (leb-later now timeout n, early) refl
  ]

  -- A copy is on the clipboard until its task clears it, which it does once the timeout has passed
  -- since its first poll.
  pub copy_then_cleared :
      IsFaithful b
      → (secret : Str) (timeout delay n : ℕ) (w : World S)
      → clipboard_after b w.next_id delay n (copy_with_timeout b secret timeout w)
        ≡ (if leb timeout n then b.clear (b.set secret w.clipboard) else b.set secret w.clipboard)
  copy_then_cleared faithful secret timeout delay n w =
      let w' : World S = copied_world secret timeout w in
      ap (clipboard_after b w.next_id delay n) (copy-closed secret timeout w)
      ∙ fronted-finishes w.next_id secret w' (cancel b w).tasks w.now delay n (spawned timeout)
      ∙ slept-clears secret timeout (w.now + delay) n (b.set secret w.clipboard)
          (faithful secret w.clipboard)
