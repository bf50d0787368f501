-- ===== src/Clipboard.antt =====
-- The clipboard guard: core/crates/vipervault-core/src/clipboard/guard.rs, with the tasks that it
-- spawns on the runtime. The platform's clipboard is a parameter.
use viper_vault.Base.{
  ℕ, ◌+◌, Bool, true, false, ◌&&◌, List, [], ◌∷◌, Option, none, some, ◌==◌, leb, bytes_eq,
  if◌then◌else◌,
}
use viper_vault.Text.{Str}
pub mod Tracked
pub mod Grounded
pub mod Cleared
pub mod Copied

-- The trait `ClipboardBackend`, on the states S of the platform's clipboard.
pub record ClipboardBackend (S : Type 0) : Type 0 where
  pub set : Str → S → S
  pub get : S → Option Str
  pub clear : S → S

-- Where the body of a spawned task stands: not yet polled; in the sleep, whose end is counted from
-- the first poll; resumed; with `current` read; at its end.
pub data Phase : Type 0 where
  spawned : (timeout : ℕ) → Phase
  sleeping running : (due : ℕ) → Phase
  checking : (due : ℕ) → (current : Option Str) → Phase
  ended : Phase

-- A task with the secret that it captured, under the id of its handle.
pub record ClearTask : Type 0 where
  pub id : ℕ
  pub value : Str
  pub phase : Phase

-- The guard with what it shares with the runtime: the clipboard, the tasks that were not aborted,
-- the clock in milliseconds and the id of the next handle.
pub record World (S : Type 0) : Type 0 where
  pub clipboard : S
  pub task : Option ℕ
  pub tasks : List ClearTask
  pub now : ℕ
  pub next_id : ℕ

-- The task is at its await, or before its first poll.
unfoldable pub is_waiting : Phase → Bool
is_waiting (spawned timeout) = true
is_waiting (sleeping due) = true
is_waiting (running due) = false
is_waiting (checking due current) = false
is_waiting ended = false

-- `JoinHandle::abort` drops a task that waits; one that runs on another thread has no await left and
-- goes on to its end.
unfoldable pub abort_task : ℕ → List ClearTask → List ClearTask
unfolding is_waiting
abort_task i [] = []
abort_task i (t ∷ ts) =
    if is_waiting t.phase && t.id == i then abort_task i ts else t ∷ abort_task i ts

unfoldable pub change_task : ℕ → (ClearTask → ClearTask) → List ClearTask → List ClearTask
change_task i f [] = []
change_task i f (t ∷ ts) = if t.id == i then f t ∷ ts else t ∷ change_task i f ts

unfoldable pub find_task : ℕ → List ClearTask → Option ClearTask
find_task i [] = none
find_task i (t ∷ ts) = if t.id == i then some t else find_task i ts

-- The first poll: `sleep(timeout)` is made, which is over once the timeout has passed.
unfoldable pub begin_sleep : (now : ℕ) → Phase → Phase
begin_sleep now (spawned timeout) = sleeping (now + timeout)
begin_sleep now p = p

-- A poll of the sleep.
unfoldable pub end_sleep : (now : ℕ) → Phase → Phase
end_sleep now (sleeping due) = if leb due now then running due else sleeping due
end_sleep now p = p

-- `let current = backend.get()`
unfoldable pub read_current : (contents : Option Str) → Phase → Phase
read_current contents (running due) = checking due contents
read_current contents p = p

unfoldable pub end_task : Phase → Phase
end_task (checking due current) = ended
end_task p = p

abbrev pub in_phase : (Phase → Phase) → ClearTask → ClearTask
in_phase f t = record t { phase = f t.phase }

module _ {S : Type 0} (b : ClipboardBackend S) where
  unfoldable pub new : S → World S
  new s = record { clipboard = s; task = none; tasks = []; now = 0; next_id = 0 }

  unfoldable pub cancel : World S → World S
  unfolding abort_task
  cancel w = elim w.task [
    | none ↦ w
    | some i ↦ record w { task = none; tasks = abort_task i w.tasks }
  ]

  -- `copy_with_timeout` up to the write of the clipboard, after which a task on another thread may
  -- run before the old one is aborted.
  unfoldable pub write : Str → World S → World S
  write secret w = record w { clipboard = b.set secret w.clipboard }

  -- The rest of it.
  unfoldable pub schedule : Str → (timeout : ℕ) → World S → World S
  unfolding cancel
  schedule secret timeout w =
      let w' : World S = cancel w in
      let t : ClearTask = record { id = w'.next_id; value = secret; phase = spawned timeout } in
      record w' { task = some w'.next_id; tasks = t ∷ w'.tasks; next_id = w'.next_id + 1 }

  unfoldable pub copy_with_timeout : Str → (timeout : ℕ) → World S → World S
  unfolding write schedule
  copy_with_timeout secret timeout w = schedule secret timeout (write secret w)

  -- The body of the task from the comparison on: `value` and `current` are the task's own.
  unfoldable pub clear_if_unchanged : (value : Str) → Phase → S → S
  clear_if_unchanged value (checking due (some cur)) s = if bytes_eq cur value then b.clear s else s
  clear_if_unchanged value p s = s

  unfoldable pub finish : Option ClearTask → S → S
  unfolding clear_if_unchanged
  finish none s = s
  finish (some t) s = clear_if_unchanged t.value t.phase s

-- What can happen to the guard, in any order: the two halves of a copy, a cancellation (which the drop
-- of the guard is too), time that passes, any other program that uses the clipboard, and for the task
-- of an id its first poll, the end of its sleep, its read of the clipboard, and its comparison with
-- what follows from it. An event that the task is not ready for does nothing.
pub data Event (S : Type 0) : Type 0 where
  written : Str → Event S
  scheduled : Str → (timeout : ℕ) → Event S
  cancelled : Event S
  elapsed : ℕ → Event S
  used : (S → S) → Event S
  started woken reads finishes : ℕ → Event S

module _ {S : Type 0} (b : ClipboardBackend S) where
  -- The task of an id goes on to another phase.
  abbrev pub moved : ℕ → (Phase → Phase) → World S → World S
  moved i f w = record w { tasks = change_task i (in_phase f) w.tasks }

  unfoldable pub on_event : Event S → World S → World S
  unfolding write schedule cancel finish find_task change_task begin_sleep end_sleep read_current
      end_task
  on_event (written secret) w = write b secret w
  on_event (scheduled secret timeout) w = schedule b secret timeout w
  on_event cancelled w = cancel b w
  on_event (elapsed n) w = record w { now = w.now + n }
  on_event (used by) w = record w { clipboard = by w.clipboard }
  on_event (started i) w = moved i (begin_sleep w.now) w
  on_event (woken i) w = moved i (end_sleep w.now) w
  on_event (reads i) w = moved i (read_current (b.get w.clipboard)) w
  on_event (finishes i) w = record (moved i end_task w) {
    clipboard = finish b (find_task i w.tasks) w.clipboard;
  }

  unfoldable pub on_events : List (Event S) → World S → World S
  unfolding on_event
  on_events [] w = w
  on_events (e ∷ es) w = on_events es (on_event e w)
