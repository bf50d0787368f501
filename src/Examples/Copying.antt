-- ===== src/Examples/Copying.antt =====
-- The clipboard guard on a clipboard that holds one text (clipboard/guard.rs).
use viper_vault.Base.{bytes_eq, ◌≡◌, refl, ◌⊎◌, List, [], ◌∷◌, Option, none, some}
use viper_vault.Text.{Str}
use viper_vault.Clipboard.{
  ClipboardBackend, Event, written, scheduled, cancelled, elapsed, used, started, woken, reads,
  finishes, new, on_event, on_events, copy_with_timeout,
}
use viper_vault.Session.{reveal_secret}
use viper_vault.Crud.{reveal_entry_secret_for_operation, copy_entry_secret_for_operation}
use viper_vault.Clipboard.Copied.{IsCopied, copy_entry_secret-IsCopied}
use viper_vault.Examples.Stored.{mail, two_payloads, opened}
use viper_vault.Clipboard.Tracked.{IsTracked, last_scheduled, on_events-IsTracked}
use viper_vault.Clipboard.Cleared.{IsFaithful, IsJustified, finishes_clears_only}

abbrev one_text : ClipboardBackend (Option Str)
one_text = record { set = λ s _. some s; get = λ c. c; clear = λ _. none }

one_text-IsFaithful : IsFaithful one_text
one_text-IsFaithful secret s = refl

abbrev hunter : Str
hunter = 104 ∷ (117 ∷ [])

abbrev twice : List (Event (Option Str))
twice =
    written hunter
    ∷ (scheduled hunter 20
        ∷ (started 0 ∷ (elapsed 15 ∷ (written hunter ∷ (scheduled hunter 20 ∷ (started 1 ∷ []))))))

abbrev read_twice : List (Event (Option Str))
read_twice =
    written hunter
    ∷ (scheduled hunter 20
        ∷ (started 0 ∷ (elapsed 20 ∷ (woken 0 ∷ (reads 0 ∷ (written hunter ∷ []))))))

on_events-IsTracked_example :
    IsTracked (last_scheduled twice none) (on_events one_text twice (new one_text none))
on_events-IsTracked_example = on_events-IsTracked one_text twice none

finishes_clears_only_example :
    let w = on_events one_text read_twice (new one_text none) in
    ((on_event one_text (finishes 0) w).clipboard ≡ w.clipboard)
    ⊎ (((on_event one_text (finishes 0) w).clipboard ≡ one_text.clear w.clipboard)
        × IsJustified one_text read_twice (new one_text none) 0)
finishes_clears_only_example = finishes_clears_only one_text read_twice none 0

copy_entry_secret-IsCopied_example :
    IsCopied one_text
      (on_events one_text twice (new one_text none))
      30
      (reveal_entry_secret_for_operation (two_payloads (mail ∷ []) []) (opened 0) 1 reveal_secret)
      (copy_entry_secret_for_operation
        (copy_with_timeout one_text)
        (two_payloads (mail ∷ []) [])
        (opened 0)
        1
        reveal_secret
        (on_events one_text twice (new one_text none))
        30)
copy_entry_secret-IsCopied_example =
    copy_entry_secret-IsCopied one_text one_text-IsFaithful twice none
      (on_events one_text twice (new one_text none)) refl (two_payloads (mail ∷ []) []) (opened 0) 1
      reveal_secret 30

-- The task of the first copy has read its text when the second copy, of another one, writes the
-- clipboard: it goes on to clear what the second copy wrote.
recopied_empty :
    (on_events one_text
      (written hunter
        ∷ (scheduled hunter 20
            ∷ (started 0
                ∷ (elapsed 20
                    ∷ (woken 0
                        ∷ (reads 0
                            ∷ (written (b'x' ∷ [])
                                ∷ (scheduled (b'x' ∷ []) 20 ∷ (finishes 0 ∷ [])))))))))
      (new one_text none)).clipboard
    ≡ none
unfolding on_events new bytes_eq
recopied_empty = refl

abbrev undisturbed : (between : Event (Option Str)) → Option Str
undisturbed between =
    (on_events one_text
      (written hunter
        ∷ (scheduled hunter 20
            ∷ (started 0 ∷ (between ∷ (elapsed 30 ∷ (woken 0 ∷ (reads 0 ∷ (finishes 0 ∷ []))))))))
      (new one_text none)).clipboard

cancelled_stays : undisturbed cancelled ≡ some hunter
unfolding on_events new bytes_eq
cancelled_stays = refl

other_text_stays : undisturbed (used (λ _. some [])) ≡ some []
unfolding on_events new bytes_eq
other_text_stays = refl

timeout_clears : undisturbed (elapsed 0) ≡ none
unfolding on_events new bytes_eq
timeout_clears = refl
