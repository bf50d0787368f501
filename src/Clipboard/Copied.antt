-- ===== src/Clipboard/Copied.antt =====
-- What the calls of the vault copy through the guard: core/entries.rs and totp/clipboard.rs.
use viper_vault.Base.{
  ◌≤◌, some-injective, true, [], ◌∷◌, ◌∙◌, ap, sym, ℕ, ◌*◌, ◌≡◌, refl, List, Option, none, some,
  Result, ok, err, Done, leb, if◌then◌else◌,
}
use mathlib.Core.Path.{subst}
use viper_vault.Text.{Str}
use viper_vault.Session.{SensitiveOperation}
use viper_vault.Entries.Types.{TotpSecret}
use viper_vault.LockState.Types.{VaultLockManager}
use viper_vault.Crud.{Serde, reveal_entry_secret_for_operation, copy_entry_secret_for_operation}
use viper_vault.Totp.{Base32, Hmac, TotpError}
use viper_vault.Totp.Format.{totp_generate_formatted}
use viper_vault.Clipboard.{
  ClipboardBackend, ClearTask, World, Event, scheduled, is_waiting, new, write, on_event, on_events,
  copy_with_timeout,
}
use viper_vault.Clipboard.Tracked.{
  Each, waiting, IsHeld, IsTracked, last_after, last_scheduled, on_event-IsTracked,
  on_events-IsTracked,
}
use viper_vault.Clipboard.Cleared.{IsFaithful, clipboard_after, copy-closed, copy_then_cleared}

-- In milliseconds, as the clock.
abbrev pub default_otp_clipboard_timeout : ℕ
default_otp_clipboard_timeout = 30 * 1000

-- `timeout.unwrap_or(..)`
abbrev pub or_default : Option ℕ → ℕ
or_default none = default_otp_clipboard_timeout
or_default (some timeout) = timeout

-- The new world, when there is a code.
unfoldable pub totp_generate_and_copy_to_clipboard :
    {S : Type 0}
    → Base32
    → Hmac
    → ClipboardBackend S
    → TotpSecret
    → (unix_time_secs : ℕ) → World S
    → Option ℕ
    → World S × Result TotpError Done
unfolding totp_generate_formatted copy_with_timeout
totp_generate_and_copy_to_clipboard codec hmac b t time w timeout =
    elim (totp_generate_formatted codec hmac t time) [
      | ok formatted ↦ (copy_with_timeout b formatted (or_default timeout) w, ok tt)
      | err x ↦ (w, err x)
    ]

-- The tasks that wait are those of the given id.
abbrev pub OnlyWaits : ℕ → List ClearTask → Type 0
OnlyWaits i ts = Each (λ t. is_waiting t.phase ≡ true → t.id ≡ i) ts

-- The world and the answer after what was to be copied was read. On an error nothing happens. Else the
-- text is on the clipboard; of all tasks only the new one waits; and as it goes on by itself,
-- polled for the first time after any delay and again after n milliseconds, it clears the clipboard if n
-- reaches the timeout, and leaves the text there if not.
abbrev pub IsCopied :
    {S E : Type 0}
    → ClipboardBackend S
    → World S
    → (timeout : ℕ) → Result E Str
    → World S × Result E Done
    → Type 0
IsCopied b w timeout (err x) out = out ≡ (w, err x)
IsCopied b w timeout (ok text) out =
    (out.1 ≡ ok tt)
    × (out.0.clipboard ≡ b.set text w.clipboard)
    × OnlyWaits w.next_id out.0.tasks
    × (waiting out.0.tasks ≤ 1)
    × ((delay n : ℕ)
        → clipboard_after b w.next_id delay n out.0
          ≡ (if leb timeout n then b.clear (b.set text w.clipboard) else b.set text w.clipboard))

held-OnlyWaits :
    (task : Option ℕ) (last : Option Str) (i : ℕ) (ts : List ClearTask)
    → task ≡ some i
    → Each (IsHeld task last) ts
    → OnlyWaits i ts
held-OnlyWaits task last i [] own h = tt
held-OnlyWaits task last i (t ∷ ts) own (ht, hs) =
    ((λ waits. some-injective (sym (ht waits).0 ∙ own)), held-OnlyWaits task last i ts own hs)

copied-OnlyWaits :
    {S : Type 0} (b : ClipboardBackend S) (last : Option Str) (text : Str) (timeout : ℕ)
    (w : World S)
    → IsTracked last w
    → OnlyWaits w.next_id (copy_with_timeout b text timeout w).tasks
unfolding copy_with_timeout on_event last_after
copied-OnlyWaits b last text timeout w tracked =
    let held = on_event-IsTracked b (scheduled text timeout) last (write b text w) tracked in
    held-OnlyWaits _ (some text) w.next_id (copy_with_timeout b text timeout w).tasks
      (ap (λ x. x.task) (copy-closed b text timeout w)) held.0

module _ {S : Type 0} (b : ClipboardBackend S) (faithful : IsFaithful b) (es : List (Event S))
    (s : S) (w : World S) (reached : on_events b es (new b s) ≡ w) where
  text-IsCopied :
      {E : Type 0} (timeout : ℕ) (r : Result E Str)
      → IsCopied b w timeout r
          (elim r [ ok text ↦ (copy_with_timeout b text timeout w, ok tt) | err x ↦ (w, err x) ])
  unfolding copy_with_timeout on_event
  text-IsCopied timeout (err x) = refl
  text-IsCopied timeout (ok text) =
      let last : Option Str = last_scheduled es none in
      let tracked : IsTracked last w =
        subst (λ (x : World S). IsTracked last x) reached (on_events-IsTracked b es s) in
      (
        refl,
        ap (λ x. x.clipboard) (copy-closed b text timeout w),
        copied-OnlyWaits b last text timeout w tracked,
        (on_event-IsTracked b (scheduled text timeout) last (write b text w) tracked).1,
        (λ delay n. copy_then_cleared b faithful text timeout delay n w),
      )

  -- After any history of the guard, copying a TOTP code answers the error of its generation and changes
  -- nothing, or it succeeds and the code that was generated is copied until the given or the default
  -- timeout.
  pub totp_copy-IsCopied :
      (codec : Base32) (hmac : Hmac) (t : TotpSecret) (time : ℕ) (timeout : Option ℕ)
      → IsCopied b w
          (or_default timeout)
          (totp_generate_formatted codec hmac t time)
          (totp_generate_and_copy_to_clipboard codec hmac b t time w timeout)
  unfolding totp_generate_and_copy_to_clipboard
  totp_copy-IsCopied codec hmac t time timeout =
      text-IsCopied (or_default timeout) (totp_generate_formatted codec hmac t time)

  -- After any history of the guard, copying the secret of an entry either answers the error of
  -- revealing it and changes nothing, or it succeeds and the secret that would be revealed is on the
  -- clipboard. Then of all tasks only the new one waits, and as it goes on by itself, polled for the
  -- first time after any delay and again after n milliseconds, it clears the clipboard if n reaches the
  -- timeout, and leaves the secret there if not. The clipboard answers the text it was last set to.
  pub copy_entry_secret-IsCopied :
      (serde : Serde) (m : VaultLockManager) (i : ℕ) (op : SensitiveOperation) (timeout : ℕ)
      → IsCopied b w timeout
          (reveal_entry_secret_for_operation serde m i op)
          (copy_entry_secret_for_operation (copy_with_timeout b) serde m i op w timeout)
  unfolding copy_entry_secret_for_operation
  copy_entry_secret-IsCopied serde m i op timeout =
      text-IsCopied timeout (reveal_entry_secret_for_operation serde m i op)
