-- ===== src/Entries/WellFormed.antt =====
-- Entries as entries/types.rs checks them: the title, the note and the username pass their checks, so
-- does the secret of a password, and a TOTP block is exactly in TOTP entries, valid and in step with
-- the mirrored secret. The source checks neither the secret of a secure note or a card nor `extra`.
use mathlib.Core.Path.{subst}
use viper_vault.Base.{
  inl, inr, ℕ, ◌≡◌, refl, Option, none, some, ok, >>-eq-ok, ok-injective, Done-cases, arith, Bytes,
}
use viper_vault.Text.{Str}
use viper_vault.Entries.Validate.{
  validate_title, validate_note, validate_username, validate_password,
}
use viper_vault.Entries.Types.{
  EntryType, password, secure_note, card, totp, TotpSecret, validate_totp, EntrySecret, VaultEntry,
  EntryUpdate, set_title, set_secret, set_note, set_username, set_extra, set_totp, replace,
  when_some, validate_invariants, new_password, new_secure_note, new_totp,
}
use viper_vault.Entries.Update.{
  Update, ◌then_do◌, then-ok, then-err, check_self, write_title, write_note, write_username,
  write_extra, apply_set_secret, apply_set_totp, optional, apply_update,
}

-- A block that validates and whose secret is the mirrored one.
abbrev pub IsMirrored : Option TotpSecret → Str → Type 0
IsMirrored none secret = ⊥
IsMirrored (some t) secret = (validate_totp t ≡ ok tt) × (secret ≡ t.secret_b32)

-- What the type of an entry asks of its secret and its TOTP block.
abbrev pub FitsType : EntryType → EntrySecret → Type 0
FitsType password x = (validate_password x.secret ≡ ok tt) × (x.totp ≡ none)
FitsType totp x = IsMirrored x.totp x.secret
FitsType secure_note x = x.totp ≡ none
FitsType card x = x.totp ≡ none

pub record IsWellFormed (e : VaultEntry) : Type 0 where
  pub titled : validate_title e.secret.title ≡ ok tt
  pub noted : when_some validate_note e.secret.note ≡ ok tt
  pub named : when_some validate_username e.secret.username ≡ ok tt
  pub typed : FitsType e.meta.entry_type e.secret

-- Every password entry that the constructor returns is well formed and has the identifier that was
-- drawn.
new_password-IsWellFormed :
    (id : ℕ) (title : Str) (username : Option Str) (secret : Str) (note : Option Str)
    (e : VaultEntry)
    → new_password id title username secret note ≡ ok e
    → IsWellFormed e × (e.meta.id ≡ id)
unfolding new_password
new_password-IsWellFormed id title username secret note e h =
    let (titled, h₁) = >>-eq-ok (validate_title title) _ h in
    let (noted, h₂) = >>-eq-ok (when_some validate_note note) _ h₁ in
    let (named, h₃) = >>-eq-ok (when_some validate_username username) _ h₂ in
    let (strong, h₄) = >>-eq-ok (validate_password secret) _ h₃ in
    subst (λ x. IsWellFormed x × (x.meta.id ≡ id)) (ok-injective h₄)
      (record { titled = titled; noted = noted; named = named; typed = (strong, refl) }, refl)

-- The same of secure notes: well formed, with the identifier that was drawn.
new_secure_note-IsWellFormed :
    (id : ℕ) (title note : Str) (e : VaultEntry)
    → new_secure_note id title note ≡ ok e
    → IsWellFormed e × (e.meta.id ≡ id)
unfolding new_secure_note
new_secure_note-IsWellFormed id title note e h =
    let (titled, h₁) = >>-eq-ok (validate_title title) _ h in
    let (noted, h₂) = >>-eq-ok (validate_note note) _ h₁ in
    subst (λ x. IsWellFormed x × (x.meta.id ≡ id)) (ok-injective h₂)
      (record { titled = titled; noted = noted; named = refl; typed = refl }, refl)

-- The same of TOTP entries: well formed, with the identifier that was drawn.
new_totp-IsWellFormed :
    (id : ℕ) (title : Str) (t : TotpSecret) (note : Option Str) (e : VaultEntry)
    → new_totp id title t note ≡ ok e
    → IsWellFormed e × (e.meta.id ≡ id)
unfolding new_totp
new_totp-IsWellFormed id title t note e h =
    let (titled, h₁) = >>-eq-ok (validate_title title) _ h in
    let (noted, h₂) = >>-eq-ok (when_some validate_note note) _ h₁ in
    let (valid, h₃) = >>-eq-ok (validate_totp t) _ h₂ in
    let (_, h₄) = >>-eq-ok (validate_totp t) _ h₃ in
    subst (λ x. IsWellFormed x × (x.meta.id ≡ id)) (ok-injective h₄)
      (record { titled = titled; noted = noted; named = refl; typed = (valid, refl) }, refl)

-- The entry is one that a constructor returned, with the identifier that it drew.
pub data IsConstructed (id : ℕ) (e : VaultEntry) : Type 0 where
  by_password :
      (title : Str) (username : Option Str) (secret : Str) (note : Option Str)
      → new_password id title username secret note ≡ ok e
      → IsConstructed id e
  by_secure_note : (title note : Str) → new_secure_note id title note ≡ ok e → IsConstructed id e
  by_totp :
      (title : Str) (t : TotpSecret) (note : Option Str)
      → new_totp id title t note ≡ ok e
      → IsConstructed id e

-- Every entry that a constructor returns, of a password, a secure note or a TOTP block, is well formed
-- and has the identifier that was drawn: its title, note and username pass their checks, the secret of
-- a password entry passes its own, and a TOTP entry, and no other, has a block, which validates and
-- holds the entry's secret.
pub constructed-IsWellFormed :
    (id : ℕ) (e : VaultEntry) → IsConstructed id e → IsWellFormed e × (e.meta.id ≡ id)
constructed-IsWellFormed id e (by_password title username secret note h) =
    new_password-IsWellFormed id title username secret note e h
constructed-IsWellFormed id e (by_secure_note title note h) =
    new_secure_note-IsWellFormed id title note e h
constructed-IsWellFormed id e (by_totp title t note h) = new_totp-IsWellFormed id title t note e h

-- An update that succeeds keeps the predicate.
record Keeps (P : VaultEntry → Type 0) (u : Update) : Type 0 where
  at : (e : VaultEntry) → P e → (u e).1 ≡ ok tt → P (u e).0

Keeps-then :
    {P : VaultEntry → Type 0} (u v : Update) → Keeps P u → Keeps P v → Keeps P (u then_do v)
Keeps-then {P} u v ku kv = record {
  at = λ e h ran. elim (Done-cases (u e).1) [
    | inl q ↦
        let next : (u then_do v) e ≡ v (u e).0 = then-ok u v e q in
        rw next (kv.at (u e).0 (ku.at e h q) (rw next at ran))
    | inr (x, q) ↦ absurd (ground (arith, then-err u v e {x = x} q, ran))
  ];
}

Keeps-optional :
    {A : Type 0} {P : VaultEntry → Type 0} (f : A → Update) (o : Option A)
    → ((a : A) → Keeps P (f a))
    → Keeps P (optional f o)
Keeps-optional f none k = record { at = λ e h ran. h }
Keeps-optional f (some a) k = k a

title-Keeps : (t : Str) → Keeps IsWellFormed (write_title t)
unfolding write_title
title-Keeps t = record { at = λ e h ran. ground arith }

note-Keeps : (n : Option Str) → Keeps IsWellFormed (write_note n)
unfolding write_note
note-Keeps n = record { at = λ e h ran. ground arith }

username-Keeps : (u : Option Str) → Keeps IsWellFormed (write_username u)
unfolding write_username
username-Keeps u = record { at = λ e h ran. ground arith }

extra-Keeps : (x : Option Bytes) → Keeps IsWellFormed (write_extra x)
unfolding write_extra
extra-Keeps x = record { at = λ e h ran. ground arith }

self-Keeps : {P : VaultEntry → Type 0} → Keeps P check_self
unfolding check_self
self-Keeps = record { at = λ e h ran. h }

secret-Keeps : (s : Str) → Keeps IsWellFormed (apply_set_secret s)
unfolding apply_set_secret
secret-Keeps s = record { at = λ e h ran. ground arith }

totp-Keeps : (t : Option TotpSecret) → Keeps IsWellFormed (apply_set_totp t)
unfolding apply_set_totp
totp-Keeps t = record { at = λ e h ran. ground arith }

apply_update-Keeps : (u : EntryUpdate) → Keeps IsWellFormed (apply_update u)
unfolding apply_update
apply_update-Keeps (set_title t) = Keeps-then (write_title t) check_self (title-Keeps t) self-Keeps
apply_update-Keeps (set_note n) = Keeps-then (write_note n) check_self (note-Keeps n) self-Keeps
apply_update-Keeps (set_username u) =
    Keeps-then (write_username u) check_self (username-Keeps u) self-Keeps
apply_update-Keeps (set_secret s) = secret-Keeps s
apply_update-Keeps (set_extra x) = Keeps-then (write_extra x) check_self (extra-Keeps x) self-Keeps
apply_update-Keeps (set_totp t) = totp-Keeps t
apply_update-Keeps (replace title note username secret extra totp') =
    Keeps-then _ check_self
      (Keeps-then _ _
        (Keeps-then _ _
          (Keeps-then _ _
            (Keeps-then _ _
              (Keeps-then _ _ (Keeps-optional write_title title title-Keeps)
                (Keeps-optional write_note note note-Keeps))
              (Keeps-optional write_username username username-Keeps))
            (Keeps-optional apply_set_secret secret secret-Keeps))
          (Keeps-optional write_extra extra extra-Keeps))
        (Keeps-optional apply_set_totp totp' totp-Keeps))
      self-Keeps

-- An update that succeeds, of one field or of several at once, leaves a well-formed entry well
-- formed: its title, note and username pass their checks, the secret of a password entry passes its
-- own, and a TOTP entry, and no other, has a block, which validates and holds the entry's secret.
-- Nothing is said of the secret of a secure note or a card, or of `extra`.
pub apply_update-IsWellFormed :
    (u : EntryUpdate) (e : VaultEntry)
    → IsWellFormed e
    → (apply_update u e).1 ≡ ok tt
    → IsWellFormed (apply_update u e).0
apply_update-IsWellFormed u e h ran = (apply_update-Keeps u).at e h ran

-- A well-formed entry passes the check that deserialization makes.
pub IsWellFormed-valid : (e : VaultEntry) → IsWellFormed e → validate_invariants e ≡ ok tt
unfolding validate_invariants
IsWellFormed-valid e h = ground arith
