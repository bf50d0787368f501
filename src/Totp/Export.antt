-- ===== src/Totp/Export.antt =====
-- The canonical form of a stored Base32 secret: totp/decode.rs.
use viper_vault.Base.{
  ℕ, ◌-◌, ◌≤◌, ◌≡◌, refl, ap, Bool, true, not, ◌&&◌, ◌||◌, [], ◌∷◌, Result, ok, ◌>>◌, ltb, within,
  ◌==◌, if◌then◌else◌, guard, guard-eq-ok, guard-ok, ok-injective, Bool-cases, inl, inr, arith,
}
use mathlib.Core.Path.{subst}
use viper_vault.Text.{Str, len, len_utf8, is_empty, is_ascii}
use viper_vault.Totp.{TotpError, invalid_secret, trim_end}

-- `c.to_ascii_uppercase()`
unfoldable pub to_ascii_uppercase : ℕ → ℕ
to_ascii_uppercase c = if within b'a' b'z' c then c - 32 else c

-- `!c.is_whitespace() && c != '-'` on an ASCII character.
unfoldable pub is_kept : ℕ → Bool
is_kept c = not (within 9 13 c || c == b' ') && not (c == b'-')

-- The filter and the map of the iterator.
unfoldable pub stripped : Str → Str
unfolding to_ascii_uppercase is_kept
stripped [] = []
stripped (c ∷ cs) = if is_kept c then to_ascii_uppercase c ∷ stripped cs else stripped cs

unfoldable pub canonicalize_base32_for_export : Str → Result TotpError Str
unfolding is_empty is_ascii stripped trim_end
canonicalize_base32_for_export s = do
  guard (not (is_empty s || ltb 1024 (len s))) invalid_secret
  guard (is_ascii s) invalid_secret
  let t : Str = trim_end (stripped s)
  guard (not (is_empty t)) invalid_secret
  ok t

-- A string that stripping leaves as it is.
data IsStripped : Str → Type 0 where
  nothing : IsStripped []
  char :
      (c : ℕ) (s : Str)
      → ltb c 0x80 ≡ true
      → is_kept c ≡ true
      → to_ascii_uppercase c ≡ c
      → IsStripped s
      → IsStripped (c ∷ s)

uppercase-kept :
    (c : ℕ)
    → ltb c 0x80 ≡ true
    → is_kept c ≡ true
    → (ltb (to_ascii_uppercase c) 0x80 ≡ true)
      × (is_kept (to_ascii_uppercase c) ≡ true)
      × (to_ascii_uppercase (to_ascii_uppercase c) ≡ to_ascii_uppercase c)
unfolding to_ascii_uppercase is_kept
uppercase-kept c small kept = ground arith

stripped-IsStripped : (s : Str) → is_ascii s ≡ true → IsStripped (stripped s)
unfolding stripped is_ascii
stripped-IsStripped [] h = nothing
stripped-IsStripped (c ∷ s) h =
    let small : ltb c 0x80 ≡ true = ground arith in
    let rest : is_ascii s ≡ true = ground arith in
    elim (Bool-cases (is_kept c)) [
      | inl kept ↦
          let (a, b, d) = uppercase-kept c small kept in
          rw kept (char (to_ascii_uppercase c) (stripped s) a b d (stripped-IsStripped s rest))
      | inr dropped ↦ rw dropped (stripped-IsStripped s rest)
    ]

trimmed-IsStripped : (s : Str) → IsStripped s → IsStripped (trim_end s)
unfolding trim_end
trimmed-IsStripped _ nothing = nothing
trimmed-IsStripped _ (char c s a b d h) = elim (Bool-cases (is_empty (trim_end s) && c == b'=')) [
  | inl cut ↦ rw cut nothing
  | inr stays ↦ rw stays (char c (trim_end s) a b d (trimmed-IsStripped s h))
]

stripped_same : (s : Str) → IsStripped s → (stripped s ≡ s) × (is_ascii s ≡ true)
unfolding stripped is_ascii
stripped_same _ nothing = (refl, refl)
stripped_same _ (char c s a b d h) =
    let (same, ascii) = stripped_same s h in (rw (b, d, same) refl, rw (a, ascii) refl)

pub trim_end-trim_end : (s : Str) → trim_end (trim_end s) ≡ trim_end s
unfolding trim_end
trim_end-trim_end [] = refl
trim_end-trim_end (c ∷ s) = elim (Bool-cases (is_empty (trim_end s) && c == b'=')) [
  | inl cut ↦ rw cut refl
  | inr stays ↦ rw (stays, trim_end-trim_end s, stays) refl
]

len-trim_end : (s : Str) → len (trim_end s) ≤ len s
unfolding trim_end len
len-trim_end [] = omega arith
len-trim_end (c ∷ s) =
    let shorter = len-trim_end s in
    elim (Bool-cases (is_empty (trim_end s) && c == b'=')) [
      | inl cut ↦ rw cut (omega arith)
      | inr stays ↦ rw stays (omega arith)
    ]

uppercase_width : (c : ℕ) → ltb c 0x80 ≡ true → len_utf8 (to_ascii_uppercase c) ≡ len_utf8 c
unfolding len_utf8 to_ascii_uppercase
uppercase_width c small = ground arith

len-stripped : (s : Str) → is_ascii s ≡ true → len (stripped s) ≤ len s
unfolding stripped len is_ascii
len-stripped [] h = omega arith
len-stripped (c ∷ s) h =
    let small : ltb c 0x80 ≡ true = ground arith in
    let rest : is_ascii s ≡ true = ground arith in
    let shorter = len-stripped s rest in
    let same = uppercase_width c small in
    elim (Bool-cases (is_kept c)) [
      | inl kept ↦ rw kept (omega arith)
      | inr dropped ↦ rw dropped (omega arith)
    ]

-- What canonicalizing a secret answered is its own canonical form, so that exporting what was
-- imported changes nothing more.
pub canonicalize-canonicalize :
    (s t : Str) → canonicalize_base32_for_export s ≡ ok t → canonicalize_base32_for_export t ≡ ok t
unfolding canonicalize_base32_for_export
canonicalize-canonicalize s t h =
    let (fits, h1) = guard-eq-ok (not (is_empty s || ltb 1024 (len s))) invalid_secret _ h in
    let (ascii, h2) = guard-eq-ok (is_ascii s) invalid_secret _ h1 in
    let (some_left, h3) =
      guard-eq-ok (not (is_empty (trim_end (stripped s)))) invalid_secret _ h2 in
    let q : trim_end (stripped s) ≡ t = ok-injective h3 in
    let canon : IsStripped t =
      subst IsStripped q (trimmed-IsStripped (stripped s) (stripped-IsStripped s ascii)) in
    let (same, ascii') = stripped_same t canon in
    let left : not (is_empty t) ≡ true = subst (λ x. not (is_empty x) ≡ true) q some_left in
    let trims : trim_end t ≡ t = subst (λ x. trim_end x ≡ x) q (trim_end-trim_end (stripped s)) in
    let short : len t ≤ len s =
      let a = len-trim_end (stripped s) in
      let b = len-stripped s ascii in let e = ap len q in omega arith in
    let fits' : not (is_empty t || ltb 1024 (len t)) ≡ true = ground arith in
    guard-ok _ invalid_secret _ fits'
      (guard-ok _ invalid_secret _ ascii' (rw (same, trims, left) refl))
