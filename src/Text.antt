-- ===== src/Text.antt =====
-- Rust strings. A `str` is the list of its characters, each a Unicode scalar value as a number; its
-- `len` counts the bytes of its UTF-8 form, and an ASCII string is its own list of bytes.
use viper_vault.Base.{
  ℕ, ◌+◌, Bool, true, false, ◌||◌, List, [], ◌∷◌, ltb, within, if◌then◌else◌, all,
}

abbrev pub Str : Type 0
Str = List ℕ

-- `char::len_utf8`
unfoldable pub len_utf8 : ℕ → ℕ
len_utf8 c = if ltb c 0x80 then 1 else if ltb c 0x800 then 2 else if ltb c 0x10000 then 3 else 4

-- `str::len`
unfoldable pub len : Str → ℕ
unfolding len_utf8
len [] = 0
len (c ∷ s) = len_utf8 c + len s

unfoldable pub is_empty : Str → Bool
is_empty [] = true
is_empty (c ∷ s) = false

-- `char::is_control`: general category Cc
unfoldable pub is_control : ℕ → Bool
is_control c = ltb c 0x20 || within 0x7F 0x9F c

unfoldable pub is_ascii : Str → Bool
is_ascii s = all (λ c. ltb c 0x80) s
