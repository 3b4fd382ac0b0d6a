-- ===== src/Text/Space.antt =====
-- White space: `unicode.IsSpace`, `strings.TrimSpace` and `strings.Fields`. A space outside ASCII is
-- one of a few UTF-8 sequences, whose first byte occurs in no other sequence but at its start, so
-- the byte string is scanned directly.
pub mod Laws
pub mod Trimmed
pub mod Words
use cloudnan_agent.Base.{
  ℕ, zero, suc, Bool, true, false, ◌&&◌, ◌||◌, List, [], ◌∷◌, ◌++◌, ◌==◌, if◌then◌else◌, within,
  Bytes,
}
use mathlib.Core.List.{reverse}

-- Blank, tab, newline, vertical tab, form feed and carriage return.
unfoldable pub ascii_space : ℕ → Bool
ascii_space c = c == b' ' || within 9 13 c

-- U+0085 and U+00A0.
abbrev two_byte_space : ℕ → ℕ → Bool
two_byte_space a b = a == 0xC2 && (b == 0x85 || b == 0xA0)

-- U+1680, U+2000 to U+200A, U+2028, U+2029, U+202F, U+205F and U+3000.
abbrev three_byte_space : ℕ → ℕ → ℕ → Bool
three_byte_space a b c =
    (a == 0xE1 && b == 0x9A && c == 0x80)
    || (a == 0xE2 && b == 0x80 && (within 0x80 0x8A c || c == 0xA8 || c == 0xA9 || c == 0xAF))
    || (a == 0xE2 && b == 0x81 && c == 0x9F)
    || (a == 0xE3 && b == 0x80 && c == 0x80)

-- The bytes of the white space that a text starts with, or 0.
unfoldable pub space_width : Bytes → ℕ
unfolding ascii_space
space_width [] = 0
space_width (a ∷ []) = if ascii_space a then 1 else 0
space_width (a ∷ b ∷ []) = if ascii_space a then 1 else if two_byte_space a b then 2 else 0
space_width (a ∷ b ∷ c ∷ s) =
    if ascii_space a
    then 1
    else if two_byte_space a b
    then 2
    else if three_byte_space a b c
    then 3
    else 0

-- The same of a reversed text, at its end.
unfoldable pub space_width_back : Bytes → ℕ
unfolding ascii_space
space_width_back [] = 0
space_width_back (a ∷ []) = if ascii_space a then 1 else 0
space_width_back (b ∷ a ∷ []) = if ascii_space b then 1 else if two_byte_space a b then 2 else 0
space_width_back (c ∷ b ∷ a ∷ s) =
    if ascii_space c
    then 1
    else if two_byte_space b c
    then 2
    else if three_byte_space a b c
    then 3
    else 0

-- The number counts the bytes of a space that are still to be dropped.
unfoldable pub trim_by : (Bytes → ℕ) → ℕ → Bytes → Bytes
trim_by width skip [] = []
trim_by width (suc skip) (c ∷ s) = trim_by width skip s
trim_by width zero (c ∷ s) = elim (width (c ∷ s)) [ zero ↦ c ∷ s | suc k ↦ trim_by width k s ]

unfoldable pub trim_left : Bytes → Bytes
unfolding trim_by space_width
trim_left s = trim_by space_width 0 s

unfoldable pub trim_right : Bytes → Bytes
unfolding trim_by space_width_back
trim_right s = reverse (trim_by space_width_back 0 (reverse s))

unfoldable pub trim_space : Bytes → Bytes
unfolding trim_left trim_right
trim_space s = trim_right (trim_left s)

-- A word that is not empty, in front of the words behind it.
abbrev pub flush : Bytes → List Bytes → List Bytes
flush [] words = words
flush (c ∷ word) words = (c ∷ word) ∷ words

unfoldable pub fields_from : ℕ → Bytes → Bytes → List Bytes
unfolding space_width
fields_from skip word [] = flush word []
fields_from (suc skip) word (c ∷ s) = fields_from skip word s
fields_from zero word (c ∷ s) = elim (space_width (c ∷ s)) [
  | zero ↦ fields_from 0 (word ++ c ∷ []) s
  | suc k ↦ flush word (fields_from k [] s)
]

unfoldable pub fields : Bytes → List Bytes
unfolding fields_from
fields s = fields_from 0 [] s
