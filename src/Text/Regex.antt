-- ===== src/Text/Regex.antt =====
-- Package regexp of Go, as far as the program's patterns go: does a text hold a match? A text is read
-- byte by byte, which is as good as rune by rune for these patterns: a class of theirs is one of ASCII
-- bytes or leaves out some of them, and what `(?i)` adds outside ASCII is spelled in `fold`.
pub mod Matches
pub mod Decides
use cloudnan_agent.Base.{
  ℕ, zero, suc, ◌+◌, Bool, true, false, not, ◌&&◌, ◌||◌, List, [], ◌∷◌, ◌++◌, Option, none, some,
  ltb, leb, ◌==◌, within, if◌then◌else◌, length, Bytes,
}

-- The byte in front of the place, and the text behind it.
abbrev pub Place : Type 0
Place = Option ℕ × Bytes

pub data Regex : Type 0 where
  empty : Regex
  class : (ℕ → Bool) → Regex
  seq : Regex → Regex → Regex
  alt : Regex → Regex → Regex
  star : Regex → Regex
  word_boundary : Regex  -- `\b`
  text_end : Regex  -- `$`

-- The bytes of `\w`.
unfoldable pub word : ℕ → Bool
word c = within b'0' b'9' c || within b'A' b'Z' c || within b'a' b'z' c || c == b'_'

abbrev pub word_before : Option ℕ → Bool
word_before none = false
word_before (some c) = word c

abbrev pub word_behind : Bytes → Bool
word_behind [] = false
word_behind (c ∷ s) = word c

abbrev pub differ : Bool → Bool → Bool
differ true b = not b
differ false b = b

abbrev pub at_boundary : Place → Bool
at_boundary (p, s) = differ (word_before p) (word_behind s)

abbrev pub at_end : Place → Bool
at_end (p, []) = true
at_end (p, c ∷ s) = false

-- The rounds of a star that take something, at most as many as there are bytes.
abbrev pub shorter : Place → Place → Bool
shorter (p, s) (q, t) = ltb (length s) (length t)

unfoldable pub rounds : ((Place → Bool) → Place → Bool) → (Place → Bool) → ℕ → Place → Bool
rounds m k zero at = k at
rounds m k (suc n) at = elim (k at) [
  | true ↦ true
  | false ↦ m (λ next. elim (shorter next at) [ true ↦ rounds m k n next | false ↦ false ]) at
]

-- Does the pattern match from a place to one where the continuation goes on?
unfoldable pub run : Regex → (Place → Bool) → Place → Bool
unfolding rounds word
run empty k at = k at
run (class f) k (p, []) = false
run (class f) k (p, c ∷ s) = elim (f c) [ true ↦ k (some c, s) | false ↦ false ]
run (seq r q) k at = run r (run q k) at
run (alt r q) k at = elim (run r k at) [ true ↦ true | false ↦ run q k at ]
run (star r) k at = rounds (run r) k (length at.1) at
run word_boundary k at = elim (at_boundary at) [ true ↦ k at | false ↦ false ]
run text_end k at = elim (at_end at) [ true ↦ k at | false ↦ false ]

abbrev anywhere : Place → Bool
anywhere at = true

-- From every place on.
unfoldable pub search_from : Regex → Option ℕ → Bytes → Bool
unfolding run
search_from r p [] = run r anywhere (p, [])
search_from r p (c ∷ s) = elim (run r anywhere (p, c ∷ s)) [
  | true ↦ true
  | false ↦ search_from r (some c) s
]

-- `MatchString`.
unfoldable pub match_string : Regex → Bytes → Bool
unfolding search_from
match_string r s = search_from r none s
