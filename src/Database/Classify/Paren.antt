-- ===== src/Database/Classify/Paren.antt =====
-- `matchParen` and `consumeIdent` of internal/database/classify.go.
use mathlib.Core.Option
use cloudnan_agent.Base.{
  ℕ, zero, suc, Bool, ◌&&◌, ◌||◌, [], ◌∷◌, Option, none, some, ◌==◌, if◌then◌else◌, within, drop,
  leb, Bytes,
}
use cloudnan_agent.Database.Classify.Skip.{
  next_is, skip_single_quoted, skip_double_quoted, skip_backtick_quoted, skip_dollar_quoted,
  consume_quoted,
}
use cloudnan_agent.Database.Classify.Strip.{newline, star_slash}
use cloudnan_agent.Database.Quote.{apostrophe, backtick, double_quote}
use cloudnan_agent.Text.Search.{index, index_byte}

-- The nesting depth, an `int`: below zero it is -(n + 1).
pub data Depth : Type 0 where
  open_parens : ℕ → Depth
  below_zero : ℕ → Depth

abbrev pub deeper : Depth → Depth
deeper (open_parens n) = open_parens (suc n)
deeper (below_zero zero) = open_parens 0
deeper (below_zero (suc n)) = below_zero n

abbrev pub shallower : Depth → Depth
shallower (open_parens (suc n)) = open_parens n
shallower (open_parens zero) = below_zero 0
shallower (below_zero n) = below_zero (suc n)

-- One round: the matching parenthesis, -1, or the depth and the bytes stepped over besides the
-- first.
pub data ParenStep : Type 0 where
  matched : ParenStep
  unbalanced : ParenStep
  walk : Depth → ℕ → ParenStep

abbrev pub at_depth : Depth → ParenStep
at_depth (open_parens zero) = matched
at_depth d = walk d 0

abbrev pub walk_quoted : Depth → ℕ → ParenStep
walk_quoted d zero = unbalanced
walk_quoted d (suc n) = walk d n

unfoldable pub paren_step : Depth → ℕ → Bytes → ParenStep
unfolding index index_byte skip_single_quoted skip_double_quoted skip_backtick_quoted
    skip_dollar_quoted
paren_step d c s =
    if c == b'('
    then walk (deeper d) 0
    else if c == b')'
    then at_depth (shallower d)
    else if c == apostrophe
    then walk_quoted d (skip_single_quoted (c ∷ s))
    else if c == double_quote
    then walk_quoted d (skip_double_quoted (c ∷ s))
    else if c == backtick
    then walk_quoted d (skip_backtick_quoted (c ∷ s))
    else if c == b'$'
    then elim (skip_dollar_quoted (c ∷ s)) [ zero ↦ walk d 0 | suc n ↦ walk d n ]
    else if c == b'-' && next_is b'-' s
    then elim (index_byte (c ∷ s) newline) [ none ↦ unbalanced | some nl ↦ walk d nl ]
    else if c == b'/' && next_is b'*' s
    then elim (index (drop 1 s) star_slash) [
      | none ↦ unbalanced
      | some end ↦ walk d (suc (suc (suc end)))
    ]
    else walk d 0

-- The loop: the bytes still to skip, the depth, the index, and the text there.
unfoldable pub match_from : ℕ → Depth → ℕ → Bytes → Option ℕ
unfolding paren_step
match_from skip d i [] = none
match_from (suc skip) d i (c ∷ s) = match_from skip d (suc i) s
match_from zero d i (c ∷ s) = elim (paren_step d c s) [
  | matched ↦ some i
  | unbalanced ↦ none
  | walk d' skip ↦ match_from skip d' (suc i) s
]

unfoldable pub match_paren : Bytes → Option ℕ
unfolding match_from
match_paren s = match_from 0 (open_parens 0) 0 s

-- `r >= 0x80 || unicode.IsLetter(r) || unicode.IsDigit(r) || r == '_'` of one byte.
unfoldable pub word_byte : ℕ → Bool
word_byte c =
    leb 0x80 c || within b'a' b'z' c || within b'A' b'Z' c || within b'0' b'9' c || c == b'_'

-- How many bytes at the start pass the test.
unfoldable pub span_length : (ℕ → Bool) → Bytes → ℕ
span_length p [] = 0
span_length p (c ∷ s) = if p c then suc (span_length p s) else 0

-- A bare identifier, possibly `schema.table`.
unfoldable pub bare_identifier : Bytes → Option ℕ
unfolding span_length word_byte
bare_identifier s = elim (span_length (λ c. c == b'.' || word_byte c) s) [
  | zero ↦ none
  | suc n ↦ some (suc n)
]

unfoldable pub consume_ident : Bytes → Option ℕ
unfolding consume_quoted bare_identifier index_byte
consume_ident [] = none
consume_ident (c ∷ s) =
    if c == double_quote
    then consume_quoted (c ∷ s) double_quote
    else if c == backtick
    then consume_quoted (c ∷ s) backtick
    else if c == b'['
    then Option.map (λ end. suc (suc end)) (index_byte s b']')
    else bare_identifier (c ∷ s)
