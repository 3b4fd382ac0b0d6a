-- ===== src/Database/Classify/Strip.antt =====
-- `stripCommentsAndCheckSingle` of internal/database/classify.go. A round of its loop is a call of
-- `scan_step`, which says what to write and by how much to advance.

pub mod Laws
pub mod Statements
use cloudnan_agent.Base.{
  ℕ, zero, suc, ◌+◌, Bool, true, false, ◌&&◌, ◌||◌, [], ◌∷◌, ◌++◌, Option, none, some, ◌==◌,
  if◌then◌else◌, take, drop, length, Bytes, codes, Outcome, ok, err,
}
use cloudnan_agent.Database.Classify.Skip.{
  next_is, skip_single_quoted, skip_double_quoted, skip_backtick_quoted, skip_dollar_quoted,
}
use cloudnan_agent.Database.Quote.{apostrophe, backtick, double_quote}
use cloudnan_agent.Text.Search.{index, index_byte}

pub data SqlError : Type 0 where
  unterminated_block_comment multiple_statements unterminated_string_literal : SqlError
  unterminated_quoted_identifier unterminated_backtick_identifier empty_statement : SqlError

-- One round of the loop: an error, the early `return "", nil`, or the bytes written, the new value
-- of `sawTerminator` and how many bytes are stepped over besides the first.
pub data ScanStep : Type 0 where
  fail : SqlError → ScanStep
  return_empty : ScanStep
  advance : Bytes → Bool → ℕ → ScanStep

abbrev pub newline : ℕ
newline = 10

abbrev pub is_blank : ℕ → Bool
is_blank c = c == b' ' || c == 9 || c == newline || c == 13

abbrev pub star_slash : Bytes
star_slash = b'*' ∷ b'/' ∷ []

-- A round behind the terminator, at the byte `c` in front of `s`.
unfoldable pub tail_step : ℕ → Bytes → ScanStep
unfolding index index_byte
tail_step c s =
    if is_blank c
    then advance [] true 0
    else if c == b';'
    then advance [] true 0
    else if c == b'-' && next_is b'-' s
    then elim (index_byte (c ∷ s) newline) [ none ↦ return_empty | some nl ↦ advance [] true nl ]
    else if c == b'/' && next_is b'*' s
    then elim (index (drop 1 s) star_slash) [
      | none ↦ fail unterminated_block_comment
      | some end ↦ advance [] true (suc (suc (suc end)))
    ]
    else fail multiple_statements

-- A text in quotes of `n` bytes is copied; 0 is an error.
abbrev pub copy_quoted : SqlError → Bytes → ℕ → ScanStep
copy_quoted e s zero = fail e
copy_quoted e s (suc n) = advance (take (suc n) s) false n

-- A dollar quote is copied; 0 is a stray `$`.
abbrev pub copy_dollar : Bytes → ℕ → ScanStep
copy_dollar s zero = advance (b'$' ∷ []) false 0
copy_dollar s (suc n) = advance (take (suc n) s) false n

-- A round in front of the terminator.
unfoldable pub head_step : ℕ → Bytes → ScanStep
unfolding index index_byte skip_single_quoted skip_double_quoted skip_backtick_quoted
    skip_dollar_quoted
head_step c s =
    if c == b'-' && next_is b'-' s
    then elim (index_byte (c ∷ s) newline) [
      | none ↦ advance (b' ' ∷ []) false (length s)
      | some nl ↦ advance (b' ' ∷ []) false nl
    ]
    else if c == b'/' && next_is b'*' s
    then elim (index (drop 1 s) star_slash) [
      | none ↦ fail unterminated_block_comment
      | some end ↦ advance (b' ' ∷ []) false (suc (suc (suc end)))
    ]
    else if c == apostrophe
    then copy_quoted unterminated_string_literal (c ∷ s) (skip_single_quoted (c ∷ s))
    else if c == double_quote
    then copy_quoted unterminated_quoted_identifier (c ∷ s) (skip_double_quoted (c ∷ s))
    else if c == backtick
    then copy_quoted unterminated_backtick_identifier (c ∷ s) (skip_backtick_quoted (c ∷ s))
    else if c == b'$'
    then copy_dollar (c ∷ s) (skip_dollar_quoted (c ∷ s))
    else if c == b';'
    then advance [] true 0
    else advance (c ∷ []) false 0

unfoldable pub scan_step : Bool → ℕ → Bytes → ScanStep
unfolding tail_step head_step
scan_step true c s = tail_step c s
scan_step false c s = head_step c s

-- The loop: the bytes still to skip, `sawTerminator`, the output, and the text from `i` on.
unfoldable pub strip_from : ℕ → Bool → Bytes → Bytes → Outcome SqlError Bytes
unfolding scan_step
strip_from skip saw out [] = ok out
strip_from (suc skip) saw out (c ∷ s) = strip_from skip saw out s
strip_from zero saw out (c ∷ s) = elim (scan_step saw c s) [
  | fail e ↦ err e
  | return_empty ↦ ok []
  | advance written saw' skip ↦ strip_from skip saw' (out ++ written) s
]

unfoldable pub strip_comments_and_check_single : Bytes → Outcome SqlError Bytes
unfolding strip_from
strip_comments_and_check_single sql = strip_from 0 false [] sql
