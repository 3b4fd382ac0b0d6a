-- ===== src/Database/Classify/Skip.antt =====
-- `skipSingleQuoted`, `skipDoubleQuoted`, `skipBacktickQuoted`, `skipDollarQuoted` and
-- `consumeQuoted` of internal/database/classify.go: the length of the quoted text that a string
-- starts with, or 0.
pub mod Laws
use mathlib.Core.Option
use cloudnan_agent.Base.{
  ℕ, zero, suc, ◌+◌, Bool, true, false, ◌&&◌, ◌||◌, [], ◌∷◌, Option, none, some, ◌==◌,
  if◌then◌else◌, within, take, drop, length, Bytes,
}
use cloudnan_agent.Database.Quote.{apostrophe, backslash, backtick, double_quote}
use cloudnan_agent.Text.Search.{index}

-- `i < len(s) && s[i] == b` for the text from `i` on.
abbrev pub next_is : ℕ → Bytes → Bool
next_is b [] = false
next_is b (c ∷ s) = c == b

abbrev pub has_next : Bytes → Bool
has_next [] = false
has_next (c ∷ s) = true

-- The loop over `"..."` or `` `...` `` behind the opening quote: the arguments are the quote, the
-- bytes that the last round stepped over and this one skips, the index, and the text there.
unfoldable pub quoted_from : ℕ → ℕ → ℕ → Bytes → ℕ
quoted_from q skip i [] = 0
quoted_from q (suc skip) i (c ∷ s) = quoted_from q skip i s
quoted_from q zero i (c ∷ s) =
    let doubled = quoted_from q 1 (i + 2) s in
    let inside = quoted_from q 0 (i + 1) s in
    if c == q then (if next_is q s then doubled else i + 1) else inside

-- The loop over `'...'`, where a backslash takes the next byte with it.
unfoldable pub single_quoted_from : ℕ → ℕ → Bytes → ℕ
single_quoted_from skip i [] = 0
single_quoted_from (suc skip) i (c ∷ s) = single_quoted_from skip i s
single_quoted_from zero i (c ∷ s) =
    let two = single_quoted_from 1 (i + 2) s in
    let one = single_quoted_from 0 (i + 1) s in
    if c == backslash && has_next s
    then two
    else if c == apostrophe
    then (if next_is apostrophe s then two else i + 1)
    else one

unfoldable pub skip_single_quoted : Bytes → ℕ
unfolding single_quoted_from
skip_single_quoted [] = 0
skip_single_quoted (c ∷ s) = if c == apostrophe then single_quoted_from 0 1 s else 0

unfoldable pub skip_double_quoted : Bytes → ℕ
unfolding quoted_from
skip_double_quoted [] = 0
skip_double_quoted (c ∷ s) = if c == double_quote then quoted_from double_quote 0 1 s else 0

unfoldable pub skip_backtick_quoted : Bytes → ℕ
unfolding quoted_from
skip_backtick_quoted [] = 0
skip_backtick_quoted (c ∷ s) = if c == backtick then quoted_from backtick 0 1 s else 0

-- A quoted identifier; `none` is the error.
unfoldable pub consume_quoted : Bytes → ℕ → Option ℕ
unfolding quoted_from
consume_quoted [] q = none
consume_quoted (c ∷ s) q =
    if c == q then elim (quoted_from q 0 1 s) [ zero ↦ none | suc n ↦ some (suc n) ] else none

is_tag_byte : ℕ → Bool
is_tag_byte c = c == b'_' || within b'a' b'z' c || within b'A' b'Z' c || within b'0' b'9' c

-- The length of a dollar tag, up to the `$` that closes it.
unfoldable pub tag_length : Bytes → Option ℕ
unfolding is_tag_byte
tag_length [] = none
tag_length (c ∷ s) =
    if c == b'$' then some 0 else if is_tag_byte c then Option.map suc (tag_length s) else none

-- `$tag$ … $tag$`, the opener of `n` bytes.
unfoldable pub dollar_quoted : ℕ → Bytes → ℕ
unfolding index
dollar_quoted n s = elim (index (drop n s) (take n s)) [ none ↦ 0 | some k ↦ n + k + n ]

unfoldable pub skip_dollar_quoted : Bytes → ℕ
unfolding tag_length dollar_quoted
skip_dollar_quoted [] = 0
skip_dollar_quoted (c ∷ s) =
    if c == b'$'
    then elim (tag_length s) [ none ↦ 0 | some n ↦ dollar_quoted (suc (suc n)) (c ∷ s) ]
    else 0
