-- ===== src/Database/Classify/With.antt =====
-- `firstKeyword` and `classifyWith` of internal/database/classify.go.
pub mod Total
use cloudnan_agent.Base.{
  ℕ, zero, suc, Bool, true, false, ◌&&◌, ◌||◌, [], ◌∷◌, Option, none, some, ◌==◌, if◌then◌else◌,
  take, drop, length, Bytes, codes,
}
use cloudnan_agent.Database.Classify.Paren.{word_byte, span_length, consume_ident, match_paren}
use cloudnan_agent.Text.Case.{to_lower, bytes_equal}
use cloudnan_agent.Text.Search.{has_prefix}
use cloudnan_agent.Text.Space.{trim_space, ascii_space}

-- `StatementUnknown` is never returned.
pub data StatementKind : Type 0 where
  statement_unknown statement_read statement_write : StatementKind

unfoldable pub first_keyword : Bytes → Bytes × Bytes
unfolding span_length word_byte
first_keyword sql = let end = span_length word_byte sql in (take end sql, drop end sql)

-- `isSpaceOrParen` of one byte as a code point.
unfoldable pub is_space_or_paren : ℕ → Bool
unfolding ascii_space
is_space_or_paren c = ascii_space c || c == 0x85 || c == 0xA0 || c == b'('

unfoldable pub at_space_or_paren : Bytes → Bool
unfolding is_space_or_paren
at_space_or_paren [] = false
at_space_or_paren (c ∷ s) = is_space_or_paren c

abbrev pub and_then : {A B : Type 0} → Option A → (A → Option B) → Option B
and_then none f = none
and_then (some a) f = f a

-- The optional column list; `none` is the early return of a write.
unfoldable pub skip_columns : Bytes → Option Bytes
unfolding has_prefix trim_space match_paren
skip_columns rest =
    if has_prefix rest (codes "(")
    then elim (match_paren rest) [
      | none ↦ none
      | some end ↦ some (trim_space (drop (suc end) rest))
    ]
    else some rest

-- The required body in parentheses.
unfoldable pub skip_body : Bytes → Option Bytes
unfolding has_prefix trim_space match_paren
skip_body rest =
    if has_prefix rest (codes "(")
    then elim (match_paren rest) [
      | none ↦ none
      | some end ↦ some (trim_space (drop (suc end) rest))
    ]
    else none

module _ (unicode_lower : Bytes → Bytes) where
  unfoldable pub skip_recursive : Bytes → Bytes
  unfolding to_lower has_prefix trim_space at_space_or_paren
  skip_recursive rest =
      if has_prefix (to_lower unicode_lower rest) (codes "recursive")
        && at_space_or_paren (drop 9 rest)
      then trim_space (drop 9 rest)
      else rest

  unfoldable pub skip_as : Bytes → Option Bytes
  unfolding has_prefix to_lower trim_space
  skip_as rest =
      if has_prefix (to_lower unicode_lower rest) (codes "as")
      then some (trim_space (drop 2 rest))
      else none

  unfoldable pub skip_materialized : Bytes → Bytes
  unfolding has_prefix to_lower trim_space
  skip_materialized rest =
      let lower = to_lower unicode_lower rest in
      if has_prefix lower (codes "not materialized")
      then trim_space (drop 16 rest)
      else if has_prefix lower (codes "materialized")
      then trim_space (drop 12 rest)
      else rest

  -- One `cte_name [(columns)] AS [[NOT] MATERIALIZED] (body)`: the text behind it, or `none` for
  -- the returns of a write.
  unfoldable pub skip_cte : Bytes → Option Bytes
  unfolding consume_ident skip_columns skip_as skip_materialized skip_body
  skip_cte rest = and_then (consume_ident rest) λ consumed.
      and_then (skip_columns (trim_space (drop consumed rest)))
        λ behind. and_then (skip_as behind) λ behind_as. skip_body (skip_materialized behind_as)

  -- The verdict at the keyword behind the last CTE.
  unfoldable pub body_kind : Bytes → StatementKind
  unfolding first_keyword to_lower bytes_equal
  body_kind rest =
      let body = to_lower unicode_lower (first_keyword rest).0 in
      if bytes_equal body (codes "select") || bytes_equal body (codes "values")
      then statement_read
      else statement_write

  -- The loop over the CTEs on fuel; `none` means that the fuel ran out.
  unfoldable pub cte_loop : ℕ → Bytes → Option StatementKind
  unfolding skip_cte has_prefix trim_space body_kind
  cte_loop zero rest = none
  cte_loop (suc fuel) rest = elim (skip_cte rest) [
    | none ↦ some statement_write
    | some behind ↦
        let again = cte_loop fuel (trim_space (drop 1 behind)) in
        if has_prefix behind (codes ",") then again else some (body_kind behind)
  ]

  -- Each CTE takes a byte at least, so the length of the text is fuel enough.
  unfoldable pub classify_with : Bytes → Option StatementKind
  unfolding skip_recursive cte_loop trim_space
  classify_with rest =
      let text = skip_recursive (trim_space rest) in cte_loop (suc (length text)) text
