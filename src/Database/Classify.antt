-- ===== src/Database/Classify.antt =====
-- internal/database/classify.go: is one SQL statement read-only? The scanners are in Skip (text in
-- quotes), Strip (comments and the end of the statement), Paren (balanced parentheses) and With.
pub mod Skip
pub mod Strip
pub mod Paren
pub mod With
pub mod Verdict
pub mod Known
pub mod Evasion
pub mod WritableCte
use cloudnan_agent.Base.{
  Bool, true, false, ◌||◌, List, [], ◌∷◌, Option, none, some, if◌then◌else◌, Bytes, codes, Outcome,
  ok, err,
}
use cloudnan_agent.Database.Classify.Strip.{
  SqlError, empty_statement, strip_comments_and_check_single,
}
use cloudnan_agent.Database.Classify.With.{
  StatementKind, statement_read, statement_write, first_keyword, classify_with,
}
use cloudnan_agent.Text.Case.{to_lower, bytes_equal}
use cloudnan_agent.Text.Space.{trim_space}

abbrev pub read_keywords : List Bytes
read_keywords =
    codes "select"
    ∷ codes "show"
    ∷ codes "explain"
    ∷ codes "describe"
    ∷ codes "desc"
    ∷ codes "values"
    ∷ codes "table"
    ∷ []

-- A lookup in the set of keywords.
unfoldable pub has_keyword : List Bytes → Bytes → Bool
unfolding bytes_equal
has_keyword [] word = false
has_keyword (k ∷ keywords) word = bytes_equal k word || has_keyword keywords word

-- The verdict at the keyword in lower case; the second argument is that of WITH.
unfoldable pub keyword_verdict :
    Bytes → Option StatementKind → Option (Outcome SqlError StatementKind)
keyword_verdict first with_kind =
    if bytes_equal first (codes "with")
    then elim with_kind [ none ↦ none | some kind ↦ some (ok kind) ]
    else if has_keyword read_keywords first
    then some (ok statement_read)
    else some (ok statement_write)

module _ (unicode_lower : Bytes → Bytes) where
  -- The verdict on a text that is stripped and trimmed; `none` means that the fuel ran out.
  unfoldable pub classify_stripped : Bytes → Option (Outcome SqlError StatementKind)
  unfolding first_keyword to_lower classify_with has_keyword bytes_equal keyword_verdict
  classify_stripped [] = some (err empty_statement)
  classify_stripped (c ∷ s) =
      let (first, rest) = first_keyword (c ∷ s) in
      keyword_verdict (to_lower unicode_lower first) (classify_with unicode_lower rest)

  unfoldable pub classify_result : Outcome SqlError Bytes → Option (Outcome SqlError StatementKind)
  unfolding trim_space classify_stripped
  classify_result (err e) = some (err e)
  classify_result (ok stripped) = classify_stripped (trim_space stripped)

  unfoldable pub classify_statement : Bytes → Option (Outcome SqlError StatementKind)
  unfolding strip_comments_and_check_single classify_result
  classify_statement sql = classify_result (strip_comments_and_check_single sql)
