-- ===== src/Database/Classify/Known.antt =====
-- The classifier answers with a read, a write or an error, never with the zero value of its type.
use cloudnan_agent.Base.{
  ℕ, zero, suc, Bool, true, false, ◌||◌, [], ◌∷◌, Option, none, some, if◌then◌else◌, Bytes, codes,
  Outcome, ok, err, length, drop, ◌≡◌, refl,
}
use cloudnan_agent.Database.Classify.Strip.{SqlError, strip_comments_and_check_single}
use cloudnan_agent.Database.Classify.With.{
  StatementKind, statement_unknown, statement_read, statement_write, first_keyword, skip_cte,
  body_kind, cte_loop, classify_with, skip_recursive,
}
use cloudnan_agent.Database.Classify.{
  read_keywords, has_keyword, keyword_verdict, classify_stripped, classify_result,
  classify_statement,
}
use cloudnan_agent.Text.Case.{to_lower, bytes_equal}
use cloudnan_agent.Text.Search.{has_prefix}
use cloudnan_agent.Text.Space.{trim_space}

abbrev pub known : StatementKind → Bool
known statement_unknown = false
known statement_read = true
known statement_write = true

-- No answer or a known one.
abbrev known_kind : Option StatementKind → Bool
known_kind none = true
known_kind (some k) = known k

abbrev pub known_verdict : Option (Outcome SqlError StatementKind) → Bool
known_verdict (some (ok k)) = known k
known_verdict _ = true

module _ (unicode_lower : Bytes → Bytes) where
  body_kind-known : (rest : Bytes) → known (body_kind unicode_lower rest) ≡ true
  unfolding body_kind
  body_kind-known rest = by_test (
      bytes_equal (to_lower unicode_lower (first_keyword rest).0) (codes "select")
      || bytes_equal (to_lower unicode_lower (first_keyword rest).0) (codes "values"))
    where
      by_test : (b : Bool) → known (if b then statement_read else statement_write) ≡ true
      by_test true = refl
      by_test false = refl

  cte_loop-known : (fuel : ℕ) (rest : Bytes) → known_kind (cte_loop unicode_lower fuel rest) ≡ true
  unfolding cte_loop
  cte_loop-known zero rest = refl
  cte_loop-known (suc fuel) rest = by_skip (skip_cte unicode_lower rest) (cte_loop-known fuel)
    where
      by_comma :
          (b : Bool) (again : Option StatementKind) (k : StatementKind)
          → known_kind again ≡ true
          → known k ≡ true
          → known_kind (if b then again else some k) ≡ true
      by_comma true again k h h' = h
      by_comma false again k h h' = h'

      by_skip :
          (o : Option Bytes)
          → ((text : Bytes) → known_kind (cte_loop unicode_lower fuel text) ≡ true)
          → known_kind (elim o [
            | none ↦ some statement_write
            | some behind ↦
                if has_prefix behind (codes ",")
                then cte_loop unicode_lower fuel (trim_space (drop 1 behind))
                else some (body_kind unicode_lower behind)
          ])
            ≡ true
      by_skip none ih = refl
      by_skip (some behind) ih =
          by_comma (has_prefix behind (codes ","))
            (cte_loop unicode_lower fuel (trim_space (drop 1 behind)))
            (body_kind unicode_lower behind) (ih (trim_space (drop 1 behind)))
            (body_kind-known behind)

  classify_with-known : (rest : Bytes) → known_kind (classify_with unicode_lower rest) ≡ true
  unfolding classify_with
  classify_with-known rest =
      cte_loop-known (suc (length (skip_recursive unicode_lower (trim_space rest))))
        (skip_recursive unicode_lower (trim_space rest))

  keyword_verdict-known :
      (first : Bytes) (k : Option StatementKind)
      → known_kind k ≡ true
      → known_verdict (keyword_verdict first k) ≡ true
  unfolding keyword_verdict
  keyword_verdict-known first k h =
      by_tests (bytes_equal first (codes "with")) (has_keyword read_keywords first) k h
    where
      by_tests :
          (a b : Bool) (k : Option StatementKind)
          → known_kind k ≡ true
          → known_verdict (
              if a
              then elim k [ none ↦ none | some kind ↦ some (ok kind) ]
              else if b
              then some (ok statement_read)
              else some (ok statement_write))
            ≡ true
      by_tests true b none h = refl
      by_tests true b (some k) h = h
      by_tests false true k h = refl
      by_tests false false k h = refl

  classify_stripped-known : (s : Bytes) → known_verdict (classify_stripped unicode_lower s) ≡ true
  unfolding classify_stripped
  classify_stripped-known [] = refl
  classify_stripped-known (c ∷ s) =
      keyword_verdict-known (to_lower unicode_lower (first_keyword (c ∷ s)).0)
        (classify_with unicode_lower (first_keyword (c ∷ s)).1)
        (classify_with-known (first_keyword (c ∷ s)).1)

  classify_result-known :
      (r : Outcome SqlError Bytes) → known_verdict (classify_result unicode_lower r) ≡ true
  unfolding classify_result
  classify_result-known (err e) = refl
  classify_result-known (ok s) = classify_stripped-known (trim_space s)

  pub classify_statement-known :
      (sql : Bytes) → known_verdict (classify_statement unicode_lower sql) ≡ true
  unfolding classify_statement
  classify_statement-known sql = classify_result-known (strip_comments_and_check_single sql)
