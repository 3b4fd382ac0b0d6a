-- ===== src/Database/Examples.antt =====
-- Tests of quote.go and classify.go on small inputs, and the theorems at concrete inputs.
use cloudnan_agent.Base.{
  suc, true, false, List, [], ◌∷◌, ◌++◌, some, ◌≡◌, refl, arith, length, all, Bytes, codes, Outcome,
  ok, err,
}
use cloudnan_agent.Database.Classify.Evasion.{
  backslash_statement, classify_statement-backslash, unquoted,
}
use cloudnan_agent.Database.Classify.Paren.{word_byte}
use cloudnan_agent.Database.Classify.Skip.Laws.{
  skip_backtick_quoted-quote_mysql_ident, skip_single_quoted-escape_sql_string,
}
use cloudnan_agent.Database.Classify.Skip.{
  skip_backtick_quoted, skip_single_quoted, skip_dollar_quoted,
}
use cloudnan_agent.Database.Classify.Strip.Laws.{plain}
use cloudnan_agent.Database.Classify.Strip.Statements.{
  Strips, Trailing, StartsStatement, strip-single,
}
use cloudnan_agent.Database.Classify.Strip.{
  strip_comments_and_check_single, multiple_statements, empty_statement,
}
use cloudnan_agent.Database.Classify.Verdict.{
  classify_statement-total, classify_statement-keyword, classify_statement-multiple,
  classify_statement-open_comment, letter, keyword_kind,
}
use cloudnan_agent.Database.Classify.With.{StatementKind, statement_read, statement_write}
use cloudnan_agent.Database.Classify.WritableCte.{
  cte_statement, classify_statement-writable_cte, inert,
}
use cloudnan_agent.Database.Classify.{classify_statement}
use cloudnan_agent.Database.Quote.Privileges.{
  normalize_privileges, normalize_privileges-fragment, fragment_byte, validate_privileges_list_iff,
}
use cloudnan_agent.Database.Quote.RoundTrip.{
  read_token, read_quoted, read_token-quote_mysql_ident, read_token-quote_postgres_ident,
  read_quoted-escape_sql_string,
}
use cloudnan_agent.Database.Quote.{
  quote_mysql_ident, quote_postgres_ident, escape_sql_string, validate_privileges_list, backtick,
  double_quote, apostrophe, backslash, privilege_name_matches,
}
use cloudnan_agent.Text.Case.{lower_byte, bytes_equal}
use cloudnan_agent.Text.Search.{replace_byte, index, index_byte}
use mathlib.Core.List.{map}
use mathlib.Core.Logic.{◌↔◌}

-- A mapping of texts that are not ASCII, for the tests.
abbrev keep : Bytes → Bytes
keep s = s

abbrev odd_name : Bytes
odd_name = codes "a`;\"b"

abbrev comment_and_read : Bytes
comment_and_read = codes "/* c */ SELECT ';' ; -- x\n"

comment_and_read_test : classify_statement keep comment_and_read ≡ some (ok statement_read)
unfolding classify_statement
comment_and_read_test = refl

two_ctes_test :
    classify_statement keep
      (codes "with recursive a(x) as materialized (select ')' ), b as (delete from t) select 1")
    ≡ some (ok statement_read)
unfolding classify_statement
two_ctes_test = refl

insert_behind_cte_test :
    classify_statement keep (codes "with a as (select 1) insert into t") ≡ some (ok statement_write)
unfolding classify_statement
insert_behind_cte_test = refl

dollar_test : skip_dollar_quoted (codes "$tag$ ; $tag$ x") ≡ 13
unfolding skip_dollar_quoted
dollar_test = refl

read_token-quote_mysql_ident_example :
    read_token backtick (quote_mysql_ident odd_name ++ codes " x") ≡ some (odd_name, codes " x")
read_token-quote_mysql_ident_example =
    read_token-quote_mysql_ident odd_name (codes " x") (omega arith)

read_token-quote_postgres_ident_example :
    read_token double_quote (quote_postgres_ident odd_name ++ codes " x")
    ≡ some (odd_name, codes " x")
read_token-quote_postgres_ident_example =
    read_token-quote_postgres_ident odd_name (codes " x") (omega arith)

read_quoted-escape_sql_string_example :
    read_quoted apostrophe false (escape_sql_string (codes "p'\\w") ++ (apostrophe ∷ codes " x"))
    ≡ some (replace_byte (codes "p'\\w") backslash (backslash ∷ backslash ∷ []), codes " x")
read_quoted-escape_sql_string_example =
    read_quoted-escape_sql_string (codes "p'\\w") (codes " x") (omega arith)

skip_backtick_quoted-quote_mysql_ident_example :
    skip_backtick_quoted (quote_mysql_ident odd_name ++ codes " x")
    ≡ length (quote_mysql_ident odd_name)
skip_backtick_quoted-quote_mysql_ident_example =
    skip_backtick_quoted-quote_mysql_ident odd_name (codes " x") (omega arith)

skip_single_quoted-escape_sql_string_example :
    skip_single_quoted
      (apostrophe ∷ (escape_sql_string (codes "p'\\w") ++ (apostrophe ∷ codes ";")))
    ≡ suc (suc (length (escape_sql_string (codes "p'\\w"))))
skip_single_quoted-escape_sql_string_example =
    skip_single_quoted-escape_sql_string (codes "p'\\w") (codes ";") (omega arith)

abbrev privileges : List Bytes
privileges = codes "SELECT" ∷ codes "CREATE TEMPORARY TABLES" ∷ []

privileges_valid : validate_privileges_list privileges ≡ ok tt
unfolding validate_privileges_list
privileges_valid = refl

validate_privileges_list_iff_example :
    (validate_privileges_list privileges ≡ ok tt) ↔ (all privilege_name_matches privileges ≡ true)
validate_privileges_list_iff_example = validate_privileges_list_iff privileges

normalize_privileges-fragment_example : all fragment_byte (normalize_privileges privileges) ≡ true
normalize_privileges-fragment_example = normalize_privileges-fragment privileges privileges_valid

-- `SELECT `, an identifier quoted for MySQL, and a comment.
abbrev quoted_select : Bytes
quoted_select = codes "SELECT " ++ (quote_mysql_ident odd_name ++ codes "/* ; */")

abbrev quoted_select_text : Bytes
quoted_select_text = codes "SELECT " ++ (quote_mysql_ident odd_name ++ codes " ")

quoted_select-Strips : Strips quoted_select quoted_select_text
unfolding plain index
quoted_select-Strips = Strips.byte b'S' refl (
    Strips.byte b'E' refl (
      Strips.byte b'L' refl (
        Strips.byte b'E' refl (
          Strips.byte b'C' refl (
            Strips.byte b'T' refl (
              Strips.byte b' ' refl (
                Strips.mysql_ident odd_name (omega arith)
                  (Strips.block_comment (codes " ; ") refl Strips.nothing))))))))

abbrev trailing : Bytes
trailing = codes " ;/* x */"

trailing-Trailing : Trailing trailing
unfolding index
trailing-Trailing =
    Trailing.blank b' ' refl
      (Trailing.terminator (Trailing.behind_block (codes " x ") refl Trailing.finished))

strip-single_example :
    (strip_comments_and_check_single quoted_select ≡ ok quoted_select_text)
    × (strip_comments_and_check_single (quoted_select ++ (b';' ∷ trailing)) ≡ ok quoted_select_text)
strip-single_example = strip-single quoted_select-Strips trailing-Trailing

drop-StartsStatement : StartsStatement b'D' (codes "ROP TABLE t")
drop-StartsStatement = record {
  not_blank = refl;
  not_terminator = omega arith;
  not_line_comment = refl;
  not_block_comment = refl;
}

classify_statement-multiple_example :
    classify_statement keep (quoted_select ++ (b';' ∷ (trailing ++ codes "DROP TABLE t")))
    ≡ some (err multiple_statements)
classify_statement-multiple_example =
    classify_statement-multiple keep b'D' (codes "ROP TABLE t") quoted_select-Strips
      trailing-Trailing drop-StartsStatement

classify_statement-open_comment_example :
    classify_statement keep (quoted_select ++ (b';' ∷ (trailing ++ codes "-- done")))
    ≡ some (err empty_statement)
unfolding index_byte
classify_statement-open_comment_example =
    classify_statement-open_comment keep (codes " done") quoted_select-Strips trailing-Trailing refl

classify_statement-keyword_example :
    let verdict = some (ok (keyword_kind (map lower_byte (codes "SELECT")))) in
    (classify_statement keep quoted_select ≡ verdict)
    × (classify_statement keep (quoted_select ++ (b';' ∷ trailing)) ≡ verdict)
unfolding letter lower_byte bytes_equal word_byte
classify_statement-keyword_example =
    classify_statement-keyword keep [] b'S' (codes "ELECT")
      (b' ' ∷ (quote_mysql_ident odd_name ++ codes " ")) quoted_select-Strips trailing-Trailing refl
      refl refl refl refl

classify_statement-total_example :
    (r : Outcome _ StatementKind) × (classify_statement keep (codes "with x as (") ≡ some r)
classify_statement-total_example = classify_statement-total keep (codes "with x as (")

classify_statement-backslash_example :
    (classify_statement keep (backslash_statement (codes ";DROP TABLE t--"))
      ≡ some (ok statement_read))
    × (read_quoted apostrophe false
          (backslash ∷ apostrophe ∷ b';' ∷ (codes "DROP TABLE t--" ++ (apostrophe ∷ [])))
        ≡ some (backslash ∷ [], b';' ∷ (codes "DROP TABLE t--" ++ (apostrophe ∷ []))))
unfolding unquoted
classify_statement-backslash_example =
    classify_statement-backslash keep b';' (codes "DROP TABLE t--") refl

classify_statement-writable_cte_example :
    classify_statement keep (cte_statement (codes "DELETE FROM t RETURNING id"))
    ≡ some (ok statement_read)
unfolding inert
classify_statement-writable_cte_example =
    classify_statement-writable_cte keep (codes "DELETE FROM t RETURNING id") refl
