-- ===== src/Database/Classify/WritableCte.antt =====
-- `classifyWith` of internal/database/classify.go does not look into the body of a CTE.
use cloudnan_agent.Base.{
  ℕ, suc, ◌+◌, Bool, true, false, not, ◌&&◌, ◌||◌, [], ◌∷◌, ◌++◌, some, ◌≡◌, refl, arith, sym, ap,
  ◌∙◌, all, all-append, length, drop, Bytes, codes, ok, append-nil, ◌==◌, ltb,
}
use cloudnan_agent.Database.Classify.Evasion.{strip_from-plain_text}
use cloudnan_agent.Database.Classify.Paren.{
  match_from, match_paren, paren_step, open_parens, walk, consume_ident,
}
use cloudnan_agent.Database.Classify.Strip.Laws.{plain}
use cloudnan_agent.Database.Classify.Strip.{strip_from, strip_comments_and_check_single}
use cloudnan_agent.Database.Classify.Verdict.{classify_statement-strip, classify_stripped-cons}
use cloudnan_agent.Database.Classify.With.{
  statement_read, first_keyword, classify_with, cte_loop, skip_cte, skip_columns, skip_as,
  skip_materialized, skip_body, skip_recursive, body_kind, and_then,
}
use cloudnan_agent.Database.Classify.{
  classify_statement, classify_stripped, classify_result, keyword_verdict,
}
use cloudnan_agent.Text.Case.{bytes_equal, to_lower}
use cloudnan_agent.Text.Space.Laws.{
  trim_space-solid_ends, ends_solid, ends_solid-append, trim_space-ascii_space, solid,
}
use cloudnan_agent.Text.Space.{trim_space, ascii_space}

-- A byte of a CTE body that needs no care: it starts nothing, is no parenthesis, and is ASCII.
unfoldable pub inert : ℕ → Bool
unfolding plain
inert c = plain c && not (c == b'(' || c == b')') && ltb c 128

inert-plain : (s : Bytes) → all inert s ≡ true → all plain s ≡ true
unfolding inert
inert-plain [] h = refl
inert-plain (c ∷ s) h = ground (arith, inert-plain s)

inert-ascii : (s : Bytes) → all inert s ≡ true → all (λ c. ltb c 128) s ≡ true
unfolding inert
inert-ascii [] h = refl
inert-ascii (c ∷ s) h = ground (arith, inert-ascii s)

-- The text behind the opening parenthesis, and the whole statement.
abbrev pub behind_open : Bytes → Bytes
behind_open body = body ++ codes ") SELECT 1"

abbrev pub cte_statement : Bytes → Bytes
cte_statement body = codes "WITH x AS (" ++ behind_open body

paren_step-inert :
    (c : ℕ) (s : Bytes) → inert c ≡ true → paren_step (open_parens 1) c s ≡ walk (open_parens 1) 0
unfolding paren_step inert
paren_step-inert c s h = ground arith

match_from-inert :
    (i : ℕ) (body s : Bytes)
    → all inert body ≡ true
    → match_from 0 (open_parens 1) i (body ++ (b')' ∷ s)) ≡ some (i + length body)
unfolding match_from
match_from-inert i [] s h = ap some (omega arith)
match_from-inert i (c ∷ body) s h =
    rw (paren_step-inert c (body ++ (b')' ∷ s)) (ground arith), match_from)
      (match_from-inert (suc i) body s (ground arith) ∙ ap some (omega arith))

match_paren-inert :
    (body s : Bytes)
    → all inert body ≡ true
    → match_paren (b'(' ∷ (body ++ (b')' ∷ s))) ≡ some (suc (length body))
unfolding match_paren match_from
match_paren-inert body s h = match_from-inert 1 body s h ∙ ap some (omega arith)

solid_end : (s body : Bytes) → ends_solid (s ++ behind_open body) ≡ true
unfolding solid
solid_end s body = ends_solid-append s _ (ends_solid-append body (codes ") SELECT 1") refl)

ascii_behind :
    (body : Bytes) → all inert body ≡ true → all (λ c. ltb c 128) (behind_open body) ≡ true
ascii_behind body h = all-append _ body (codes ") SELECT 1") (inert-ascii body h) refl

trim_as :
    (body : Bytes)
    → trim_space (codes "AS (" ++ behind_open body) ≡ codes "AS (" ++ behind_open body
trim_as body =
    trim_space-solid_ends b'A' (codes "S (" ++ behind_open body) (unfold solid in refl)
      (solid_end (codes "AS (") body)

trim_paren :
    (body : Bytes) → trim_space (codes "(" ++ behind_open body) ≡ codes "(" ++ behind_open body
trim_paren body =
    trim_space-solid_ends b'(' (behind_open body) (unfold solid in refl)
      (solid_end (codes "(") body)

drop_behind : (body s : Bytes) (c : ℕ) → drop (suc (length body)) (body ++ (c ∷ s)) ≡ s
drop_behind [] s c = refl
drop_behind (b ∷ body) s c = drop_behind body s c

module _ (unicode_lower : Bytes → Bytes) (body : Bytes) (is_inert : all inert body ≡ true) where
  skip_as-inert :
      skip_as unicode_lower (codes "AS (" ++ behind_open body)
      ≡ some (codes "(" ++ behind_open body)
  unfolding skip_as
  skip_as-inert =
      rw (ascii_behind body is_inert, skip_as)
        (ap some (
          trim_space-ascii_space (codes " ") (codes "(" ++ behind_open body)
            (unfold ascii_space in refl)
          ∙ trim_paren body))

  skip_materialized-inert :
      skip_materialized unicode_lower (codes "(" ++ behind_open body)
      ≡ codes "(" ++ behind_open body
  unfolding skip_materialized
  skip_materialized-inert = rw (ascii_behind body is_inert, skip_materialized)

  skip_body-inert : skip_body (codes "(" ++ behind_open body) ≡ some (codes "SELECT 1")
  unfolding skip_body
  skip_body-inert =
      rw (match_paren-inert body (codes " SELECT 1") is_inert, skip_body)
        (ap (λ s. some (trim_space s)) (drop_behind body (codes " SELECT 1") b')'))

  skip_cte_lem :
      (rest : Bytes)
      → skip_cte unicode_lower rest
        ≡ and_then (consume_ident rest) λ consumed.
          and_then (skip_columns (trim_space (drop consumed rest))) λ behind.
            and_then
              (skip_as unicode_lower behind)
              λ behind_as. skip_body (skip_materialized unicode_lower behind_as)
  unfolding skip_cte
  skip_cte_lem rest = refl

  consume_name : consume_ident (codes "x AS (" ++ behind_open body) ≡ some 1
  unfolding consume_ident
  consume_name = refl

  trim_name : trim_space (codes " AS (" ++ behind_open body) ≡ codes "AS (" ++ behind_open body
  unfolding ascii_space
  trim_name =
      trim_space-ascii_space (codes " ") (codes "AS (" ++ behind_open body) refl ∙ trim_as body

  skip_no_columns :
      skip_columns (codes "AS (" ++ behind_open body) ≡ some (codes "AS (" ++ behind_open body)
  unfolding skip_columns
  skip_no_columns = refl

  skip_cte-inert :
      skip_cte unicode_lower (codes "x AS (" ++ behind_open body) ≡ some (codes "SELECT 1")
  skip_cte-inert =
      skip_cte_lem (codes "x AS (" ++ behind_open body)
      ∙ rw (consume_name, trim_name, skip_no_columns, skip_as-inert, skip_materialized-inert)
          skip_body-inert

  skip_recursive-inert :
      skip_recursive unicode_lower (codes "x AS (" ++ behind_open body)
      ≡ codes "x AS (" ++ behind_open body
  unfolding skip_recursive
  skip_recursive-inert = rw (ascii_behind body is_inert, skip_recursive)

  select_kind : body_kind unicode_lower (codes "SELECT 1") ≡ statement_read
  unfolding body_kind
  select_kind = refl

  cte_loop-inert :
      (fuel : ℕ)
      → cte_loop unicode_lower (suc fuel) (codes "x AS (" ++ behind_open body) ≡ some statement_read
  unfolding cte_loop
  cte_loop-inert fuel = rw (skip_cte-inert, cte_loop)

  classify_with-inert :
      classify_with unicode_lower (codes " x AS (" ++ behind_open body) ≡ some statement_read
  unfolding classify_with
  classify_with-inert =
      ap
        (λ s.
          cte_loop unicode_lower (suc (length (skip_recursive unicode_lower s)))
            (skip_recursive unicode_lower s))
        trim_start
      ∙ ap (λ s. cte_loop unicode_lower (suc (length s)) s) skip_recursive-inert
      ∙ cte_loop-inert (length (codes "x AS (" ++ behind_open body))
    where
      trim_start :
          trim_space (codes " x AS (" ++ behind_open body) ≡ codes "x AS (" ++ behind_open body
      trim_start =
          trim_space-ascii_space (codes " ") (codes "x AS (" ++ behind_open body)
            (unfold ascii_space in refl)
          ∙ trim_space-solid_ends b'x' (codes " AS (" ++ behind_open body) (unfold solid in refl)
              (solid_end (codes "x AS (") body)

  first_with :
      first_keyword (cte_statement body) ≡ (codes "WITH", codes " x AS (" ++ behind_open body)
  unfolding first_keyword
  first_with = refl

  lower_with : to_lower unicode_lower (codes "WITH") ≡ codes "with"
  unfolding to_lower
  lower_with = refl

  verdict_with : keyword_verdict (codes "with") (some statement_read) ≡ some (ok statement_read)
  unfolding keyword_verdict bytes_equal
  verdict_with = refl

  classify_stripped-inert :
      classify_stripped unicode_lower (cte_statement body) ≡ some (ok statement_read)
  classify_stripped-inert =
      classify_stripped-cons unicode_lower b'W' (codes "ITH x AS (" ++ behind_open body)
      ∙ rw (first_with, lower_with, classify_with-inert) verdict_with

  strip-cte : strip_comments_and_check_single (cte_statement body) ≡ ok (cte_statement body)
  unfolding strip_comments_and_check_single strip_from
  strip-cte =
      ap (strip_from 0 false []) (sym (append-nil (cte_statement body)))
      ∙ strip_from-plain_text (cte_statement body) [] [] all_plain
    where
      all_plain : all plain (cte_statement body) ≡ true
      all_plain =
          unfold plain in
          (all-append plain (codes "WITH x AS (") (behind_open body) refl
            (all-append plain body (codes ") SELECT 1") (inert-plain body is_inert) refl))

  -- Whatever the body of the CTE does, be it DELETE or UPDATE, the statement counts as one that
  -- reads: of the body only its end is looked for. The body holds ASCII bytes alone, and no
  -- parenthesis, quote, semicolon, dash, slash or dollar sign.
  pub classify_statement-writable_cte :
      classify_statement unicode_lower (cte_statement body) ≡ some (ok statement_read)
  classify_statement-writable_cte =
      classify_statement-strip unicode_lower (cte_statement body) strip-cte ∙ classify_trimmed
    where
      classify_trimmed :
          classify_result unicode_lower (ok (cte_statement body)) ≡ some (ok statement_read)
      classify_trimmed =
          unfold classify_result in
          (ap (classify_stripped unicode_lower) (
              trim_space-solid_ends b'W' (codes "ITH x AS (" ++ behind_open body)
                (unfold solid in refl) (solid_end (codes "WITH x AS (") body))
            ∙ classify_stripped-inert)
