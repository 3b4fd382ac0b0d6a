-- ===== src/Database/Classify/Verdict.antt =====
-- `ClassifyStatement` of internal/database/classify.go from end to end: that it answers, and its
-- verdict on well-formed statements.
use cloudnan_agent.Base.{
  ℕ, Bool, true, false, ◌||◌, [], ◌∷◌, ◌++◌, Option, none, some, ◌≡◌, refl, arith, sym, ap, ◌∙◌,
  if◌then◌else◌, within, all, length, take, Bytes, codes, Outcome, ok, err, Bool-cases, inl, inr,
  append_assoc, map, ltb,
}
use cloudnan_agent.Database.Classify.Paren.{word_byte, span_length}
use cloudnan_agent.Database.Classify.Strip.Statements.{
  Strips, Trailing, StartsStatement, strip-single, strip-multiple, strip-open_comment,
}
use cloudnan_agent.Database.Classify.Strip.{
  SqlError, multiple_statements, empty_statement, newline, strip_comments_and_check_single,
}
use cloudnan_agent.Database.Classify.With.Total.{classify_with-total}
use cloudnan_agent.Database.Classify.With.{
  StatementKind, statement_read, statement_write, first_keyword, classify_with,
}
use cloudnan_agent.Database.Classify.{
  read_keywords, has_keyword, classify_stripped, classify_statement, keyword_verdict,
  classify_result,
}
use cloudnan_agent.Text.Case.{to_lower, is_ascii, lower_byte, bytes_equal}
use cloudnan_agent.Text.Search.{index_byte}
use cloudnan_agent.Text.Space.Laws.{
  solid, trim_right-solid, trim_left-solid, trim_space-ascii_space,
}
use cloudnan_agent.Text.Space.{trim_space, trim_right, ascii_space}

-- An ASCII letter.
unfoldable pub letter : ℕ → Bool
letter c = within b'a' b'z' c || within b'A' b'Z' c

letter-solid : (c : ℕ) → letter c ≡ true → solid c ≡ true
unfolding letter solid
letter-solid c h = ground arith

letter-word_byte : (c : ℕ) → letter c ≡ true → word_byte c ≡ true
unfolding letter word_byte
letter-word_byte c h = ground arith

letter-ascii : (c : ℕ) → letter c ≡ true → ltb c 128 ≡ true
unfolding letter
letter-ascii c h = ground arith

-- The keyword is over: the text ends, or goes on with a byte that no word holds.
abbrev pub WordEnds : Bytes → Type 0
WordEnds [] = Unit
WordEnds (c ∷ s) = word_byte c ≡ false

span_length-word :
    (w t : Bytes) → all letter w ≡ true → WordEnds t → span_length word_byte (w ++ t) ≡ length w
unfolding span_length
span_length-word [] [] h e = refl
span_length-word [] (c ∷ t) h e = rw e
span_length-word (c ∷ w) t h e = ground (arith, letter-word_byte c, span_length-word w t)

take_word : (w t : Bytes) → take (length w) (w ++ t) ≡ w
take_word [] t = refl
take_word (c ∷ w) t = ap (◌∷◌ c) (take_word w t)

first_keyword-word :
    (w t : Bytes) → all letter w ≡ true → WordEnds t → (first_keyword (w ++ t)).0 ≡ w
unfolding first_keyword
first_keyword-word w t h e = rw (span_length-word w t h e) (take_word w t)

WordEnds-part : (y z : Bytes) → WordEnds (y ++ z) → WordEnds y
WordEnds-part [] z h = tt
WordEnds-part (c ∷ y) z h = h

-- A word keeps its place when an end of the text is trimmed.
trim_right-word :
    (p : Bytes) (c : ℕ) (w t : Bytes)
    → letter c ≡ true
    → all letter w ≡ true
    → (y : Bytes) × (z : Bytes) × (t ≡ y ++ z)
      × (trim_right (p ++ (c ∷ (w ++ t))) ≡ p ++ (c ∷ (w ++ y)))
trim_right-word p c [] t h all_w = trim_right-solid p c t (letter-solid c h)
trim_right-word p c (d ∷ w) t h all_w =
    let (y, z, e, trim) = trim_right-word (p ++ (c ∷ [])) d w t (ground arith) (ground arith) in
    (
      y,
      z,
      e,
      ap trim_right (sym (append_assoc p (c ∷ []) (d ∷ (w ++ t))))
          ∙ trim
          ∙ append_assoc p (c ∷ []) (d ∷ (w ++ y)),
    )

trim_space-word :
    (c : ℕ) (w : Bytes) (t : Bytes)
    → letter c ≡ true
    → all letter w ≡ true
    → (y : Bytes) × (z : Bytes) × (t ≡ y ++ z) × (trim_space (c ∷ (w ++ t)) ≡ c ∷ (w ++ y))
unfolding trim_space
trim_space-word c w t h all_w =
    let (y, z, e, trim) = trim_right-word [] c w t h all_w in
    (y, z, e, ap trim_right (trim_left-solid c (w ++ t) (letter-solid c h)) ∙ trim)

all_ascii : (w : Bytes) → all letter w ≡ true → all (λ c. ltb c 128) w ≡ true
all_ascii [] h = refl
all_ascii (c ∷ w) h = ground (arith, letter-ascii c, all_ascii w)

-- Lowering letters takes the byte-by-byte way.
to_lower-word :
    (unicode_lower : Bytes → Bytes) (w : Bytes)
    → all letter w ≡ true
    → to_lower unicode_lower w ≡ map lower_byte w
unfolding to_lower is_ascii
to_lower-word unicode_lower w h = rw (all_ascii w h)

-- The verdict that the leading keyword, in lower case, calls for, where it is not WITH.
unfoldable pub keyword_kind : Bytes → StatementKind
keyword_kind word = if has_keyword read_keywords word then statement_read else statement_write

keyword_verdict-keyword_kind :
    (first : Bytes) (with_kind : Option StatementKind)
    → bytes_equal first (codes "with") ≡ false
    → keyword_verdict first with_kind ≡ some (ok (keyword_kind first))
unfolding keyword_verdict keyword_kind
keyword_verdict-keyword_kind first with_kind h =
    elim (Bool-cases (has_keyword read_keywords first)) [
      | inl e ↦ rw h (rw e)
      | inr e ↦ rw h (rw e)
    ]

keyword_verdict-total :
    (first : Bytes) (kind : StatementKind)
    → (r : Outcome SqlError StatementKind) × (keyword_verdict first (some kind) ≡ some r)
unfolding keyword_verdict
keyword_verdict-total first kind = elim (Bool-cases (bytes_equal first (codes "with"))) [
  | inl e ↦ (ok kind, rw e)
  | inr e ↦ elim (Bool-cases (has_keyword read_keywords first)) [
    | inl f ↦ (ok statement_read, rw e (rw f))
    | inr f ↦ (ok statement_write, rw e (rw f))
  ]
]

module _ (unicode_lower : Bytes → Bytes) where
  pub classify_stripped-cons :
      (c : ℕ) (s : Bytes)
      → classify_stripped unicode_lower (c ∷ s)
        ≡ keyword_verdict
            (to_lower unicode_lower (first_keyword (c ∷ s)).0)
            (classify_with unicode_lower (first_keyword (c ∷ s)).1)
  unfolding classify_stripped
  classify_stripped-cons c s = refl

  pub classify_statement-strip :
      (sql : Bytes) {r : Outcome SqlError Bytes}
      → strip_comments_and_check_single sql ≡ r
      → classify_statement unicode_lower sql ≡ classify_result unicode_lower r
  unfolding classify_statement
  classify_statement-strip sql h = ap (classify_result unicode_lower) h

  classify_stripped-nil : classify_stripped unicode_lower [] ≡ some (err empty_statement)
  unfolding classify_stripped
  classify_stripped-nil = refl

  classify_stripped-total :
      (s : Bytes)
      → (r : Outcome SqlError StatementKind) × (classify_stripped unicode_lower s ≡ some r)
  classify_stripped-total [] = (err empty_statement, classify_stripped-nil)
  classify_stripped-total (c ∷ s) =
      let (kind, answers) = classify_with-total unicode_lower (first_keyword (c ∷ s)).1 in
      let (r, e) = keyword_verdict-total (to_lower unicode_lower (first_keyword (c ∷ s)).0) kind in
      (r, classify_stripped-cons c s ∙ rw answers e)

  classify_result-total :
      (o : Outcome SqlError Bytes)
      → (r : Outcome SqlError StatementKind) × (classify_result unicode_lower o ≡ some r)
  unfolding classify_result
  classify_result-total (err e) = (err e, refl)
  classify_result-total (ok s) = classify_stripped-total (trim_space s)

  -- The classifier returns a verdict or an error on every text, whatever it holds: its loop over
  -- the CTEs never runs out of fuel.
  pub classify_statement-total :
      (sql : Bytes)
      → (r : Outcome SqlError StatementKind) × (classify_statement unicode_lower sql ≡ some r)
  unfolding classify_statement
  classify_statement-total sql = classify_result-total (strip_comments_and_check_single sql)

  -- The verdict on a stripped text that starts with a word other than WITH is that of the word.
  pub classify_stripped-word :
      (c : ℕ) (w t : Bytes)
      → letter c ≡ true
      → all letter w ≡ true
      → WordEnds t
      → bytes_equal (map lower_byte (c ∷ w)) (codes "with") ≡ false
      → classify_stripped unicode_lower (trim_space (c ∷ (w ++ t)))
        ≡ some (ok (keyword_kind (map lower_byte (c ∷ w))))
  classify_stripped-word c w t h all_w ends not_with =
      let (y, z, e, trim) = trim_space-word c w t h all_w in
      let word : (first_keyword (c ∷ (w ++ y))).0 ≡ c ∷ w =
        first_keyword-word (c ∷ w) y (ground arith) (WordEnds-part y z (rw e at ends)) in
      let lower : to_lower unicode_lower (c ∷ w) ≡ map lower_byte (c ∷ w) =
        to_lower-word unicode_lower (c ∷ w) (ground arith) in
      rw trim (
        classify_stripped-cons c (w ++ y)
        ∙ rw (word, lower) (keyword_verdict-keyword_kind _ _ not_with))

  pub classify_result-word :
      (b : Bytes) (c : ℕ) (w t : Bytes)
      → all ascii_space b ≡ true
      → letter c ≡ true
      → all letter w ≡ true
      → WordEnds t
      → bytes_equal (map lower_byte (c ∷ w)) (codes "with") ≡ false
      → classify_result unicode_lower (ok (b ++ (c ∷ (w ++ t))))
        ≡ some (ok (keyword_kind (map lower_byte (c ∷ w))))
  unfolding classify_result
  classify_result-word b c w t blank h all_w ends not_with =
      ap (classify_stripped unicode_lower) (trim_space-ascii_space b (c ∷ (w ++ t)) blank)
      ∙ classify_stripped-word c w t h all_w ends not_with

  -- A statement whose text without comments is blanks, a word of letters other than WITH and a
  -- text that does not go on with the word gets the verdict of that word in lower case: read
  -- exactly for the keywords of the read set. So it does with a terminator behind it, and with
  -- blanks, terminators and closed comments behind that.
  pub classify_statement-keyword :
      {s u : Bytes} (b : Bytes) (c : ℕ) (w t : Bytes)
      → Strips s (b ++ (c ∷ (w ++ t)))
      → Trailing u
      → all ascii_space b ≡ true
      → letter c ≡ true
      → all letter w ≡ true
      → WordEnds t
      → bytes_equal (map lower_byte (c ∷ w)) (codes "with") ≡ false
      → let verdict = some (ok (keyword_kind (map lower_byte (c ∷ w)))) in
        (classify_statement unicode_lower s ≡ verdict)
        × (classify_statement unicode_lower (s ++ (b';' ∷ u)) ≡ verdict)
  classify_statement-keyword {s} {u} b c w t st tr blank h all_w ends not_with =
      let (alone, terminated) = strip-single st tr in
      let by_word = classify_result-word b c w t blank h all_w ends not_with in
      (
        classify_statement-strip s alone ∙ by_word,
        classify_statement-strip (s ++ (b';' ∷ u)) terminated ∙ by_word,
      )

  classify_result-err : (e : SqlError) → classify_result unicode_lower (err e) ≡ some (err e)
  unfolding classify_result
  classify_result-err e = refl

  -- A byte that starts a second statement behind a well-formed one and its terminator makes
  -- the classifier answer with the error for several statements, whatever follows that byte.
  pub classify_statement-multiple :
      {s t u : Bytes} (c : ℕ) (rest : Bytes)
      → Strips s t
      → Trailing u
      → StartsStatement c rest
      → classify_statement unicode_lower (s ++ (b';' ∷ (u ++ (c ∷ rest))))
        ≡ some (err multiple_statements)
  classify_statement-multiple c rest st tr starts =
      classify_statement-strip _ (strip-multiple c rest st tr starts)
      ∙ classify_result-err multiple_statements

  classify_result-nil : classify_result unicode_lower (ok []) ≡ some (err empty_statement)
  unfolding classify_result
  classify_result-nil = classify_stripped-nil

  -- A single statement is rejected as empty, whatever it is, if a line comment that no newline
  -- closes stands behind its terminator.
  pub classify_statement-open_comment :
      {s t u : Bytes} (text : Bytes)
      → Strips s t
      → Trailing u
      → index_byte text newline ≡ none
      → classify_statement unicode_lower (s ++ (b';' ∷ (u ++ (b'-' ∷ b'-' ∷ text))))
        ≡ some (err empty_statement)
  classify_statement-open_comment text st tr open_end =
      classify_statement-strip _ (strip-open_comment text st tr open_end) ∙ classify_result-nil
