-- ===== src/Database/Classify/Evasion.antt =====
-- Two classes of statements that the read-only gate lets through, internal/database/classify.go:
-- a backslash in front of a quote, and a statement that writes inside a CTE.
use cloudnan_agent.Base.{
  ℕ, suc, ◌+◌, Bool, true, false, not, ◌||◌, [], ◌∷◌, ◌++◌, some, ◌≡◌, refl, arith, sym, ap, ◌∙◌,
  all, length, Bytes, codes, ok, append_assoc, append-nil, ◌==◌, map, length-append,
}
use cloudnan_agent.Database.Classify.Paren.{word_byte}
use cloudnan_agent.Database.Classify.Skip.{skip_single_quoted, single_quoted_from}
use cloudnan_agent.Database.Classify.Strip.Laws.{plain, strip_from-plain, strip_from-apostrophe}
use cloudnan_agent.Database.Classify.Strip.{strip_from, strip_comments_and_check_single}
use cloudnan_agent.Database.Classify.Verdict.{
  classify_statement-strip, classify_result-word, letter, keyword_kind,
}
use cloudnan_agent.Database.Classify.With.{statement_read}
use cloudnan_agent.Database.Classify.{classify_statement, has_keyword}
use cloudnan_agent.Database.Quote.RoundTrip.{read_quoted}
use cloudnan_agent.Database.Quote.{apostrophe, backslash}
use cloudnan_agent.Text.Case.{lower_byte, bytes_equal}

pub strip_from-plain_text :
    (s out rest : Bytes)
    → all plain s ≡ true
    → strip_from 0 false out (s ++ rest) ≡ strip_from 0 false (out ++ s) rest
strip_from-plain_text [] out rest h = rw append-nil
strip_from-plain_text (c ∷ s) out rest h =
    strip_from-plain c out (s ++ rest) (ground arith)
    ∙ strip_from-plain_text s (out ++ c ∷ []) rest (ground arith)
    ∙ rw append_assoc

-- A payload byte: neither an apostrophe nor a backslash.
unfoldable pub unquoted : ℕ → Bool
unquoted c = not (c == apostrophe || c == backslash)

single_quoted_from-unquoted :
    (i : ℕ) (s : Bytes)
    → all unquoted s ≡ true
    → single_quoted_from 0 i (s ++ (apostrophe ∷ [])) ≡ i + suc (length s)
unfolding single_quoted_from unquoted
single_quoted_from-unquoted i [] h = omega arith
single_quoted_from-unquoted i (c ∷ s) h = ground (arith, single_quoted_from-unquoted (i + 1) s)

-- `SELECT '\'` in front of the payload, and a quote behind it.
abbrev pub backslash_statement : Bytes → Bytes
backslash_statement payload =
    codes "SELECT " ++ (apostrophe ∷ backslash ∷ apostrophe ∷ (payload ++ (apostrophe ∷ [])))

backslash_literal :
    (payload : Bytes)
    → all unquoted payload ≡ true
    → skip_single_quoted
        (apostrophe ∷ backslash ∷ apostrophe ∷ ((payload ++ (apostrophe ∷ [])) ++ []))
      ≡ suc (length (backslash ∷ apostrophe ∷ (payload ++ (apostrophe ∷ []))))
unfolding skip_single_quoted
backslash_literal payload h =
    rw (append-nil, single_quoted_from-unquoted 3 payload h, length-append) (omega arith)

strip-backslash :
    (payload : Bytes)
    → all unquoted payload ≡ true
    → strip_comments_and_check_single (backslash_statement payload)
      ≡ ok (backslash_statement payload)
unfolding strip_comments_and_check_single
strip-backslash payload h =
    strip_from-plain_text (codes "SELECT ") []
      (apostrophe ∷ backslash ∷ apostrophe ∷ (payload ++ (apostrophe ∷ []))) select_plain
    ∙ ap (λ x. strip_from 0 false (codes "SELECT ") (apostrophe ∷ backslash ∷ apostrophe ∷ x))
        (sym (append-nil (payload ++ (apostrophe ∷ []))))
    ∙ strip_from-apostrophe (backslash ∷ apostrophe ∷ (payload ++ (apostrophe ∷ [])))
        (codes "SELECT ") [] (backslash_literal payload h)
    ∙ strip_end _
  where
    select_plain : all plain (codes "SELECT ") ≡ true
    select_plain = unfold plain in refl

    strip_end : (out : Bytes) → strip_from 0 false out [] ≡ ok out
    strip_end out = unfold strip_from in refl

read_backslash :
    (c : ℕ) (payload : Bytes)
    → unquoted c ≡ true
    → read_quoted apostrophe false (backslash ∷ apostrophe ∷ c ∷ (payload ++ (apostrophe ∷ [])))
      ≡ some (backslash ∷ [], c ∷ (payload ++ (apostrophe ∷ [])))
unfolding read_quoted unquoted
read_backslash c payload h = ground arith

select_kind : keyword_kind (map lower_byte (codes "SELECT")) ≡ statement_read
unfolding keyword_kind lower_byte has_keyword bytes_equal
select_kind = refl

select_not_with : bytes_equal (map lower_byte (codes "SELECT")) (codes "with") ≡ false
unfolding lower_byte bytes_equal
select_not_with = refl

select_letters : all letter (codes "SELECT") ≡ true
unfolding letter
select_letters = refl

blank_ends_word : word_byte b' ' ≡ false
unfolding word_byte
blank_ends_word = refl

-- Where a backslash is an ordinary byte of a literal, the literal `'\'` ends in front of the payload,
-- which may hold terminators and further statements; the classifier takes all of it for one literal
-- and calls the text a single statement that reads. The payload is not empty and holds no
-- apostrophe and no backslash.
pub classify_statement-backslash :
    (unicode_lower : Bytes → Bytes) (c : ℕ) (payload : Bytes)
    → all unquoted (c ∷ payload) ≡ true
    → (classify_statement unicode_lower (backslash_statement (c ∷ payload))
        ≡ some (ok statement_read))
      × (read_quoted apostrophe false (backslash ∷ apostrophe ∷ c ∷ (payload ++ (apostrophe ∷ [])))
          ≡ some (backslash ∷ [], c ∷ (payload ++ (apostrophe ∷ []))))
classify_statement-backslash unicode_lower c payload h = (
  classify_statement-strip unicode_lower (backslash_statement (c ∷ payload))
        (strip-backslash (c ∷ payload) h)
      ∙ classify_result-word unicode_lower [] b'S' (codes "ELECT")
          (b' ' ∷ apostrophe ∷ backslash ∷ apostrophe ∷ c ∷ (payload ++ (apostrophe ∷ []))) refl
          (ground (arith, select_letters)) (ground (arith, select_letters)) blank_ends_word
          select_not_with
      ∙ ap (λ k. some (ok k)) select_kind,
  read_backslash c payload (ground arith),
)
