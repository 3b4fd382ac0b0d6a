-- ===== src/Database/Classify/Strip/Statements.antt =====
-- The scanner on whole texts: a statement in front of the terminator, and what may stand behind.
use cloudnan_agent.Base.{
  ℕ, Bool, true, false, ◌&&◌, [], ◌∷◌, ◌++◌, none, ◌≡◌, ◌≢◌, refl, arith, ◌==◌, Bytes, ok, err,
  append_assoc, append-nil, ◌∙◌, ap, length-append, sym,
}
use cloudnan_agent.Database.Classify.Skip.Laws.{
  skip_backtick_quoted-quote_mysql_ident, skip_double_quoted-quote_postgres_ident,
  skip_single_quoted-escape_sql_string,
}
use cloudnan_agent.Database.Classify.Skip.{next_is, skip_single_quoted}
use cloudnan_agent.Database.Classify.Strip.Laws.{
  plain, strip_from-advance, strip_from-plain, strip_from-backtick, strip_from-double_quote,
  strip_from-apostrophe, strip_from-line_comment, strip_from-block_comment,
}
use cloudnan_agent.Database.Classify.Strip.{
  scan_step, strip_from, strip_comments_and_check_single, newline, is_blank, star_slash,
  multiple_statements, advance, return_empty,
}
use cloudnan_agent.Database.Quote.RoundTrip.{LacksHead}
use cloudnan_agent.Database.Quote.{
  apostrophe, backtick, double_quote, quote_mysql_ident, quote_postgres_ident, escape_sql_string,
}
use cloudnan_agent.Text.Search.{index, index_byte}

-- The text goes on with no quote that would be read as a doubled one.
pub record Ends (s : Bytes) : Type 0 where
  pub no_backtick : LacksHead backtick s
  pub no_double_quote : LacksHead double_quote s
  pub no_apostrophe : LacksHead apostrophe s

-- A statement as the agent's own code writes it, with comments, and its text without them: bytes
-- that start nothing, identifiers and values in the quotes of quote.go, and comments.
pub data Strips : Bytes → Bytes → Type 0 where
  nothing : Strips [] []
  byte : (c : ℕ) {s t : Bytes} → plain c ≡ true → Strips s t → Strips (c ∷ s) (c ∷ t)
  mysql_ident :
      (name : Bytes) {s t : Bytes}
      → LacksHead backtick s
      → Strips s t
      → Strips (quote_mysql_ident name ++ s) (quote_mysql_ident name ++ t)
  postgres_ident :
      (name : Bytes) {s t : Bytes}
      → LacksHead double_quote s
      → Strips s t
      → Strips (quote_postgres_ident name ++ s) (quote_postgres_ident name ++ t)
  value :
      (v : Bytes) {s t : Bytes}
      → LacksHead apostrophe s
      → Strips s t
      → Strips
          (apostrophe ∷ (escape_sql_string v ++ (apostrophe ∷ s)))
          (apostrophe ∷ (escape_sql_string v ++ (apostrophe ∷ t)))
  line_comment :
      (text : Bytes) {s t : Bytes}
      → index_byte text newline ≡ none
      → Strips s t
      → Strips (b'-' ∷ b'-' ∷ (text ++ (newline ∷ s))) (b' ' ∷ t)
  block_comment :
      (text : Bytes) {s t : Bytes}
      → index text star_slash ≡ none
      → Strips s t
      → Strips (b'/' ∷ b'*' ∷ (text ++ (b'*' ∷ b'/' ∷ s))) (b' ' ∷ t)

LacksHead-append :
    (q : ℕ) (s rest : Bytes) → LacksHead q s → LacksHead q rest → LacksHead q (s ++ rest)
LacksHead-append q [] rest h k = k
LacksHead-append q (c ∷ s) rest h k = h

strip_from-mysql_ident :
    (name out s : Bytes)
    → LacksHead backtick s
    → strip_from 0 false out (quote_mysql_ident name ++ s)
      ≡ strip_from 0 false (out ++ quote_mysql_ident name) s
unfolding quote_mysql_ident
strip_from-mysql_ident name out s h =
    strip_from-backtick _ out s (skip_backtick_quoted-quote_mysql_ident name s h)

strip_from-postgres_ident :
    (name out s : Bytes)
    → LacksHead double_quote s
    → strip_from 0 false out (quote_postgres_ident name ++ s)
      ≡ strip_from 0 false (out ++ quote_postgres_ident name) s
unfolding quote_postgres_ident
strip_from-postgres_ident name out s h =
    strip_from-double_quote _ out s (skip_double_quoted-quote_postgres_ident name s h)

strip_from-value :
    (v out s : Bytes)
    → LacksHead apostrophe s
    → strip_from 0 false out (apostrophe ∷ (escape_sql_string v ++ (apostrophe ∷ s)))
      ≡ strip_from 0 false (out ++ (apostrophe ∷ (escape_sql_string v ++ (apostrophe ∷ [])))) s
strip_from-value v out s h =
    ap (λ x. strip_from 0 false out (apostrophe ∷ x)) (sym (append_assoc (escape_sql_string v) _ s))
    ∙ strip_from-apostrophe (escape_sql_string v ++ (apostrophe ∷ [])) out s (
        ap (λ x. skip_single_quoted (apostrophe ∷ x)) (append_assoc (escape_sql_string v) _ s)
        ∙ skip_single_quoted-escape_sql_string v s h
        ∙ rw length-append (omega arith))

-- The scanner works through such a statement, whatever stands behind it.
pub strip_from-Strips :
    {s t : Bytes} (out rest : Bytes)
    → Strips s t
    → Ends rest
    → strip_from 0 false out (s ++ rest) ≡ strip_from 0 false (out ++ t) rest
strip_from-Strips out rest nothing e = rw append-nil
strip_from-Strips out rest (byte c {s} h st) e =
    strip_from-plain c out (s ++ rest) h
    ∙ strip_from-Strips (out ++ c ∷ []) rest st e
    ∙ rw append_assoc
strip_from-Strips out rest (mysql_ident name {s} h st) e = rw append_assoc (
    strip_from-mysql_ident name out (s ++ rest) (LacksHead-append backtick s rest h e.no_backtick)
    ∙ strip_from-Strips (out ++ quote_mysql_ident name) rest st e
    ∙ rw append_assoc)
strip_from-Strips out rest (postgres_ident name {s} h st) e = rw append_assoc (
    strip_from-postgres_ident name out (s ++ rest)
      (LacksHead-append double_quote s rest h e.no_double_quote)
    ∙ strip_from-Strips (out ++ quote_postgres_ident name) rest st e
    ∙ rw append_assoc)
strip_from-Strips out rest (value v {s} h st) e = rw append_assoc (
    strip_from-value v out (s ++ rest) (LacksHead-append apostrophe s rest h e.no_apostrophe)
    ∙ strip_from-Strips _ rest st e
    ∙ simp append_assoc)
strip_from-Strips out rest (line_comment text {s} h st) e = rw append_assoc (
    strip_from-line_comment false text out (s ++ rest) h
    ∙ strip_from-Strips _ rest st e
    ∙ rw append_assoc)
strip_from-Strips out rest (block_comment text {s} h st) e = rw append_assoc (
    strip_from-block_comment false text out (s ++ rest) h
    ∙ strip_from-Strips _ rest st e
    ∙ rw append_assoc)

-- What may follow a terminator: blanks, more terminators and closed comments.
pub data Trailing : Bytes → Type 0 where
  finished : Trailing []
  blank : (c : ℕ) {s : Bytes} → is_blank c ≡ true → Trailing s → Trailing (c ∷ s)
  terminator : {s : Bytes} → Trailing s → Trailing (b';' ∷ s)
  behind_line :
      (text : Bytes) {s : Bytes}
      → index_byte text newline ≡ none
      → Trailing s
      → Trailing (b'-' ∷ b'-' ∷ (text ++ (newline ∷ s)))
  behind_block :
      (text : Bytes) {s : Bytes}
      → index text star_slash ≡ none
      → Trailing s
      → Trailing (b'/' ∷ b'*' ∷ (text ++ (b'*' ∷ b'/' ∷ s)))

tail_step-blank : (c : ℕ) (s : Bytes) → is_blank c ≡ true → scan_step true c s ≡ advance [] true 0
unfolding scan_step
tail_step-blank c s h = ground arith

tail_step-terminator : (s : Bytes) → scan_step true b';' s ≡ advance [] true 0
unfolding scan_step
tail_step-terminator s = refl

strip_from-Trailing :
    {s : Bytes} (out rest : Bytes)
    → Trailing s
    → strip_from 0 true out (s ++ rest) ≡ strip_from 0 true out rest
strip_from-Trailing out rest finished = refl
strip_from-Trailing out rest (blank c {s} h t) =
    strip_from-advance true c out (s ++ rest) (tail_step-blank c _ h)
    ∙ rw append-nil (strip_from-Trailing out rest t)
strip_from-Trailing out rest (terminator {s} t) =
    strip_from-advance true b';' out (s ++ rest) (tail_step-terminator _)
    ∙ rw append-nil (strip_from-Trailing out rest t)
strip_from-Trailing out rest (behind_line text {s} h t) = rw append_assoc (
    strip_from-line_comment true text out (s ++ rest) h
    ∙ rw append-nil (strip_from-Trailing out rest t))
strip_from-Trailing out rest (behind_block text {s} h t) = rw append_assoc (
    strip_from-block_comment true text out (s ++ rest) h
    ∙ rw append-nil (strip_from-Trailing out rest t))

-- The byte starts a second statement: it is no blank, terminator or comment.
pub record StartsStatement (c : ℕ) (s : Bytes) : Type 0 where
  pub not_blank : is_blank c ≡ false
  pub not_terminator : c ≢ b';'
  pub not_line_comment : (c == b'-' && next_is b'-' s) ≡ false
  pub not_block_comment : (c == b'/' && next_is b'*' s) ≡ false

strip_from-StartsStatement :
    (out : Bytes) (c : ℕ) (s : Bytes)
    → StartsStatement c s
    → strip_from 0 true out (c ∷ s) ≡ err multiple_statements
unfolding strip_from scan_step
strip_from-StartsStatement out c s h = ground arith

head_step-terminator : (s : Bytes) → scan_step false b';' s ≡ advance [] true 0
unfolding scan_step
head_step-terminator s = refl

-- The scanner behind a statement and its terminator.
strip-terminated :
    {s t : Bytes} (rest : Bytes)
    → Strips s t
    → strip_comments_and_check_single (s ++ (b';' ∷ rest)) ≡ strip_from 0 true t rest
unfolding strip_comments_and_check_single
strip-terminated {t} rest st =
    strip_from-Strips [] (b';' ∷ rest) st (record {
      no_backtick = omega arith;
      no_double_quote = omega arith;
      no_apostrophe = omega arith;
    })
    ∙ strip_from-advance false b';' t rest (head_step-terminator rest)
    ∙ rw append-nil

strip_from-nil : (saw : Bool) (out : Bytes) → strip_from 0 saw out [] ≡ ok out
unfolding strip_from
strip_from-nil saw out = refl

-- A statement of plain bytes, quoted identifiers, quoted values and comments is stripped to
-- its text with a blank for each comment, alone and with a terminator and blanks, terminators
-- and closed comments behind it.
pub strip-single :
    {s t u : Bytes}
    → Strips s t
    → Trailing u
    → (strip_comments_and_check_single s ≡ ok t)
      × (strip_comments_and_check_single (s ++ (b';' ∷ u)) ≡ ok t)
unfolding strip_comments_and_check_single
strip-single {s} {t} {u} st tr =
    let alone =
      strip_from-Strips [] [] st
        (record { no_backtick = tt; no_double_quote = tt; no_apostrophe = tt }) in
    let behind = strip_from-Trailing t [] tr in
    (
      rw append-nil at alone ∙ strip_from-nil false t,
      strip-terminated u st ∙ (rw append-nil at behind) ∙ strip_from-nil true t,
    )

-- Behind the terminator any byte that starts a second statement is an error, whatever follows it.
pub strip-multiple :
    {s t u : Bytes} (c : ℕ) (rest : Bytes)
    → Strips s t
    → Trailing u
    → StartsStatement c rest
    → strip_comments_and_check_single (s ++ (b';' ∷ (u ++ (c ∷ rest)))) ≡ err multiple_statements
strip-multiple {s} {t} {u} c rest st tr starts =
    strip-terminated (u ++ (c ∷ rest)) st
    ∙ strip_from-Trailing t (c ∷ rest) tr
    ∙ strip_from-StartsStatement t c rest starts

tail_step-open_comment :
    (text : Bytes)
    → index_byte text newline ≡ none
    → scan_step true b'-' (b'-' ∷ text) ≡ return_empty
unfolding scan_step
tail_step-open_comment text h = rw (h, index_byte)

-- A line comment behind the terminator that no newline closes loses the statement: the result is
-- the empty text, whatever the statement is.
pub strip-open_comment :
    {s t u : Bytes} (text : Bytes)
    → Strips s t
    → Trailing u
    → index_byte text newline ≡ none
    → strip_comments_and_check_single (s ++ (b';' ∷ (u ++ (b'-' ∷ b'-' ∷ text)))) ≡ ok []
strip-open_comment {s} {t} {u} text st tr h =
    strip-terminated (u ++ (b'-' ∷ b'-' ∷ text)) st
    ∙ strip_from-Trailing t (b'-' ∷ b'-' ∷ text) tr
    ∙ unfold strip_from in (rw (tail_step-open_comment text h, strip_from))
