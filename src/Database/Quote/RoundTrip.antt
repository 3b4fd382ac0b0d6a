-- ===== src/Database/Quote/RoundTrip.antt =====
-- What a database reads back from the quoted text of Quote.
use cloudnan_agent.Base.{
  ℕ, Bool, true, false, [], ◌∷◌, ◌++◌, Option, none, some, ◌≡◌, ◌≢◌, refl, sym, arith, ◌==◌,
  if◌then◌else◌, Bytes, Bool-cases, inl, inr, append_assoc, ◌∙◌, ap, ==_iff, ==_refl,
}
use cloudnan_agent.Database.Quote.{
  backtick, double_quote, apostrophe, backslash, quote_mysql_ident, quote_postgres_ident,
  escape_sql_string,
}
use cloudnan_agent.Text.Search.{replace_byte}

-- The text read so far, in front of what follows.
abbrev pub read_more : ℕ → Option (Bytes × Bytes) → Option (Bytes × Bytes)
read_more c none = none
read_more c (some (text, rest)) = some (c ∷ text, rest)

-- The SQL standard's reading of a text in quotes `q`, behind the opening quote: a doubled quote
-- is a quote, a single one ends the text. The flag is set behind a quote.
unfoldable pub read_quoted : ℕ → Bool → Bytes → Option (Bytes × Bytes)
read_quoted q false [] = none
read_quoted q true [] = some ([], [])
read_quoted q false (c ∷ s) =
    let text = read_more c (read_quoted q false s) in
    let behind = read_quoted q true s in if c == q then behind else text
read_quoted q true (c ∷ s) =
    let text = read_more q (read_quoted q false s) in if c == q then text else some ([], c ∷ s)

abbrev pub read_token : ℕ → Bytes → Option (Bytes × Bytes)
read_token q [] = none
read_token q (c ∷ s) = if c == q then read_quoted q false s else none

-- The text does not go on with the byte `q`.
abbrev pub LacksHead : ℕ → Bytes → Type 0
LacksHead q [] = Unit
LacksHead q (c ∷ s) = c ≢ q

abbrev doubled : ℕ → Bytes → Bytes
doubled q s = replace_byte s q (q ∷ q ∷ [])

read_quoted-end :
    (q : ℕ) (rest : Bytes) → LacksHead q rest → read_quoted q true rest ≡ some ([], rest)
unfolding read_quoted
read_quoted-end q [] h = refl
read_quoted-end q (c ∷ s) h = ground arith

read_quoted-doubled :
    (q : ℕ) (s rest : Bytes)
    → LacksHead q rest
    → read_quoted q false (doubled q s ++ (q ∷ rest)) ≡ some (s, rest)
unfolding read_quoted replace_byte
read_quoted-doubled q [] rest h = ground (arith, read_quoted-end q rest h)
read_quoted-doubled q (c ∷ s) rest h = elim (Bool-cases (c == q)) [
  | inl e ↦
      rw (e, ==_refl q, read_quoted-doubled q s rest h)
        (ap (λ x. some (x ∷ s, rest)) (sym ((==_iff c q).0 e)))
  | inr e ↦ rw (e, read_quoted) (rw (e, read_quoted-doubled q s rest h))
]

quoted_tail : (q : ℕ) (body rest : Bytes) → (body ++ (q ∷ [])) ++ rest ≡ body ++ (q ∷ rest)
quoted_tail q body rest = append_assoc body (q ∷ []) rest

-- Reading a MySQL-quoted identifier by the doubled-quote rule gives back the name, whatever bytes
-- it holds and the empty name too, and the text behind it, if that does not go on with a backtick.
pub read_token-quote_mysql_ident :
    (name rest : Bytes)
    → LacksHead backtick rest
    → read_token backtick (quote_mysql_ident name ++ rest) ≡ some (name, rest)
unfolding quote_mysql_ident
read_token-quote_mysql_ident name rest h =
    ap (read_quoted backtick false) (quoted_tail backtick (doubled backtick name) rest)
    ∙ read_quoted-doubled backtick name rest h

-- Reading a PostgreSQL-quoted identifier by the doubled-quote rule gives back the name, whatever
-- bytes it holds, and the text behind it, if that does not go on with a double quote.
pub read_token-quote_postgres_ident :
    (name rest : Bytes)
    → LacksHead double_quote rest
    → read_token double_quote (quote_postgres_ident name ++ rest) ≡ some (name, rest)
unfolding quote_postgres_ident
read_token-quote_postgres_ident name rest h =
    ap (read_quoted double_quote false) (quoted_tail double_quote (doubled double_quote name) rest)
    ∙ read_quoted-doubled double_quote name rest h

-- A reader for which a backslash is an ordinary byte ends the escaped value at the quote behind it
-- and reads the value with every backslash doubled, if the text behind does not go on with an
-- apostrophe.
pub read_quoted-escape_sql_string :
    (value rest : Bytes)
    → LacksHead apostrophe rest
    → read_quoted apostrophe false (escape_sql_string value ++ (apostrophe ∷ rest))
      ≡ some (replace_byte value backslash (backslash ∷ backslash ∷ []), rest)
unfolding escape_sql_string
read_quoted-escape_sql_string value rest h =
    read_quoted-doubled apostrophe (replace_byte value backslash (backslash ∷ backslash ∷ [])) rest
      h
