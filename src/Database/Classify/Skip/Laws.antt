-- ===== src/Database/Classify/Skip/Laws.antt =====
-- How the skipped length fits the texts that the quoting functions write.
use cloudnan_agent.Base.{
  ℕ, zero, suc, ◌+◌, ◌≤◌, ◌≡◌, Bool-cases, inl, inr, ==_refl, [], ◌∷◌, ◌++◌, arith, length, ◌==◌,
  Bytes, append_assoc, refl, length-append, ◌-◌, if◌then◌else◌, false, true,
}
use cloudnan_agent.Database.Classify.Skip.{
  quoted_from, single_quoted_from, skip_single_quoted, skip_double_quoted, skip_backtick_quoted,
  next_is, has_next,
}
use cloudnan_agent.Database.Quote.RoundTrip.{LacksHead}
use cloudnan_agent.Database.Quote.{
  apostrophe, backslash, backtick, double_quote, quote_mysql_ident, quote_postgres_ident,
  escape_sql_string,
}
use cloudnan_agent.Text.Search.{replace_byte}

quoted_from-le : (q skip i : ℕ) (s : Bytes) → quoted_from q skip i s ≤ i + (length s - skip)
unfolding quoted_from
quoted_from-le q skip i [] = omega arith
quoted_from-le q (suc skip) i (c ∷ s) = omega (arith, quoted_from-le q skip i s)
quoted_from-le q zero i (c ∷ []) = ground arith
quoted_from-le q zero i (c ∷ d ∷ s) =
    ground (arith, quoted_from-le q 1 (i + 2) (d ∷ s), quoted_from-le q 0 (i + 1) (d ∷ s))

single_quoted_from-le :
    (skip i : ℕ) (s : Bytes) → single_quoted_from skip i s ≤ i + (length s - skip)
unfolding single_quoted_from
single_quoted_from-le skip i [] = omega arith
single_quoted_from-le (suc skip) i (c ∷ s) = omega (arith, single_quoted_from-le skip i s)
single_quoted_from-le zero i (c ∷ []) = ground arith
single_quoted_from-le zero i (c ∷ d ∷ s) =
    ground (arith, single_quoted_from-le 1 (i + 2) (d ∷ s), single_quoted_from-le 0 (i + 1) (d ∷ s))

next_is-LacksHead : (q : ℕ) (s : Bytes) → LacksHead q s → next_is q s ≡ false
next_is-LacksHead q [] h = refl
next_is-LacksHead q (c ∷ s) h = ground arith

abbrev doubled : ℕ → Bytes → Bytes
doubled q s = replace_byte s q (q ∷ q ∷ [])

quoted_from-doubled :
    (q i : ℕ) (s rest : Bytes)
    → LacksHead q rest
    → quoted_from q 0 i (doubled q s ++ (q ∷ rest)) ≡ i + suc (length (doubled q s))
unfolding quoted_from replace_byte
quoted_from-doubled q i [] rest h =
    rw (==_refl q, quoted_from) (rw (next_is-LacksHead q rest h, quoted_from) (omega arith))
quoted_from-doubled q i (c ∷ s) rest h = elim (Bool-cases (c == q)) [
  | inl e ↦ rw e (rw (==_refl q) (omega (arith, quoted_from-doubled q (i + 2) s rest h)))
  | inr e ↦ rw (e, quoted_from) (rw e (omega (arith, quoted_from-doubled q (i + 1) s rest h)))
]

-- What `escapeSQLString` writes, one byte of the value at a time.
escaped_byte : ℕ → Bytes
escaped_byte c =
    if c == backslash
    then backslash ∷ backslash ∷ []
    else if c == apostrophe
    then apostrophe ∷ apostrophe ∷ []
    else c ∷ []

escape_sql_string-cons :
    (c : ℕ) (s : Bytes) → escape_sql_string (c ∷ s) ≡ escaped_byte c ++ escape_sql_string s
unfolding escape_sql_string replace_byte escaped_byte
escape_sql_string-cons c s = ground arith

has_next_lem : (s : Bytes) (q : ℕ) (rest : Bytes) → has_next (s ++ (q ∷ rest)) ≡ true
has_next_lem [] q rest = refl
has_next_lem (c ∷ s) q rest = refl

single_quoted_from-escaped_byte :
    (i c : ℕ) (s : Bytes)
    → single_quoted_from 0 i (escaped_byte c ++ s)
      ≡ single_quoted_from 0 (i + length (escaped_byte c)) s
unfolding single_quoted_from escaped_byte
single_quoted_from-escaped_byte i c s = ground arith

single_quoted_from-escape :
    (i : ℕ) (s rest : Bytes)
    → LacksHead apostrophe rest
    → single_quoted_from 0 i (escape_sql_string s ++ (apostrophe ∷ rest))
      ≡ i + suc (length (escape_sql_string s))
single_quoted_from-escape i [] rest h =
    unfold single_quoted_from escape_sql_string replace_byte in
    rw (next_is-LacksHead apostrophe rest h) (omega arith)
single_quoted_from-escape i (c ∷ s) rest h =
    rw
      (
        escape_sql_string-cons c s,
        append_assoc,
        single_quoted_from-escaped_byte,
        single_quoted_from-escape (i + length (escaped_byte c)) s rest h,
        length-append,
      )
      (omega arith)

-- The scanner steps over an identifier quoted for MySQL as a whole, whatever bytes it holds.
pub skip_backtick_quoted-quote_mysql_ident :
    (name rest : Bytes)
    → LacksHead backtick rest
    → skip_backtick_quoted (quote_mysql_ident name ++ rest) ≡ length (quote_mysql_ident name)
unfolding skip_backtick_quoted quote_mysql_ident
skip_backtick_quoted-quote_mysql_ident name rest h =
    rw (append_assoc, quoted_from-doubled backtick 1 name rest h, length-append) (omega arith)

pub skip_double_quoted-quote_postgres_ident :
    (name rest : Bytes)
    → LacksHead double_quote rest
    → skip_double_quoted (quote_postgres_ident name ++ rest) ≡ length (quote_postgres_ident name)
unfolding skip_double_quoted quote_postgres_ident
skip_double_quoted-quote_postgres_ident name rest h =
    rw (append_assoc, quoted_from-doubled double_quote 1 name rest h, length-append) (omega arith)

pub skip_single_quoted-escape_sql_string :
    (value rest : Bytes)
    → LacksHead apostrophe rest
    → skip_single_quoted (apostrophe ∷ (escape_sql_string value ++ (apostrophe ∷ rest)))
      ≡ suc (suc (length (escape_sql_string value)))
unfolding skip_single_quoted
skip_single_quoted-escape_sql_string value rest h =
    rw (single_quoted_from-escape 1 value rest h) (omega arith)

pub skip_single_quoted-le : (s : Bytes) → skip_single_quoted s ≤ length s
unfolding skip_single_quoted
skip_single_quoted-le [] = omega arith
skip_single_quoted-le (c ∷ s) = ground (arith, single_quoted_from-le 0 1 s)

pub skip_double_quoted-le : (s : Bytes) → skip_double_quoted s ≤ length s
unfolding skip_double_quoted
skip_double_quoted-le [] = omega arith
skip_double_quoted-le (c ∷ s) = ground (arith, quoted_from-le double_quote 0 1 s)

pub skip_backtick_quoted-le : (s : Bytes) → skip_backtick_quoted s ≤ length s
unfolding skip_backtick_quoted
skip_backtick_quoted-le [] = omega arith
skip_backtick_quoted-le (c ∷ s) = ground (arith, quoted_from-le backtick 0 1 s)
