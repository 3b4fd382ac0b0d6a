-- ===== src/Database/Quote.antt =====
-- internal/database/quote.go: quoting of identifiers and string values, and the privilege list.
pub mod RoundTrip
pub mod Privileges
use cloudnan_agent.Base.{
  ℕ, Bool, true, false, ◌&&◌, ◌||◌, List, [], ◌∷◌, ◌++◌, ◌==◌, if◌then◌else◌, within, Bytes, all,
  Outcome, ok, err, ◌>>=◌, ◌>>◌,
}
use cloudnan_agent.Text.Search.{replace_byte}

abbrev pub backtick : ℕ
backtick = b'`'

abbrev pub double_quote : ℕ
double_quote = b'"'

abbrev pub apostrophe : ℕ
apostrophe = 39

abbrev pub backslash : ℕ
backslash = 92

unfoldable pub quote_mysql_ident : Bytes → Bytes
unfolding replace_byte
quote_mysql_ident name =
    backtick ∷ (replace_byte name backtick (backtick ∷ backtick ∷ []) ++ (backtick ∷ []))

unfoldable pub quote_postgres_ident : Bytes → Bytes
unfolding replace_byte
quote_postgres_ident name =
    double_quote
    ∷ (replace_byte name double_quote (double_quote ∷ double_quote ∷ []) ++ (double_quote ∷ []))

-- The caller adds the quotes around the value.
unfoldable pub escape_sql_string : Bytes → Bytes
unfolding replace_byte
escape_sql_string s =
    replace_byte (replace_byte s backslash (backslash ∷ backslash ∷ [])) apostrophe
      (apostrophe ∷ apostrophe ∷ [])

-- One privilege name, `^[A-Z][A-Z _]*$`.
privilege_byte : ℕ → Bool
privilege_byte c = within b'A' b'Z' c || c == b' ' || c == b'_'

unfoldable pub privilege_name_matches : Bytes → Bool
unfolding privilege_byte
privilege_name_matches [] = false
privilege_name_matches (c ∷ s) = within b'A' b'Z' c && all privilege_byte s

pub data PrivilegeError : Type 0 where
  empty_token : PrivilegeError
  rejected_by_whitelist : Bytes → PrivilegeError

check_privilege : Bytes → Outcome PrivilegeError (Unit {0})
unfolding privilege_name_matches
check_privilege [] = err empty_token
check_privilege (c ∷ s) =
    if privilege_name_matches (c ∷ s) then ok tt else err (rejected_by_whitelist (c ∷ s))

unfoldable pub validate_privileges_list : List Bytes → Outcome PrivilegeError (Unit {0})
unfolding check_privilege
validate_privileges_list [] = ok tt
validate_privileges_list (p ∷ privs) = do check_privilege p; validate_privileges_list privs

-- The error names the field that is missing.
unfoldable pub validate_non_empty : Bytes → Bytes → Outcome Bytes (Unit {0})
validate_non_empty field [] = err field
validate_non_empty field (c ∷ value) = ok tt
