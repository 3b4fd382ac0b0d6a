-- ===== src/Ssh/Config/Update.antt =====
-- `UpdateConfig` on the text of the file: lines of a requested setting are replaced, also where they are
-- commented out, and settings without a line are added at the end.
use cloudnan_agent.Base.{
  ℤ, Bool, true, false, List, [], ◌∷◌, ◌++◌, Option, none, some, if◌then◌else◌, drop, Bytes, codes,
}
use mathlib.Core.Option
use cloudnan_agent.Ssh.Config.{
  Keyword, k_port, k_root_login, k_password_auth, k_pubkey_auth, keyword_of,
}
use cloudnan_agent.Text.Case.{to_lower}
use cloudnan_agent.Text.Decimal.{format_int}
use cloudnan_agent.Text.Lines.{join, split_byte}
use cloudnan_agent.Text.Scanner.{newline}
use cloudnan_agent.Text.Search.{has_prefix}
use cloudnan_agent.Text.Space.{fields, trim_space}

-- The settings to be made; `none` leaves one as it is.
pub record Changes : Type 0 where
  pub port : Option ℤ
  pub permit_root_login : Option Bool
  pub password_auth : Option Bool
  pub pubkey_auth : Option Bool

abbrev pub bool_to_ssh_value : Bool → Bytes
bool_to_ssh_value true = codes "yes"
bool_to_ssh_value false = codes "no"

-- The line of a setting that is requested.
unfoldable pub requested : Keyword → Changes → Option Bytes
unfolding format_int
requested k_port ch = Option.map (λ p. codes "Port " ++ format_int p) ch.port
requested k_root_login ch =
    Option.map (λ b. codes "PermitRootLogin " ++ bool_to_ssh_value b) ch.permit_root_login
requested k_password_auth ch =
    Option.map (λ b. codes "PasswordAuthentication " ++ bool_to_ssh_value b) ch.password_auth
requested k_pubkey_auth ch =
    Option.map (λ b. codes "PubkeyAuthentication " ++ bool_to_ssh_value b) ch.pubkey_auth

-- The map `updated`.
pub record Updated : Type 0 where
  pub port : Bool
  pub permit_root_login : Bool
  pub password_auth : Bool
  pub pubkey_auth : Bool

abbrev pub none_updated : Updated
none_updated = record {
  port = false;
  permit_root_login = false;
  password_auth = false;
  pubkey_auth = false;
}

abbrev pub was : Keyword → Updated → Bool
was k_port u = u.port
was k_root_login u = u.permit_root_login
was k_password_auth u = u.password_auth
was k_pubkey_auth u = u.pubkey_auth

abbrev pub mark : Keyword → Updated → Updated
mark k_port u = record u { port = true }
mark k_root_login u = record u { permit_root_login = true }
mark k_password_auth u = record u { password_auth = true }
mark k_pubkey_auth u = record u { pubkey_auth = true }

unfoldable pub uncommented : Bytes → Bytes
unfolding trim_space has_prefix
uncommented text =
    let trimmed = trim_space text in
    if has_prefix trimmed (codes "#") then trim_space (drop 1 trimmed) else trimmed

module _ (unicode_lower : Bytes → Bytes) where
  abbrev pub keyword_of_fields : List Bytes → Option Keyword
  keyword_of_fields [] = none
  keyword_of_fields (key ∷ more) = keyword_of (to_lower unicode_lower key)

  -- The keyword that a line starts with, commented out or not.
  unfoldable pub line_keyword : Bytes → Option Keyword
  unfolding uncommented fields keyword_of to_lower
  line_keyword text = keyword_of_fields (fields (uncommented text))

  module _ (ch : Changes) where
    abbrev pub replace_by : Keyword → Option Bytes → Updated → Bytes → Bytes × Updated
    replace_by k none u text = (text, u)
    replace_by k (some line) u text = (line, mark k u)

    abbrev pub update_at : Option Keyword → Updated → Bytes → Bytes × Updated
    update_at none u text = (text, u)
    update_at (some k) u text = replace_by k (requested k ch) u text

    unfoldable pub update_lines : Updated → List Bytes → List Bytes × Updated
    unfolding line_keyword requested
    update_lines u [] = ([], u)
    update_lines u (text ∷ texts) =
        let (line, u') = update_at (line_keyword text) u text in
        let (lines, u'') = update_lines u' texts in (line ∷ lines, u'')

    abbrev pub one_line : Option Bytes → List Bytes
    one_line none = []
    one_line (some line) = line ∷ []

    abbrev pub addition : Keyword → Updated → List Bytes
    addition k u = if was k u then [] else one_line (requested k ch)

    abbrev pub additions : Updated → List Bytes
    additions u =
        addition k_port u
        ++ (addition k_root_login u ++ (addition k_password_auth u ++ addition k_pubkey_auth u))

    abbrev pub append_additions : List Bytes → List Bytes → List Bytes
    append_additions lines [] = lines
    append_additions lines (line ∷ more) = lines ++ ([] ∷ codes "# Added by Cloudnan" ∷ line ∷ more)

    unfoldable pub updated_lines : List Bytes → List Bytes
    unfolding update_lines requested
    updated_lines texts =
        let (lines, u) = update_lines none_updated texts in append_additions lines (additions u)

    unfoldable pub new_content : Bytes → Bytes
    unfolding updated_lines split_byte join
    new_content content = join (updated_lines (split_byte content newline)) (newline ∷ [])
