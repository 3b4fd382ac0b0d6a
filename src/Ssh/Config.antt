-- ===== src/Ssh/Config.antt =====
-- internal/ssh/sshd_config.go: reading and updating the settings of the SSH daemon.
pub mod Update
pub mod Includes
pub mod Words
pub mod Agree
pub mod Step
pub mod Lines
pub mod Additions
pub mod RoundTrip
mod Examples
use cloudnan_agent.Base.{
  ℕ, ℤ, pos, Bool, true, false, not, ◌&&◌, ◌||◌, List, [], ◌∷◌, ◌++◌, Option, none, some,
  if◌then◌else◌, length, drop, Bytes, codes, Outcome, ok, err,
}
use mathlib.Core.Option
use cloudnan_agent.Ssh.Host.{Host, SshError, os_error, scan_file, create_backup, chain}
use cloudnan_agent.Ssh.Keys.{is_empty, map_ok}
use cloudnan_agent.Text.Case.{bytes_equal, to_lower}
use cloudnan_agent.Text.Decimal.{atoi, format_int}
use cloudnan_agent.Text.Lines.{join, split_byte}
use cloudnan_agent.Text.Scanner.{newline}
use cloudnan_agent.Text.Search.{has_prefix}
use cloudnan_agent.Text.Space.{fields, trim_space}

pub record SshdConfig : Type 0 where
  pub port : ℤ
  pub permit_root_login : Bool
  pub password_auth : Bool
  pub pubkey_auth : Bool

abbrev pub default_config : SshdConfig
default_config = record {
  port = pos 22;
  permit_root_login = true;
  password_auth = true;
  pubkey_auth = true;
}

-- The four keywords that are read and written, with the value of each.
pub data Setting : Type 0 where
  port_is : ℤ → Setting
  root_login_is password_auth_is pubkey_auth_is : Bool → Setting

pub data Keyword : Type 0 where
  k_port k_root_login k_password_auth k_pubkey_auth : Keyword

-- The `switch` on a word in lower case.
unfoldable pub keyword_of : Bytes → Option Keyword
unfolding bytes_equal
keyword_of key =
    if bytes_equal key (codes "port")
    then some k_port
    else if bytes_equal key (codes "permitrootlogin")
    then some k_root_login
    else if bytes_equal key (codes "passwordauthentication")
    then some k_password_auth
    else if bytes_equal key (codes "pubkeyauthentication")
    then some k_pubkey_auth
    else none

module _ (unicode_lower : Bytes → Bytes) where
  unfoldable pub parse_bool_value : Bytes → Bool
  unfolding to_lower bytes_equal
  parse_bool_value value =
      let v = to_lower unicode_lower value in
      bytes_equal v (codes "yes") || bytes_equal v (codes "true") || bytes_equal v (codes "1")

  -- What a value says under a keyword; a port that is no number says nothing.
  unfoldable pub setting_of : Keyword → Bytes → Option Setting
  unfolding parse_bool_value atoi
  setting_of k_port value = Option.map port_is (atoi value)
  setting_of k_root_login value = some (root_login_is (parse_bool_value value))
  setting_of k_password_auth value = some (password_auth_is (parse_bool_value value))
  setting_of k_pubkey_auth value = some (pubkey_auth_is (parse_bool_value value))

  abbrev pub setting_at : Option Keyword → Bytes → Option Setting
  setting_at none value = none
  setting_at (some k) value = setting_of k value

  abbrev pub setting_of_fields : List Bytes → Option Setting
  setting_of_fields [] = none
  setting_of_fields (key ∷ []) = none
  setting_of_fields (key ∷ value ∷ more) =
      setting_at (keyword_of (to_lower unicode_lower key)) value

  -- What a line sets.
  unfoldable pub line_setting : Bytes → Option Setting
  unfolding trim_space has_prefix fields keyword_of to_lower setting_of
  line_setting text =
      let line = trim_space text in
      if is_empty line || has_prefix line (codes "#") then none else setting_of_fields (fields line)

  abbrev pub set : Option Setting → SshdConfig → SshdConfig
  set none c = c
  set (some (port_is p)) c = record c { port = p }
  set (some (root_login_is b)) c = record c { permit_root_login = b }
  set (some (password_auth_is b)) c = record c { password_auth = b }
  set (some (pubkey_auth_is b)) c = record c { pubkey_auth = b }

  unfoldable pub read_lines : SshdConfig → List Bytes → SshdConfig
  unfolding line_setting
  read_lines c [] = c
  read_lines c (line ∷ lines) = read_lines (set (line_setting line) c) lines

  unfoldable pub get_current_config :
      {State OsError : Type 0}
      → Host State OsError
      → Bytes
      → State
      → Outcome (SshError OsError) SshdConfig
  unfolding scan_file read_lines
  get_current_config host config_path s =
      map_ok (read_lines default_config) (scan_file host config_path s)
