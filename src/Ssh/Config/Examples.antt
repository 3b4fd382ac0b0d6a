-- ===== src/Ssh/Config/Examples.antt =====
-- Reading and updating a small configuration.
use cloudnan_agent.Base.{
  Every, pos, true, false, [], ◌∷◌, ◌++◌, none, some, Bytes, codes, ok, ◌≡◌, refl, arith, ℕ,
}
use cloudnan_agent.Ssh.Config.{SshdConfig, get_current_config}
use cloudnan_agent.Ssh.Config.Additions.{changed}
use cloudnan_agent.Ssh.Config.Agree.{PortIsInt}
use cloudnan_agent.Ssh.Config.Includes.{include_patterns, port_lines}
use cloudnan_agent.Ssh.Config.RoundTrip.{get_current_config-new_content}
use cloudnan_agent.Ssh.Config.Update.{Changes, new_content}
use cloudnan_agent.Ssh.Host.{Host}
use cloudnan_agent.Text.Decimal.RoundTrip.{not_negative}
use cloudnan_agent.Text.Lines.{split_byte}
use cloudnan_agent.Text.Scanner.{newline, drop_cr}
use cloudnan_agent.Text.Scanner.Laws.{FitsLine}

-- The state is the content of every file.
abbrev any_file : Host Bytes ℕ
any_file = record {
  lookup_user = λ user. none;
  mkdir_all = λ q mode s. (s, ok tt);
  stat = λ q s. none;
  read_file = λ q s. ok s;
  write_file = λ q content mode s. (content, ok tt);
  open_file = λ q s. ok (s, none);
  is_not_exist = λ e. false;
  glob = λ pattern s. ok [];
  look_path = λ command s. false;
  run = λ command s. (s, ([], true));
  timestamp = λ s. [];
}

abbrev no_lower : Bytes → Bytes
no_lower s = s

abbrev old_content : Bytes
old_content =
    codes "#Port 22" ++ (10 ∷ (codes "permitrootlogin no" ++ (10 ∷ codes "X11Forwarding no")))

abbrev changes : Changes
changes = record {
  port = some (pos 2222);
  permit_root_login = none;
  password_auth = some false;
  pubkey_auth = none;
}

content_test :
    new_content no_lower changes old_content
    ≡ codes "Port 2222"
      ++ (10
          ∷ (codes "permitrootlogin no"
              ++ (10
                  ∷ (codes "X11Forwarding no"
                      ++ (10
                          ∷ 10
                          ∷ (codes "# Added by Cloudnan"
                              ++ (10 ∷ codes "PasswordAuthentication no")))))))
unfolding new_content
content_test = refl

port_IsInt : PortIsInt changes.port
port_IsInt = not_negative (omega arith)

old_content-FitsLine : Every FitsLine (split_byte old_content newline)
unfolding split_byte drop_cr
old_content-FitsLine = (
  record { one_line = refl; short = refl; no_cr = refl },
  (
    record { one_line = refl; short = refl; no_cr = refl },
    (record { one_line = refl; short = refl; no_cr = refl }, tt),
  ),
)

get_current_config-new_content_example :
    (c : SshdConfig) × (get_current_config no_lower any_file (codes "/c") old_content ≡ ok c)
    × (get_current_config no_lower any_file (codes "/c") (new_content no_lower changes old_content)
        ≡ ok (changed changes c))
get_current_config-new_content_example =
    get_current_config-new_content no_lower any_file (codes "/c") old_content changes old_content
      (new_content no_lower changes old_content) port_IsInt old_content-FitsLine refl refl

-- The last line wins here, where the daemon takes the first.
last_test :
    get_current_config no_lower any_file
      (codes "/c")
      (codes "PermitRootLogin no" ++ (10 ∷ codes "PermitRootLogin yes"))
    ≡ ok (record {
      port = pos 22;
      permit_root_login = true;
      password_auth = true;
      pubkey_auth = true;
    })
unfolding get_current_config
last_test = refl

-- A sentence that starts with the keyword is taken for a setting.
comment_test :
    new_content no_lower changes
      (codes "# Port forwarding is off" ++ (10 ∷ codes "PasswordAuthentication no"))
    ≡ codes "Port 2222" ++ (10 ∷ codes "PasswordAuthentication no")
unfolding new_content
comment_test = refl

-- What is added stands in the block at the end.
match_test :
    new_content no_lower changes (codes "PORT 22" ++ (10 ∷ codes "Match User git"))
    ≡ codes "Port 2222"
      ++ (10
          ∷ (codes "Match User git"
              ++ (10
                  ∷ 10
                  ∷ (codes "# Added by Cloudnan" ++ (10 ∷ codes "PasswordAuthentication no")))))
unfolding new_content
match_test = refl

include_test :
    include_patterns
      (codes "/etc/ssh")
      (codes "Include sshd_config.d/*.conf /x" ∷ codes "#Include /y" ∷ [])
    ≡ codes "/etc/ssh/sshd_config.d/*.conf" ∷ codes "/x" ∷ []
unfolding include_patterns
include_test = refl

port_lines_test :
    port_lines (pos 80) (codes "A b" ∷ codes " # port 22" ∷ [])
    ≡ (codes "A b" ∷ codes "Port 80" ∷ [], true)
unfolding port_lines
port_lines_test = refl
