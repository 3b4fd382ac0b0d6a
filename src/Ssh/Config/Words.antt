-- ===== src/Ssh/Config/Words.antt =====
-- A line that is written for a setting is read as that setting, and stands on one line.
use mathlib.Core.Option
use cloudnan_agent.Base.{
  ℕ, ◌+◌, ◌≤◌, ℤ, Bool, true, false, not, [], ◌∷◌, ◌++◌, some, ltb, length, all, all-append,
  append_assoc, Bytes, codes, ◌==◌, ◌≡◌, refl, sym, ap, ◌∙◌, subst, arith,
}
use cloudnan_agent.Ssh.Config.{
  port_is, root_login_is, password_auth_is, pubkey_auth_is, keyword_of, setting_of, setting_at,
  setting_of_fields, line_setting,
}
use cloudnan_agent.Ssh.Config.Update.{bool_to_ssh_value}
use cloudnan_agent.Text.Case.{to_lower}
use cloudnan_agent.Text.Decimal.{atoi, format_int}
use cloudnan_agent.Text.Decimal.RoundTrip.{IsInt, atoi-format_int, format_int-Word}
use cloudnan_agent.Text.Scanner.{newline, drop_cr}
use cloudnan_agent.Text.Scanner.Laws.{FitsLine, drop_cr-snoc}
use cloudnan_agent.Text.Search.{has_prefix}
use cloudnan_agent.Text.Space.{fields, trim_space}
use cloudnan_agent.Text.Space.Laws.{solid}
use cloudnan_agent.Text.Space.Words.{fields-two, trim_space-two}

module _ (unicode_lower : Bytes → Bytes) where
  line_setting-trimmed :
      (a : ℕ) (v line : Bytes)
      → line ≡ a ∷ v
      → trim_space line ≡ line
      → (a == b'#') ≡ false
      → line_setting unicode_lower line ≡ setting_of_fields unicode_lower (fields line)
  unfolding line_setting has_prefix
  line_setting-trimmed a v line e t h = rw (t, e, h) refl

  -- A line of two words.
  line_setting-two :
      (a b : ℕ) (v w : Bytes)
      → all solid (a ∷ v) ≡ true
      → all solid (b ∷ w) ≡ true
      → (a == b'#') ≡ false
      → line_setting unicode_lower ((a ∷ v) ++ (b' ' ∷ b ∷ w))
        ≡ setting_at unicode_lower (keyword_of (to_lower unicode_lower (a ∷ v))) (b ∷ w)
  line_setting-two a b v w h k n =
      line_setting-trimmed a (v ++ (b' ' ∷ b ∷ w)) ((a ∷ v) ++ (b' ' ∷ b ∷ w)) refl
        (trim_space-two a b v w h k) n
      ∙ ap (setting_of_fields unicode_lower) (fields-two a b v w h k)

  port_solid : all solid (codes "Port") ≡ true
  unfolding solid
  port_solid = refl

  port_word :
      (value : Bytes)
      → setting_at unicode_lower (keyword_of (to_lower unicode_lower (codes "Port"))) value
        ≡ Option.map port_is (atoi value)
  unfolding keyword_of to_lower setting_of
  port_word value = refl

  pub line_setting-port :
      (p : ℤ)
      → IsInt p
      → line_setting unicode_lower (codes "Port " ++ format_int p) ≡ some (port_is p)
  line_setting-port p h =
      let d = format_int-Word p in
      ap (λ x. line_setting unicode_lower (codes "Port " ++ x)) d.split
      ∙ line_setting-two b'P' d.first (codes "ort") d.more port_solid d.all_solid refl
      ∙ port_word (d.first ∷ d.more)
      ∙ ap (λ x. Option.map port_is (atoi x)) (sym d.split)
      ∙ ap (Option.map port_is) (atoi-format_int p h)

  pub line_setting-root_login :
      (b : Bool)
      → line_setting unicode_lower (codes "PermitRootLogin " ++ bool_to_ssh_value b)
        ≡ some (root_login_is b)
  unfolding line_setting
  line_setting-root_login true = refl
  line_setting-root_login false = refl

  pub line_setting-password_auth :
      (b : Bool)
      → line_setting unicode_lower (codes "PasswordAuthentication " ++ bool_to_ssh_value b)
        ≡ some (password_auth_is b)
  unfolding line_setting
  line_setting-password_auth true = refl
  line_setting-password_auth false = refl

  pub line_setting-pubkey_auth :
      (b : Bool)
      → line_setting unicode_lower (codes "PubkeyAuthentication " ++ bool_to_ssh_value b)
        ≡ some (pubkey_auth_is b)
  unfolding line_setting
  line_setting-pubkey_auth true = refl
  line_setting-pubkey_auth false = refl

solid-no_newline : (s : Bytes) → all solid s ≡ true → all (λ c. not (c == newline)) s ≡ true
unfolding solid
solid-no_newline [] h = refl
solid-no_newline (c ∷ s) h = ground (arith, solid-no_newline s)

-- Behind a text without a carriage return a word ends in none.
drop_cr-word :
    (t : Bytes) (c : ℕ) (s : Bytes)
    → all solid (c ∷ s) ≡ true
    → drop_cr (t ++ (c ∷ s)) ≡ t ++ (c ∷ s)
unfolding solid
drop_cr-word t c [] h = drop_cr-snoc t c (ground arith)
drop_cr-word t c (d ∷ s) h =
    ap drop_cr (sym (append_assoc t (c ∷ []) (d ∷ s)))
    ∙ drop_cr-word (t ++ c ∷ []) d s (ground arith)
    ∙ append_assoc t (c ∷ []) (d ∷ s)

short_enough : (n k : ℕ) → n ≡ 5 + k → k ≤ 21 → ltb n 65536 ≡ true
short_enough n k e h = ground arith

port_newline : all (λ c. not (c == newline)) (codes "Port ") ≡ true
port_newline = refl

pub FitsLine-port : (p : ℤ) → FitsLine (codes "Port " ++ format_int p)
FitsLine-port p =
    let d = format_int-Word p in
    subst (λ x. FitsLine (codes "Port " ++ x)) (sym d.split)
      (record {
        one_line =
            all-append (λ c. not (c == newline)) (codes "Port ") (d.first ∷ d.more) port_newline
              (solid-no_newline (d.first ∷ d.more) d.all_solid);
        short =
            short_enough (length (codes "Port " ++ (d.first ∷ d.more))) (length (d.first ∷ d.more))
              (omega arith) d.few;
        no_cr = drop_cr-word (codes "Port ") d.first d.more d.all_solid;
      })

FitsLine-value :
    (key : Bytes) (b : Bool)
    → FitsLine (key ++ codes "yes")
    → FitsLine (key ++ codes "no")
    → FitsLine (key ++ bool_to_ssh_value b)
FitsLine-value key true h k = h
FitsLine-value key false h k = k

pub FitsLine-root_login : (b : Bool) → FitsLine (codes "PermitRootLogin " ++ bool_to_ssh_value b)
unfolding drop_cr
FitsLine-root_login b =
    FitsLine-value (codes "PermitRootLogin ") b
      (record { one_line = refl; short = refl; no_cr = refl })
      (record { one_line = refl; short = refl; no_cr = refl })

pub FitsLine-password_auth :
    (b : Bool) → FitsLine (codes "PasswordAuthentication " ++ bool_to_ssh_value b)
unfolding drop_cr
FitsLine-password_auth b =
    FitsLine-value (codes "PasswordAuthentication ") b
      (record { one_line = refl; short = refl; no_cr = refl })
      (record { one_line = refl; short = refl; no_cr = refl })

pub FitsLine-pubkey_auth :
    (b : Bool) → FitsLine (codes "PubkeyAuthentication " ++ bool_to_ssh_value b)
unfolding drop_cr
FitsLine-pubkey_auth b =
    FitsLine-value (codes "PubkeyAuthentication ") b
      (record { one_line = refl; short = refl; no_cr = refl })
      (record { one_line = refl; short = refl; no_cr = refl })
