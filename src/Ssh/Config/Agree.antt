-- ===== src/Ssh/Config/Agree.antt =====
-- How the settings of the file compare before and behind an update, line by line.
use mathlib.Core.Option
use cloudnan_agent.Base.{
  ℤ, Bool, true, false, ◌||◌, List, [], ◌∷◌, ◌++◌, Option, none, some, Bytes, codes, ◌≡◌, ap, inl,
  inr, Bool-cases,
}
use cloudnan_agent.Ssh.Config.{
  SshdConfig, Setting, port_is, root_login_is, password_auth_is, pubkey_auth_is, Keyword, k_port,
  k_root_login, k_password_auth, k_pubkey_auth, keyword_of, setting_of, setting_at,
  setting_of_fields, line_setting,
}
use cloudnan_agent.Ssh.Config.Update.{
  Changes, bool_to_ssh_value, requested, uncommented, keyword_of_fields, line_keyword,
}
use cloudnan_agent.Ssh.Config.Words.{
  line_setting-port, line_setting-root_login, line_setting-password_auth, line_setting-pubkey_auth,
  FitsLine-port, FitsLine-root_login, FitsLine-password_auth, FitsLine-pubkey_auth,
}
use cloudnan_agent.Ssh.Keys.{is_empty}
use cloudnan_agent.Text.Case.{to_lower}
use cloudnan_agent.Text.Decimal.RoundTrip.{IsInt}
use cloudnan_agent.Text.Scanner.Laws.{FitsLine}
use cloudnan_agent.Text.Search.{has_prefix}
use cloudnan_agent.Text.Space.{fields, trim_space}

abbrev pub about : Setting → Keyword
about (port_is p) = k_port
about (root_login_is b) = k_root_login
about (password_auth_is b) = k_password_auth
about (pubkey_auth_is b) = k_pubkey_auth

abbrev pub setting : Keyword → SshdConfig → Setting
setting k_port c = port_is c.port
setting k_root_login c = root_login_is c.permit_root_login
setting k_password_auth c = password_auth_is c.password_auth
setting k_pubkey_auth c = pubkey_auth_is c.pubkey_auth

abbrev pub wanted : Keyword → Changes → Option Setting
wanted k_port ch = Option.map port_is ch.port
wanted k_root_login ch = Option.map root_login_is ch.permit_root_login
wanted k_password_auth ch = Option.map password_auth_is ch.password_auth
wanted k_pubkey_auth ch = Option.map pubkey_auth_is ch.pubkey_auth

abbrev pub PortIsInt : Option ℤ → Type 0
PortIsInt none = Unit {0}
PortIsInt (some p) = IsInt p

module _ (unicode_lower : Bytes → Bytes) where
  -- A requested line: what it sets, on a line of its own.
  abbrev pub Written : Option Bytes → Option Setting → Type 0
  Written none none = Unit {0}
  Written none (some σ) = ⊥
  Written (some line) none = ⊥
  Written (some line) (some σ) = (line_setting unicode_lower line ≡ some σ) × FitsLine line

  pub requested-Written :
      (k : Keyword) (ch : Changes) → PortIsInt ch.port → Written (requested k ch) (wanted k ch)
  unfolding requested
  requested-Written k_port ch h = by_port ch.port h
    where
      by_port :
          (o : Option ℤ)
          → PortIsInt o
          → Written
              (Option.map (λ p. codes "Port " ++ cloudnan_agent.Text.Decimal.format_int p) o)
              (Option.map port_is o)
      by_port none h = tt
      by_port (some p) h = (line_setting-port unicode_lower p h, FitsLine-port p)
  requested-Written k_root_login ch h = by_flag ch.permit_root_login
    where
      by_flag :
          (o : Option Bool)
          → Written
              (Option.map (λ b. codes "PermitRootLogin " ++ bool_to_ssh_value b) o)
              (Option.map root_login_is o)
      by_flag none = tt
      by_flag (some b) = (line_setting-root_login unicode_lower b, FitsLine-root_login b)
  requested-Written k_password_auth ch h = by_flag ch.password_auth
    where
      by_flag :
          (o : Option Bool)
          → Written
              (Option.map (λ b. codes "PasswordAuthentication " ++ bool_to_ssh_value b) o)
              (Option.map password_auth_is o)
      by_flag none = tt
      by_flag (some b) = (line_setting-password_auth unicode_lower b, FitsLine-password_auth b)
  requested-Written k_pubkey_auth ch h = by_flag ch.pubkey_auth
    where
      by_flag :
          (o : Option Bool)
          → Written
              (Option.map (λ b. codes "PubkeyAuthentication " ++ bool_to_ssh_value b) o)
              (Option.map pubkey_auth_is o)
      by_flag none = tt
      by_flag (some b) = (line_setting-pubkey_auth unicode_lower b, FitsLine-pubkey_auth b)

  setting_of-about :
      (k : Keyword) (value : Bytes) (τ : Setting)
      → setting_of unicode_lower k value ≡ some τ
      → k ≡ about τ
  unfolding setting_of
  setting_of-about k_port value τ h = by_number (cloudnan_agent.Text.Decimal.atoi value) h
    where
      by_number : (o : Option ℤ) → Option.map port_is o ≡ some τ → k_port ≡ about τ
      by_number none h = cc
      by_number (some p) h = ap (λ o. elim o [ none ↦ k_port | some σ ↦ about σ ]) h
  setting_of-about k_root_login value τ h =
      ap (λ o. elim o [ none ↦ k_root_login | some σ ↦ about σ ]) h
  setting_of-about k_password_auth value τ h =
      ap (λ o. elim o [ none ↦ k_password_auth | some σ ↦ about σ ]) h
  setting_of-about k_pubkey_auth value τ h =
      ap (λ o. elim o [ none ↦ k_pubkey_auth | some σ ↦ about σ ]) h

  setting_at-about :
      (o : Option Keyword) (value : Bytes) (τ : Setting)
      → setting_at unicode_lower o value ≡ some τ
      → o ≡ some (about τ)
  setting_at-about none value τ h = cc
  setting_at-about (some k) value τ h = ap some (setting_of-about k value τ h)

  fields-about :
      (words : List Bytes) (τ : Setting)
      → setting_of_fields unicode_lower words ≡ some τ
      → keyword_of_fields unicode_lower words ≡ some (about τ)
  fields-about [] τ h = cc
  fields-about (key ∷ []) τ h = cc
  fields-about (key ∷ value ∷ more) τ h =
      setting_at-about (keyword_of (to_lower unicode_lower key)) value τ h

  or_right : (a b : Bool) → (a || b) ≡ false → b ≡ false
  or_right true b h = cc
  or_right false b h = h

  -- The update sees the keyword of every line that sets something.
  pub line_setting-keyword :
      (text : Bytes) (τ : Setting)
      → line_setting unicode_lower text ≡ some τ
      → line_keyword unicode_lower text ≡ some (about τ)
  unfolding line_setting line_keyword uncommented
  line_setting-keyword text τ h =
      elim (Bool-cases (is_empty (trim_space text) || has_prefix (trim_space text) (codes "#"))) [
        | inl e ↦ absurd (cc (rw e at h))
        | inr e ↦
            rw (or_right (is_empty (trim_space text)) (has_prefix (trim_space text) (codes "#")) e)
              (fields-about (fields (trim_space text)) τ (rw e at h))
      ]
