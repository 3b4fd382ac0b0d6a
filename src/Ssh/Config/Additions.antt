-- ===== src/Ssh/Config/Additions.antt =====
-- What the additions of `UpdateConfig` set, and what the updated text sets with them.
use mathlib.Core.Option
use cloudnan_agent.Base.{
  ℤ, Bool, true, List, [], ◌∷◌, ◌++◌, Option, none, some, Bytes, codes, ◌≡◌, refl, sym, ap, ◌∙◌,
  subst, Bool-cases, inl, inr,
}
use cloudnan_agent.Ssh.Config.{
  SshdConfig, Setting, port_is, root_login_is, password_auth_is, pubkey_auth_is, Keyword, k_port,
  k_root_login, k_password_auth, k_pubkey_auth, line_setting, set, read_lines,
}
use cloudnan_agent.Ssh.Config.Agree.{setting, wanted, PortIsInt, Written, requested-Written}
use cloudnan_agent.Ssh.Config.Lines.{Agrees-unwanted, wanted-about, mark-was, update_lines-Agrees}
use cloudnan_agent.Ssh.Config.Step.{SettingAgrees, Agrees, Agrees-right}
use cloudnan_agent.Ssh.Config.Update.{
  Changes, requested, Updated, was, mark, none_updated, update_lines, one_line, addition, additions,
  append_additions, updated_lines,
}

abbrev pub or_kept : {A : Type 0} → Option A → A → A
or_kept none a = a
or_kept (some b) a = b

-- The settings with the changes made.
abbrev pub changed : Changes → SshdConfig → SshdConfig
changed ch c = record {
  port = or_kept ch.port c.port;
  permit_root_login = or_kept ch.permit_root_login c.permit_root_login;
  password_auth = or_kept ch.password_auth c.password_auth;
  pubkey_auth = or_kept ch.pubkey_auth c.pubkey_auth;
}

abbrev port_in : ℤ → Setting → ℤ
port_in d (port_is p) = p
port_in d (root_login_is b) = d
port_in d (password_auth_is b) = d
port_in d (pubkey_auth_is b) = d

abbrev flag_in : Setting → Bool
flag_in (port_is p) = true
flag_in (root_login_is b) = b
flag_in (password_auth_is b) = b
flag_in (pubkey_auth_is b) = b

port_changed :
    (o : Option ℤ) (p p' : ℤ)
    → SettingAgrees (Option.map port_is o) true (port_is p) (port_is p')
    → p' ≡ or_kept o p
port_changed none p p' h = ap (port_in p) h
port_changed (some q) p p' h = ap (port_in p) h

flag_changed :
    (f : Bool → Setting) (o : Option Bool) (b b' : Bool)
    → ((x : Bool) → flag_in (f x) ≡ x)
    → SettingAgrees (Option.map f o) true (f b) (f b')
    → b' ≡ or_kept o b
flag_changed f none b b' e h = sym (e b') ∙ ap flag_in h ∙ e b
flag_changed f (some x) b b' e h = sym (e b') ∙ ap flag_in h ∙ e x

config_eq :
    (c d : SshdConfig)
    → c.port ≡ d.port
    → c.permit_root_login ≡ d.permit_root_login
    → c.password_auth ≡ d.password_auth
    → c.pubkey_auth ≡ d.pubkey_auth
    → c ≡ d
config_eq c d e f g h =
    ap (λ p. record c { port = p }) e
    ∙ ap
        (λ b. record d {
          permit_root_login = b;
          password_auth = c.password_auth;
          pubkey_auth = c.pubkey_auth;
        })
        f
    ∙ ap (λ b. record d { password_auth = b; pubkey_auth = c.pubkey_auth }) g
    ∙ ap (λ b. record d { pubkey_auth = b }) h

read_lines-heading :
    (unicode_lower : Bytes → Bytes) (d : SshdConfig) (ls : List Bytes)
    → read_lines unicode_lower d ([] ∷ codes "# Added by Cloudnan" ∷ ls)
      ≡ read_lines unicode_lower d ls
unfolding read_lines line_setting
read_lines-heading unicode_lower d ls = refl

module _ (unicode_lower : Bytes → Bytes) (ch : Changes) where
  abbrev all_updated : Updated
  all_updated = record {
    port = true;
    permit_root_login = true;
    password_auth = true;
    pubkey_auth = true;
  }

  Agrees-changed :
      (c c' : SshdConfig) → Agrees unicode_lower ch all_updated c c' → c' ≡ changed ch c
  Agrees-changed c c' a =
      config_eq c' (changed ch c) (port_changed ch.port c.port c'.port (a k_port))
        (flag_changed root_login_is ch.permit_root_login c.permit_root_login c'.permit_root_login
          (λ x. refl) (a k_root_login))
        (flag_changed password_auth_is ch.password_auth c.password_auth c'.password_auth (λ x. refl)
          (a k_password_auth))
        (flag_changed pubkey_auth_is ch.pubkey_auth c.pubkey_auth c'.pubkey_auth (λ x. refl)
          (a k_pubkey_auth))

  Agrees-none_updated : (c : SshdConfig) → Agrees unicode_lower ch none_updated c c
  Agrees-none_updated c k = unfound k (wanted k ch)
    where
      unfound :
          (k : Keyword) (o : Option Setting)
          → SettingAgrees o (was k none_updated) (setting k c) (setting k c)
      unfound k none = refl
      unfound k_port (some σ) = tt
      unfound k_root_login (some σ) = tt
      unfound k_password_auth (some σ) = tt
      unfound k_pubkey_auth (some σ) = tt

  -- The line of one keyword, added if none was found.
  one_line-Agrees :
      (k : Keyword) (v : Updated) (c c' : SshdConfig) (l : Option Bytes) (o : Option Setting)
      → wanted k ch ≡ o
      → Written unicode_lower l o
      → Agrees unicode_lower ch v c c'
      → Agrees unicode_lower ch
          (mark k v)
          c
          (read_lines unicode_lower c' (one_line unicode_lower ch l))
  unfolding read_lines
  one_line-Agrees k v c c' none none e w a = Agrees-unwanted unicode_lower ch k v c c' e a
  one_line-Agrees k v c c' none (some σ) e w a = elim w [ ]
  one_line-Agrees k v c c' (some line) none e w a = elim w [ ]
  one_line-Agrees k v c c' (some line) (some σ) e (reads, fits) a =
      let own_line = wanted-about k ch σ e in
      let right = Agrees-right unicode_lower ch v c c' σ (ap (λ j. wanted j ch) own_line ∙ e) a in
      subst (λ x. Agrees unicode_lower ch (mark k v) c (set unicode_lower x c')) (sym reads)
        (subst (λ j. Agrees unicode_lower ch (mark j v) c (set unicode_lower (some σ) c')) own_line
          right)

  read_lines-nil : (c : SshdConfig) → read_lines unicode_lower c [] ≡ c
  unfolding read_lines
  read_lines-nil c = refl

  addition-Agrees :
      (k : Keyword) (u v : Updated) (c c' : SshdConfig)
      → PortIsInt ch.port
      → was k v ≡ was k u
      → Agrees unicode_lower ch v c c'
      → Agrees unicode_lower ch
          (mark k v)
          c
          (read_lines unicode_lower c' (addition unicode_lower ch k u))
  addition-Agrees k u v c c' p e a = elim (Bool-cases (was k u)) [
    | inl h ↦ rw (h, mark-was k v (e ∙ h), read_lines-nil c') a
    | inr h ↦ rw h (
        one_line-Agrees k v c c' (requested k ch) (wanted k ch) refl
          (requested-Written unicode_lower k ch p) a)
  ]

  pub read_lines-append :
      (c : SshdConfig) (xs ys : List Bytes)
      → read_lines unicode_lower c (xs ++ ys)
        ≡ read_lines unicode_lower (read_lines unicode_lower c xs) ys
  unfolding read_lines
  read_lines-append c [] ys = refl
  read_lines-append c (x ∷ xs) ys =
      read_lines-append (set unicode_lower (line_setting unicode_lower x) c) xs ys

  additions-Agrees :
      (u : Updated) (c c' : SshdConfig)
      → PortIsInt ch.port
      → Agrees unicode_lower ch u c c'
      → Agrees unicode_lower ch all_updated c
          (read_lines unicode_lower c' (additions unicode_lower ch u))
  additions-Agrees u c c' p a =
      let add : Keyword → List Bytes = (λ k. addition unicode_lower ch k u) in
      let c₁ = read_lines unicode_lower c' (add k_port) in
      let c₂ = read_lines unicode_lower c₁ (add k_root_login) in
      let c₃ = read_lines unicode_lower c₂ (add k_password_auth) in
      let u₁ = mark k_port u in
      let u₂ = mark k_root_login u₁ in
      let u₃ = mark k_password_auth u₂ in
      let a₁ = addition-Agrees k_port u u c c' p refl a in
      let a₂ = addition-Agrees k_root_login u u₁ c c₁ p refl a₁ in
      let a₃ = addition-Agrees k_password_auth u u₂ c c₂ p refl a₂ in
      let a₄ = addition-Agrees k_pubkey_auth u u₃ c c₃ p refl a₃ in
      subst (Agrees unicode_lower ch all_updated c)
        (sym (
          read_lines-append c' (add k_port)
            (add k_root_login ++ (add k_password_auth ++ add k_pubkey_auth))
          ∙ read_lines-append c₁ (add k_root_login) (add k_password_auth ++ add k_pubkey_auth)
          ∙ read_lines-append c₂ (add k_password_auth) (add k_pubkey_auth)))
        a₄

  -- The empty line and the comment in front of the additions set nothing.
  read_lines-append_additions :
      (c : SshdConfig) (lines more : List Bytes)
      → read_lines unicode_lower c (append_additions unicode_lower ch lines more)
        ≡ read_lines unicode_lower (read_lines unicode_lower c lines) more
  read_lines-append_additions c lines [] = sym (read_lines-nil (read_lines unicode_lower c lines))
  read_lines-append_additions c lines (line ∷ more) =
      read_lines-append c lines ([] ∷ codes "# Added by Cloudnan" ∷ line ∷ more)
      ∙ read_lines-heading unicode_lower (read_lines unicode_lower c lines) (line ∷ more)

  pub read_lines-updated_lines :
      (c : SshdConfig) (texts : List Bytes)
      → PortIsInt ch.port
      → read_lines unicode_lower c (updated_lines unicode_lower ch texts)
        ≡ changed ch (read_lines unicode_lower c texts)
  unfolding updated_lines
  read_lines-updated_lines c texts p =
      let o = update_lines unicode_lower ch none_updated texts in
      read_lines-append_additions c o.0 (additions unicode_lower ch o.1)
      ∙ Agrees-changed (read_lines unicode_lower c texts)
          (read_lines unicode_lower (read_lines unicode_lower c o.0)
            (additions unicode_lower ch o.1))
          (additions-Agrees o.1 (read_lines unicode_lower c texts) (read_lines unicode_lower c o.0)
            p
            (update_lines-Agrees unicode_lower ch none_updated c c texts p (Agrees-none_updated c)))
