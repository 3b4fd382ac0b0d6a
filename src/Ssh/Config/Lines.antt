-- ===== src/Ssh/Config/Lines.antt =====
-- The comparison of the settings goes through all lines of the update and the additions behind them.
use mathlib.Core.Option
use cloudnan_agent.Base.{
  Every, Every-append, ℤ, Bool, true, false, List, [], ◌∷◌, ◌++◌, Option, none, some, if◌then◌else◌,
  Bytes, codes, ◌≡◌, ◌⊎◌, refl, sym, ap, ◌∙◌, subst, Option-cases, Bool-cases, inl, inr,
}
use cloudnan_agent.Ssh.Config.{
  SshdConfig, Setting, port_is, root_login_is, password_auth_is, pubkey_auth_is, Keyword, k_port,
  k_root_login, k_password_auth, k_pubkey_auth, line_setting, set, read_lines,
}
use cloudnan_agent.Ssh.Config.Agree.{
  about, setting, wanted, PortIsInt, Written, requested-Written, line_setting-keyword,
}
use cloudnan_agent.Ssh.Config.Step.{
  SettingAgrees, touch, Agrees, Agrees-left, Agrees-both, Agrees-right,
}
use cloudnan_agent.Ssh.Config.Update.{
  Changes, requested, Updated, was, mark, line_keyword, replace_by, update_at, update_lines,
}

map-some-port : (o : Option ℤ) (σ : Setting) → Option.map port_is o ≡ some σ → about σ ≡ k_port
map-some-port none σ h = cc
map-some-port (some p) σ h = sym (ap (λ o. elim o [ none ↦ k_port | some τ ↦ about τ ]) h)

map-some-flag :
    (f : Bool → Setting) (k : Keyword) (o : Option Bool) (σ : Setting)
    → ((b : Bool) → about (f b) ≡ k)
    → Option.map f o ≡ some σ
    → about σ ≡ k
map-some-flag f k none σ e h = cc
map-some-flag f k (some b) σ e h =
    sym (ap (λ o. elim o [ none ↦ about (f b) | some τ ↦ about τ ]) h) ∙ e b

pub wanted-about : (k : Keyword) (ch : Changes) (σ : Setting) → wanted k ch ≡ some σ → about σ ≡ k
wanted-about k_port ch σ h = map-some-port ch.port σ h
wanted-about k_root_login ch σ h =
    map-some-flag root_login_is k_root_login ch.permit_root_login σ (λ b. refl) h
wanted-about k_password_auth ch σ h =
    map-some-flag password_auth_is k_password_auth ch.password_auth σ (λ b. refl) h
wanted-about k_pubkey_auth ch σ h =
    map-some-flag pubkey_auth_is k_pubkey_auth ch.pubkey_auth σ (λ b. refl) h

pub mark-was : (k : Keyword) (u : Updated) → was k u ≡ true → mark k u ≡ u
mark-was k_port u h = ap (λ b. record u { port = b }) (sym h)
mark-was k_root_login u h = ap (λ b. record u { permit_root_login = b }) (sym h)
mark-was k_password_auth u h = ap (λ b. record u { password_auth = b }) (sym h)
mark-was k_pubkey_auth u h = ap (λ b. record u { pubkey_auth = b }) (sym h)

sample : (k : Keyword) → (σ : Setting) × (about σ ≡ k)
sample k_port = (port_is (cloudnan_agent.Base.pos 0), refl)
sample k_root_login = (root_login_is true, refl)
sample k_password_auth = (password_auth_is true, refl)
sample k_pubkey_auth = (pubkey_auth_is true, refl)

SettingAgrees-none :
    (o : Option Setting) (b b' : Bool) (v w : Setting)
    → o ≡ none
    → SettingAgrees o b v w
    → SettingAgrees o b' v w
SettingAgrees-none none b b' v w h a = a
SettingAgrees-none (some σ) b b' v w h a = absurd (cc)

module _ (unicode_lower : Bytes → Bytes) (ch : Changes) where
  pub Agrees-unwanted :
      (k : Keyword) (u : Updated) (c c' : SshdConfig)
      → wanted k ch ≡ none
      → Agrees unicode_lower ch u c c'
      → Agrees unicode_lower ch (mark k u) c c'
  Agrees-unwanted k u c c' h a j =
      let (σ, e) = sample k in
      elim (touch unicode_lower j σ) [
        | inl t ↦
            SettingAgrees-none (wanted j ch) (was j u) (was j (mark k u)) (setting j c)
              (setting j c') (ap (λ i. wanted i ch) (t.same ∙ e) ∙ h) (a j)
        | inr t ↦
            subst (λ b. SettingAgrees (wanted j ch) b (setting j c) (setting j c'))
              (sym (t.leaves u) ∙ ap (λ i. was j (mark i u)) e) (a j)
      ]

  set-both :
      (u : Updated) (c c' : SshdConfig) (o : Option Setting)
      → ((τ : Setting) → o ≡ some τ → wanted (about τ) ch ≡ none)
      → Agrees unicode_lower ch u c c'
      → Agrees unicode_lower ch u (set unicode_lower o c) (set unicode_lower o c')
  set-both u c c' none h a = a
  set-both u c c' (some τ) h a = Agrees-both unicode_lower ch u c c' τ (h τ refl) a

  set-left :
      (u : Updated) (c c' : SshdConfig) (o : Option Setting) (σ : Setting)
      → ((τ : Setting) → o ≡ some τ → wanted (about τ) ch ≡ some σ)
      → Agrees unicode_lower ch u c c'
      → Agrees unicode_lower ch u (set unicode_lower o c) c'
  set-left u c c' none σ h a = a
  set-left u c c' (some τ) σ h a = Agrees-left unicode_lower ch u c c' τ σ (h τ refl) a

  some_keyword : (k j : Keyword) → some k ≡ some j → k ≡ j
  some_keyword k j h = ap (λ o. elim o [ none ↦ k | some i ↦ i ]) h

  -- What is asked for under a keyword and the line that is written for it.
  abbrev Line : Keyword → Updated → SshdConfig → SshdConfig → Bytes → Type 0
  Line k u c c' text =
      ((τ : Setting) → line_setting unicode_lower text ≡ some τ → k ≡ about τ)
      → Agrees unicode_lower ch u c c'
      → (l : Option Bytes) (o : Option Setting) → wanted k ch ≡ o
      → Written unicode_lower l o
      → Agrees unicode_lower ch (replace_by unicode_lower ch k l u text).1
          (set unicode_lower (line_setting unicode_lower text) c)
          (set unicode_lower (line_setting unicode_lower (replace_by unicode_lower ch k l u text).0)
            c')

  replace_by-Agrees :
      (k : Keyword) (u : Updated) (c c' : SshdConfig) (text : Bytes) → Line k u c c' text
  replace_by-Agrees k u c c' text own a none none e w =
      set-both u c c' (line_setting unicode_lower text)
        (λ τ h. ap (λ j. wanted j ch) (sym (own τ h)) ∙ e) a
  replace_by-Agrees k u c c' text own a none (some σ) e w = elim w [ ]
  replace_by-Agrees k u c c' text own a (some line) none e w = elim w [ ]
  replace_by-Agrees k u c c' text own a (some line) (some σ) e (reads, fits) =
      let d = set unicode_lower (line_setting unicode_lower text) c in
      let left =
        set-left u c c' (line_setting unicode_lower text) σ
          (λ τ h. ap (λ j. wanted j ch) (sym (own τ h)) ∙ e) a in
      let own_line = wanted-about k ch σ e in
      let right =
        Agrees-right unicode_lower ch u d c' σ (ap (λ j. wanted j ch) own_line ∙ e) left in
      subst (λ x. Agrees unicode_lower ch (mark k u) d (set unicode_lower x c')) (sym reads)
        (subst (λ j. Agrees unicode_lower ch (mark j u) d (set unicode_lower (some σ) c')) own_line
          right)

  update_at-Agrees :
      (kw : Option Keyword) (u : Updated) (c c' : SshdConfig) (text : Bytes)
      → PortIsInt ch.port
      → ((τ : Setting) → line_setting unicode_lower text ≡ some τ → kw ≡ some (about τ))
      → Agrees unicode_lower ch u c c'
      → Agrees unicode_lower ch
          (update_at unicode_lower ch kw u text).1
          (set unicode_lower (line_setting unicode_lower text) c)
          (set unicode_lower
            (line_setting unicode_lower (update_at unicode_lower ch kw u text).0)
            c')
  update_at-Agrees none u c c' text p own a =
      set-both u c c' (line_setting unicode_lower text) (λ τ h. cc (own τ h)) a
  update_at-Agrees (some k) u c c' text p own a =
      replace_by-Agrees k u c c' text (λ τ h. some_keyword k (about τ) (own τ h)) a (requested k ch)
        (wanted k ch) refl (requested-Written unicode_lower k ch p)

  pub update_lines-Agrees :
      (u : Updated) (c c' : SshdConfig) (lines : List Bytes)
      → PortIsInt ch.port
      → Agrees unicode_lower ch u c c'
      → Agrees unicode_lower ch
          (update_lines unicode_lower ch u lines).1
          (read_lines unicode_lower c lines)
          (read_lines unicode_lower c' (update_lines unicode_lower ch u lines).0)
  unfolding update_lines read_lines
  update_lines-Agrees u c c' [] p a = a
  update_lines-Agrees u c c' (text ∷ texts) p a =
      let o = update_at unicode_lower ch (line_keyword unicode_lower text) u text in
      update_lines-Agrees o.1 (set unicode_lower (line_setting unicode_lower text) c)
        (set unicode_lower (line_setting unicode_lower o.0) c') texts p
        (update_at-Agrees (line_keyword unicode_lower text) u c c' text p
          (line_setting-keyword unicode_lower text) a)
