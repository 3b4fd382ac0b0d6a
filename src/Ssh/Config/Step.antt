-- ===== src/Ssh/Config/Step.antt =====
-- What the lines of an updated file set, line by line.
use cloudnan_agent.Base.{
  Bool, true, false, Option, none, some, Bytes, ◌≡◌, ◌⊎◌, refl, sym, ap, ◌∙◌, subst, inl, inr,
}
use cloudnan_agent.Ssh.Config.{
  SshdConfig, Setting, port_is, root_login_is, password_auth_is, pubkey_auth_is, Keyword, k_port,
  k_root_login, k_password_auth, k_pubkey_auth, set,
}
use cloudnan_agent.Ssh.Config.Agree.{about, setting, wanted}
use cloudnan_agent.Ssh.Config.Update.{Changes, Updated, was, mark}

-- What a setting is behind the update, given what it is without it.
abbrev pub SettingAgrees : Option Setting → Bool → Setting → Setting → Type 0
SettingAgrees none found before after = after ≡ before
SettingAgrees (some σ) true before after = after ≡ σ
SettingAgrees (some σ) false before after = Unit {0}

SettingAgrees-left :
    (o : Option Setting) (found : Bool) (σ v v' w : Setting)
    → o ≡ some σ
    → SettingAgrees o found v w
    → SettingAgrees o found v' w
SettingAgrees-left none found σ v v' w h a = absurd (cc)
SettingAgrees-left (some τ) true σ v v' w h a = a
SettingAgrees-left (some τ) false σ v v' w h a = tt

SettingAgrees-both :
    (o : Option Setting) (found : Bool) (σ : Setting) → o ≡ none → SettingAgrees o found σ σ
SettingAgrees-both none found σ h = refl
SettingAgrees-both (some τ) found σ h = absurd (cc)

SettingAgrees-right : (o : Option Setting) (v σ : Setting) → o ≡ some σ → SettingAgrees o true v σ
SettingAgrees-right none v σ h = cc
SettingAgrees-right (some τ) v σ h = cc

module _ (unicode_lower : Bytes → Bytes) where
  -- A setting is about a keyword, or leaves what is said under the keyword as it is.
  pub record Hits (k : Keyword) (σ : Setting) : Type 0 where
    pub same : k ≡ about σ
    pub sets : (c : SshdConfig) → setting k (set unicode_lower (some σ) c) ≡ σ
    pub marks : (u : Updated) → was k (mark (about σ) u) ≡ true

  pub record Misses (k : Keyword) (σ : Setting) : Type 0 where
    pub keeps : (c : SshdConfig) → setting k (set unicode_lower (some σ) c) ≡ setting k c
    pub leaves : (u : Updated) → was k (mark (about σ) u) ≡ was k u

  pub touch : (k : Keyword) (σ : Setting) → Hits k σ ⊎ Misses k σ
  touch k_port (port_is p) = inl (record { same = refl; sets = λ c. refl; marks = λ u. refl })
  touch k_root_login (root_login_is b) =
      inl (record { same = refl; sets = λ c. refl; marks = λ u. refl })
  touch k_password_auth (password_auth_is b) =
      inl (record { same = refl; sets = λ c. refl; marks = λ u. refl })
  touch k_pubkey_auth (pubkey_auth_is b) =
      inl (record { same = refl; sets = λ c. refl; marks = λ u. refl })
  touch k_port (root_login_is b) = inr (record { keeps = λ c. refl; leaves = λ u. refl })
  touch k_port (password_auth_is b) = inr (record { keeps = λ c. refl; leaves = λ u. refl })
  touch k_port (pubkey_auth_is b) = inr (record { keeps = λ c. refl; leaves = λ u. refl })
  touch k_root_login (port_is p) = inr (record { keeps = λ c. refl; leaves = λ u. refl })
  touch k_root_login (password_auth_is b) = inr (record { keeps = λ c. refl; leaves = λ u. refl })
  touch k_root_login (pubkey_auth_is b) = inr (record { keeps = λ c. refl; leaves = λ u. refl })
  touch k_password_auth (port_is p) = inr (record { keeps = λ c. refl; leaves = λ u. refl })
  touch k_password_auth (root_login_is b) = inr (record { keeps = λ c. refl; leaves = λ u. refl })
  touch k_password_auth (pubkey_auth_is b) = inr (record { keeps = λ c. refl; leaves = λ u. refl })
  touch k_pubkey_auth (port_is p) = inr (record { keeps = λ c. refl; leaves = λ u. refl })
  touch k_pubkey_auth (root_login_is b) = inr (record { keeps = λ c. refl; leaves = λ u. refl })
  touch k_pubkey_auth (password_auth_is b) = inr (record { keeps = λ c. refl; leaves = λ u. refl })

  module _ (ch : Changes) where
    abbrev pub Agrees : Updated → SshdConfig → SshdConfig → Type 0
    Agrees u c c' =
        (k : Keyword) → SettingAgrees (wanted k ch) (was k u) (setting k c) (setting k c')

    -- A line of a setting that is asked for sets it before the update alone.
    pub Agrees-left :
        (u : Updated) (c c' : SshdConfig) (τ σ : Setting)
        → wanted (about τ) ch ≡ some σ
        → Agrees u c c'
        → Agrees u (set unicode_lower (some τ) c) c'
    Agrees-left u c c' τ σ h a k = elim (touch k τ) [
      | inl t ↦
          SettingAgrees-left (wanted k ch) (was k u) σ (setting k c)
            (setting k (set unicode_lower (some τ) c)) (setting k c')
            (ap (λ j. wanted j ch) t.same ∙ h) (a k)
      | inr t ↦
          subst (λ v. SettingAgrees (wanted k ch) (was k u) v (setting k c')) (sym (t.keeps c))
            (a k)
    ]

    -- A line of another setting sets it in both.
    pub Agrees-both :
        (u : Updated) (c c' : SshdConfig) (τ : Setting)
        → wanted (about τ) ch ≡ none
        → Agrees u c c'
        → Agrees u (set unicode_lower (some τ) c) (set unicode_lower (some τ) c')
    Agrees-both u c c' τ h a k = elim (touch k τ) [
      | inl t ↦
          rw (t.sets c, t.sets c')
            (SettingAgrees-both (wanted k ch) (was k u) τ (ap (λ j. wanted j ch) t.same ∙ h))
      | inr t ↦ rw (t.keeps c, t.keeps c') (a k)
    ]

    -- A written line sets what is asked for.
    pub Agrees-right :
        (u : Updated) (c c' : SshdConfig) (σ : Setting)
        → wanted (about σ) ch ≡ some σ
        → Agrees u c c'
        → Agrees (mark (about σ) u) c (set unicode_lower (some σ) c')
    Agrees-right u c c' σ h a k = elim (touch k σ) [
      | inl t ↦
          rw (t.sets c', t.marks u)
            (SettingAgrees-right (wanted k ch) (setting k c) σ (ap (λ j. wanted j ch) t.same ∙ h))
      | inr t ↦ rw (t.keeps c', t.leaves u) (a k)
    ]
