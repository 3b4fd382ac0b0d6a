-- ===== src/Ssh/Config/RoundTrip.antt =====
-- Reading the configuration of internal/ssh/sshd_config.go behind an update, compared with before.
use cloudnan_agent.Base.{
  Every, Every-append, ℕ, false, ◌==◌, List, [], ◌∷◌, ◌++◌, Option, none, some, Bytes, codes, ok,
  ◌≡◌, refl, sym, ap, ◌∙◌, subst, Bool-cases, inl, inr,
}
use cloudnan_agent.Ssh.Config.{
  SshdConfig, default_config, Setting, Keyword, k_port, k_root_login, k_password_auth,
  k_pubkey_auth, line_setting, set, read_lines, get_current_config,
}
use cloudnan_agent.Ssh.Config.Additions.{changed, read_lines-updated_lines}
use cloudnan_agent.Ssh.Config.Agree.{wanted, PortIsInt, Written, requested-Written}
use cloudnan_agent.Ssh.Config.Update.{
  Changes, requested, Updated, was, none_updated, line_keyword, replace_by, update_at, update_lines,
  one_line, addition, additions, append_additions, updated_lines, new_content,
}
use cloudnan_agent.Ssh.Host.{Host, scan_end, scan_opened, scan_file}
use cloudnan_agent.Ssh.Keys.{map_ok}
use cloudnan_agent.Text.Lines.{first_part_with, join, split_byte}
use cloudnan_agent.Text.Lines.Laws.{split_byte-lacks}
use cloudnan_agent.Text.Scanner.{newline, drop_cr, scan_parts, scan_lines}
use cloudnan_agent.Text.Scanner.Laws.{FitsLine, split_byte-behind, scan_part-fits}

-- At least one line.
abbrev Some : List Bytes → Type 0
Some [] = ⊥
Some (line ∷ lines) = Unit {0}

first_part_with-Some : (c : ℕ) (parts : List Bytes) → Some (first_part_with c parts)
first_part_with-Some c [] = tt
first_part_with-Some c (part ∷ parts) = tt

split_byte-Some : (s : Bytes) → Some (split_byte s newline)
unfolding split_byte
split_byte-Some [] = tt
split_byte-Some (c ∷ s) = elim (Bool-cases (c == newline)) [
  | inl e ↦ rw e tt
  | inr e ↦ rw e (first_part_with-Some c (split_byte s newline))
]

split_byte-join :
    (line : Bytes) (lines : List Bytes)
    → Every FitsLine (line ∷ lines)
    → split_byte (join (line ∷ lines) (newline ∷ [])) newline ≡ line ∷ lines
unfolding join
split_byte-join line [] (f, h) = split_byte-lacks line newline f.one_line
split_byte-join line (next ∷ lines) (f, h) =
    split_byte-behind line (join (next ∷ lines) (newline ∷ [])) newline f.one_line
    ∙ ap (◌∷◌ line) (split_byte-join next lines h)

module _ (unicode_lower : Bytes → Bytes) where
  -- A scan gives all lines but an empty one at the end, which sets nothing.
  ReadsAll : List Bytes → Type 0
  ReadsAll lines =
      (scanned : List Bytes) × (scan_parts lines ≡ (scanned, false))
      × ((c : SshdConfig) → read_lines unicode_lower c scanned ≡ read_lines unicode_lower c lines)

  scan_parts-ReadsAll : (lines : List Bytes) → Every FitsLine lines → ReadsAll lines
  unfolding ReadsAll scan_parts read_lines line_setting
  scan_parts-ReadsAll [] h = ([], refl, λ c. refl)
  scan_parts-ReadsAll ([] ∷ []) h = ([], refl, λ c. refl)
  scan_parts-ReadsAll ((b ∷ s) ∷ []) (f, h) =
      ((b ∷ s) ∷ [], scan_part-fits (b ∷ s) f refl, λ c. refl)
  scan_parts-ReadsAll (line ∷ next ∷ lines) (f, h) =
      let (scanned, e, r) = scan_parts-ReadsAll (next ∷ lines) h in
      (
        line ∷ scanned,
        scan_part-fits line f e,
        λ c. r (set unicode_lower (line_setting unicode_lower line) c),
      )

  get_current_config_lem :
      {State OsError : Type 0} (host : Host State OsError) (path : Bytes) (s : State)
      → get_current_config unicode_lower host path s
        ≡ map_ok (read_lines unicode_lower default_config) (scan_opened (host.open_file path s))
  unfolding get_current_config scan_file
  get_current_config_lem host path s = refl

  -- What reading the settings gives for a content, by the lines that `Split` gives.
  get_current_config-lines :
      {State OsError : Type 0} (host : Host State OsError) (path : Bytes) (s : State)
      (content : Bytes)
      → host.open_file path s ≡ ok (content, none)
      → Every FitsLine (split_byte content newline)
      → get_current_config unicode_lower host path s
        ≡ ok (read_lines unicode_lower default_config (split_byte content newline))
  unfolding scan_lines ReadsAll
  get_current_config-lines host path s content h fits =
      let (scanned, e, r) = scan_parts-ReadsAll (split_byte content newline) fits in
      get_current_config_lem host path s
      ∙ ap (λ o. map_ok (read_lines unicode_lower default_config) (scan_opened o)) h
      ∙ ap (λ l. map_ok (read_lines unicode_lower default_config) (scan_end l none)) e
      ∙ ap ok (r default_config)

  module _ (ch : Changes) (p : PortIsInt ch.port) where
    one_line-FitsLine :
        (l : Option Bytes) (o : Option Setting)
        → Written unicode_lower l o
        → Every FitsLine (one_line unicode_lower ch l)
    one_line-FitsLine none o w = tt
    one_line-FitsLine (some line) none w = elim w [ ]
    one_line-FitsLine (some line) (some σ) (reads, fits) = (fits, tt)

    addition-FitsLine : (k : Keyword) (u : Updated) → Every FitsLine (addition unicode_lower ch k u)
    addition-FitsLine k u = elim (Bool-cases (was k u)) [
      | inl h ↦ rw h tt
      | inr h ↦ rw h (
          one_line-FitsLine (requested k ch) (wanted k ch) (requested-Written unicode_lower k ch p))
    ]

    additions-FitsLine : (u : Updated) → Every FitsLine (additions unicode_lower ch u)
    additions-FitsLine u =
        let add : Keyword → List Bytes = (λ k. addition unicode_lower ch k u) in
        let last =
          Every-append FitsLine (add k_password_auth) (add k_pubkey_auth)
            (addition-FitsLine k_password_auth u) (addition-FitsLine k_pubkey_auth u) in
        Every-append FitsLine (add k_port)
          (add k_root_login ++ (add k_password_auth ++ add k_pubkey_auth))
          (addition-FitsLine k_port u)
          (Every-append FitsLine (add k_root_login) (add k_password_auth ++ add k_pubkey_auth)
            (addition-FitsLine k_root_login u) last)

    replace_by-FitsLine :
        (k : Keyword) (u : Updated) (text : Bytes) (l : Option Bytes) (o : Option Setting)
        → Written unicode_lower l o
        → FitsLine text
        → FitsLine (replace_by unicode_lower ch k l u text).0
    replace_by-FitsLine k u text none o w f = f
    replace_by-FitsLine k u text (some line) none w f = elim w [ ]
    replace_by-FitsLine k u text (some line) (some σ) (reads, fits) f = fits

    update_at-FitsLine :
        (kw : Option Keyword) (u : Updated) (text : Bytes)
        → FitsLine text
        → FitsLine (update_at unicode_lower ch kw u text).0
    update_at-FitsLine none u text f = f
    update_at-FitsLine (some k) u text f =
        replace_by-FitsLine k u text (requested k ch) (wanted k ch)
          (requested-Written unicode_lower k ch p) f

    update_lines-FitsLine :
        (u : Updated) (texts : List Bytes)
        → Every FitsLine texts
        → Every FitsLine (update_lines unicode_lower ch u texts).0
    unfolding update_lines
    update_lines-FitsLine u [] h = tt
    update_lines-FitsLine u (text ∷ texts) (f, h) =
        let o = update_at unicode_lower ch (line_keyword unicode_lower text) u text in
        (
          update_at-FitsLine (line_keyword unicode_lower text) u text f,
          update_lines-FitsLine o.1 texts h,
        )

    heading_fits :
        (lines : List Bytes)
        → Every FitsLine lines
        → Every FitsLine ([] ∷ codes "# Added by Cloudnan" ∷ lines)
    unfolding drop_cr
    heading_fits lines h = (
      record { one_line = refl; short = refl; no_cr = refl },
      (record { one_line = refl; short = refl; no_cr = refl }, h),
    )

    append_additions-FitsLine :
        (lines more : List Bytes)
        → Every FitsLine lines
        → Every FitsLine more
        → Every FitsLine (append_additions unicode_lower ch lines more)
    append_additions-FitsLine lines [] h k = h
    append_additions-FitsLine lines (line ∷ more) h k =
        Every-append FitsLine lines ([] ∷ codes "# Added by Cloudnan" ∷ line ∷ more) h
          (heading_fits (line ∷ more) k)

    updated_lines-FitsLine :
        (texts : List Bytes)
        → Every FitsLine texts
        → Every FitsLine (updated_lines unicode_lower ch texts)
    unfolding updated_lines
    updated_lines-FitsLine texts h =
        let o = update_lines unicode_lower ch none_updated texts in
        append_additions-FitsLine o.0 (additions unicode_lower ch o.1)
          (update_lines-FitsLine none_updated texts h) (additions-FitsLine o.1)

    append_additions-Some :
        (line : Bytes) (lines more : List Bytes)
        → Some (append_additions unicode_lower ch (line ∷ lines) more)
    append_additions-Some line lines [] = tt
    append_additions-Some line lines (m ∷ more) = tt

    updated_lines-Some :
        (texts : List Bytes) → Some texts → Some (updated_lines unicode_lower ch texts)
    unfolding updated_lines update_lines
    updated_lines-Some [] h = elim h [ ]
    updated_lines-Some (text ∷ texts) h =
        let o = update_at unicode_lower ch (line_keyword unicode_lower text) none_updated text in
        let rest = update_lines unicode_lower ch o.1 texts in
        append_additions-Some o.0 rest.0 (additions unicode_lower ch rest.1)

    split_byte-join-Some :
        (lines : List Bytes)
        → Some lines
        → Every FitsLine lines
        → split_byte (join lines (newline ∷ [])) newline ≡ lines
    split_byte-join-Some [] s h = elim s [ ]
    split_byte-join-Some (line ∷ lines) s h = split_byte-join line lines h

    split_byte-new_content :
        (content : Bytes)
        → Every FitsLine (split_byte content newline)
        → Some (split_byte content newline)
        → split_byte (new_content unicode_lower ch content) newline
          ≡ updated_lines unicode_lower ch (split_byte content newline)
    unfolding new_content
    split_byte-new_content content h s =
        split_byte-join-Some (updated_lines unicode_lower ch (split_byte content newline))
          (updated_lines-Some (split_byte content newline) s)
          (updated_lines-FitsLine (split_byte content newline) h)

  -- If the file is the old content before and the updated content behind an update, its lines
  -- split at newlines each fit a scanner line and end in no carriage return, and a requested port
  -- is a 64-bit number, then reading the settings succeeds both times, and gives behind the update
  -- what it gave before with the requested changes made and all other settings the same.
  pub get_current_config-new_content :
      {State OsError : Type 0} (host : Host State OsError) (path content : Bytes) (ch : Changes)
      (s s' : State)
      → PortIsInt ch.port
      → Every FitsLine (split_byte content newline)
      → host.open_file path s ≡ ok (content, none)
      → host.open_file path s' ≡ ok (new_content unicode_lower ch content, none)
      → (c : SshdConfig) × (get_current_config unicode_lower host path s ≡ ok c)
        × (get_current_config unicode_lower host path s' ≡ ok (changed ch c))
  get_current_config-new_content host path content ch s s' p fits before after =
      let split = split_byte-new_content ch p content fits (split_byte-Some content) in
      (
        read_lines unicode_lower default_config (split_byte content newline),
        get_current_config-lines host path s content before fits,
        get_current_config-lines host path s' (new_content unicode_lower ch content) after (
              subst (Every FitsLine) (sym split)
                (updated_lines-FitsLine ch p (split_byte content newline) fits))
            ∙ ap (λ l. ok (read_lines unicode_lower default_config l)) split
            ∙ ap ok (
                read_lines-updated_lines unicode_lower ch default_config
                  (split_byte content newline) p),
      )
