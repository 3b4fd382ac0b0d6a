-- ===== src/Ssh/Handler/Restored.antt =====
-- An update without a port whose configuration the daemon rejects leaves the configuration reading as
-- it did before, on a disk that keeps what is written.
use cloudnan_agent.Base.{
  ℕ, ℤ, Bool, true, false, [], ◌∷◌, Option, none, some, Bytes, codes, Outcome, ok, err, ◌≡◌, ◌≢◌,
  refl, sym, ap, ◌∙◌, subst, Bool-cases, inl, inr,
}
use cloudnan_agent.Ssh.Config.Includes.{
  write_update, with_backup, update_port_elsewhere, update_backed_up, update_config, restore_backup,
}
use cloudnan_agent.Ssh.Config.Update.{Changes, new_content}
use cloudnan_agent.Ssh.Daemon.{succeeded, validate_config, restart_sshd}
use cloudnan_agent.Ssh.Handler.{
  ConfigUpdateRequest, ConfigUpdateResponse, validation_failed, port_allowed, after_restart,
  restart_if, restored, after_validation, validate_if, after_update, update_ssh_config,
}
use cloudnan_agent.Ssh.Host.{Host, SshError, chain, lifted, backup_path, create_backup}
use cloudnan_agent.Ssh.Keys.{is_empty}

-- What the program relies on of the disk: a file that was written is read back, and directories, other
-- files and the check of the configuration leave it as it is.
pub record DiskLaws {State OsError : Type 0} (host : Host State OsError) : Type 0 where
  pub reads :
      (q content : Bytes) (mode : ℕ) (s : State)
      → (host.write_file q content mode s).1 ≡ ok tt
      → host.read_file q (host.write_file q content mode s).0 ≡ ok content
  pub others :
      (q r content : Bytes) (mode : ℕ) (s : State)
      → q ≢ r
      → host.read_file r (host.write_file q content mode s).0 ≡ host.read_file r s
  pub no_directory :
      (q r : Bytes) (mode : ℕ) (s : State)
      → host.read_file r (host.mkdir_all q mode s).0 ≡ host.read_file r s
  pub checked :
      (r : Bytes) (s : State)
      → host.read_file r (host.run (codes "sshd" ∷ codes "-t" ∷ []) s).0 ≡ host.read_file r s

chain-eq-ok :
    {State E A B : Type 0} (o : State × Outcome E A) (next : A → State → State × Outcome E B)
    {b : B}
    → (chain o next).1 ≡ ok b
    → (a : A) × (o.1 ≡ ok a) × (chain o next ≡ next a o.0)
chain-eq-ok (s, ok a) next h = (a, refl, refl)
chain-eq-ok (s, err e) next h = absurd (cc)

lifted-ok :
    {State E A : Type 0} (o : State × Outcome E A) {a : A}
    → (lifted o).1 ≡ ok a
    → (o.1 ≡ ok a) × ((lifted o).0 ≡ o.0)
lifted-ok (s, ok a) h = (cc, refl)
lifted-ok (s, err e) h = absurd (cc)

ok_inj : {E A : Type 0} (o : Outcome E A) (a b : A) → o ≡ ok a → o ≡ ok b → a ≡ b
ok_inj (ok x) a b h k = cc
ok_inj (err e) a b h k = absurd (cc)

module _ {State OsError : Type 0} (host : Host State OsError) (laws : DiskLaws host)
    (config_path backup_dir : Bytes)
    (named : (t : State)
      → (backup_path host backup_dir (codes "sshd_config") t ≢ config_path)
        × (is_empty (backup_path host backup_dir (codes "sshd_config") t) ≡ false)) where
  -- A backup with the content that the configuration had.
  record Backup (s t : State) (backup : Bytes) : Type 0 where
    content : Bytes
    before : host.read_file config_path s ≡ ok content
    saved : host.read_file backup t ≡ ok content
    apart : backup ≢ config_path
    has_name : is_empty backup ≡ false

  Backup-move :
      {s t u : State} {backup : Bytes}
      → Backup s t backup
      → host.read_file backup u ≡ host.read_file backup t
      → Backup s u backup
  Backup-move b e = record {
    content = b.content;
    before = b.before;
    saved = e ∙ b.saved;
    apart = b.apart;
    has_name = b.has_name;
  }

  create_backup-Backup :
      (s : State) (backup : Bytes)
      → (create_backup host backup_dir (codes "sshd_config") config_path s).1 ≡ ok backup
      → Backup s (create_backup host backup_dir (codes "sshd_config") config_path s).0 backup
  unfolding create_backup
  create_backup-Backup s backup h =
      let o₁ = host.mkdir_all backup_dir 0o700 s in
      let s₁ = o₁.0 in
      let path = backup_path host backup_dir (codes "sshd_config") s₁ in
      let (a, made, c₁) = chain-eq-ok o₁ _ h in
      let (input, read, c₂) =
        chain-eq-ok (s₁, host.read_file config_path s₁) _ (ap (λ o. o.1) (sym c₁) ∙ h) in
      let o₃ = host.write_file path input 0o600 s₁ in
      let (b, wrote, c₃) =
        chain-eq-ok o₃ (λ _ s₃. (s₃, ok path)) (ap (λ o. o.1) (sym (c₁ ∙ c₂)) ∙ h) in
      let same : path ≡ backup =
        ok_inj (create_backup host backup_dir (codes "sshd_config") config_path s).1 path backup
          (ap (λ o. o.1) (c₁ ∙ c₂ ∙ c₃)) h in
      subst (λ q. Backup s (create_backup host backup_dir (codes "sshd_config") config_path s).0 q)
        same
        (record {
          content = input;
          before = sym (laws.no_directory backup_dir config_path 0o700 s) ∙ read;
          saved =
              ap (λ o. host.read_file path o.0) (c₁ ∙ c₂ ∙ c₃)
              ∙ laws.reads path input 0o600 s₁ wrote;
          apart = (named s₁).0;
          has_name = (named s₁).1;
        })

  module _ (unicode_lower : Bytes → Bytes) where
    with_backup_lem :
        (backup : Bytes) (o : State × Outcome (SshError OsError) (Unit {0}))
        → with_backup host config_path backup_dir backup o ≡ (o.0, (backup, o.1))
    with_backup_lem backup (s, done) = refl

    update_port_elsewhere-none :
        (port : Option ℤ) (s : State)
        → port ≡ none
        → update_port_elsewhere host config_path backup_dir port s ≡ (s, ok tt)
    unfolding update_port_elsewhere
    update_port_elsewhere-none none s h = refl
    update_port_elsewhere-none (some p) s h = absurd (cc)

    -- Writing the configuration leaves the backup alone, if no port is set.
    write_update-saved :
        (ch : Changes) (t : State) (backup : Bytes)
        → ch.port ≡ none
        → backup ≢ config_path
        → (write_update host config_path backup_dir unicode_lower ch t).1 ≡ ok tt
        → host.read_file backup (write_update host config_path backup_dir unicode_lower ch t).0
          ≡ host.read_file backup t
    write_update-saved ch t backup n apart h =
        let (content, read, c₁) = chain-eq-ok (lifted (t, host.read_file config_path t)) _ h in
        let t₁ = (lifted (t, host.read_file config_path t)).0 in
        let o = host.write_file config_path (new_content unicode_lower ch content) 0o644 t₁ in
        let (b, wrote, c₂) =
          chain-eq-ok (lifted o)
            (λ _ s₂. update_port_elsewhere host config_path backup_dir ch.port s₂)
            (ap (λ x. x.1) (sym c₁) ∙ h) in
        ap (λ x. host.read_file backup x.0)
          (c₁ ∙ c₂ ∙ update_port_elsewhere-none ch.port (lifted o).0 n)
        ∙ ap (host.read_file backup) (lifted-ok o wrote).1
        ∙ laws.others config_path backup (new_content unicode_lower ch content) 0o644 t₁
            (λ e. apart (sym e))
        ∙ ap (host.read_file backup) (lifted-ok (t, host.read_file config_path t) read).1

    -- If the update succeeds without a port, the backup is there behind it.
    abbrev Updates : State → State × (Bytes × Outcome (SshError OsError) (Unit {0})) → Type 0
    Updates s o = o.1.1 ≡ ok tt → Backup s o.0 o.1.0

    update_backed_up-Updates :
        (ch : Changes) (s : State) (o : State × Outcome OsError Bytes)
        → ch.port ≡ none
        → ((backup : Bytes) → o.1 ≡ ok backup → Backup s o.0 backup)
        → Updates s (update_backed_up host config_path backup_dir unicode_lower ch o)
    update_backed_up-Updates ch s (t, err e) n b = λ h. absurd (cc h)
    update_backed_up-Updates ch s (t, ok backup) n b =
        subst (Updates s)
          (sym
            (with_backup_lem backup (write_update host config_path backup_dir unicode_lower ch t)))
          (λ h.
            Backup-move (b backup refl) (write_update-saved ch t backup n (b backup refl).apart h))

    update_config-Updates :
        (ch : Changes) (s : State)
        → ch.port ≡ none
        → Updates s (update_config host config_path backup_dir unicode_lower ch s)
    unfolding update_config
    update_config-Updates ch s n =
        update_backed_up-Updates ch s
          (create_backup host backup_dir (codes "sshd_config") config_path s) n
          (create_backup-Backup s)

    module _
        (writable : (content : Bytes) (mode : ℕ) (t : State)
          → (host.write_file config_path content mode t).1 ≡ ok tt)
        (s : State) where
      restore_backup-read :
          (t : State) (backup : Bytes)
          → Backup s t backup
          → host.read_file config_path (restore_backup host config_path backup_dir backup t).0
            ≡ host.read_file config_path s
      unfolding restore_backup
      restore_backup-read t backup b =
          rw b.saved
            (laws.reads config_path b.content 0o644 t (writable b.content 0o644 t) ∙ sym b.before)

      restored-read :
          (t : State) (backup : Bytes)
          → Backup s t backup
          → host.read_file config_path (restored host config_path backup_dir backup t)
            ≡ host.read_file config_path s
      restored-read t backup b = rw b.has_name (restore_backup-read t backup b)

      -- An answer that the validation failed comes with the configuration as it was.
      abbrev TakesBack : State × ConfigUpdateResponse OsError → Type 0
      TakesBack o =
          (e : SshError OsError)
          → o.1.reply ≡ validation_failed e
          → host.read_file config_path o.0 ≡ host.read_file config_path s

      after_restart-TakesBack :
          (backup : Bytes) (port : Option ℤ) (o : State × Outcome (SshError OsError) (Unit {0}))
          → port ≡ none
          → TakesBack (after_restart host config_path backup_dir backup port o)
      after_restart-TakesBack backup port (t, err x) n e h = absurd (cc)
      after_restart-TakesBack backup none (t, ok _) n e h = absurd (cc)
      after_restart-TakesBack backup (some p) (t, ok _) n e h = absurd (cc)

      restart_if-TakesBack :
          (backup : Bytes) (req : ConfigUpdateRequest) (t : State)
          → req.changes.port ≡ none
          → TakesBack (restart_if host config_path backup_dir backup req t)
      unfolding restart_if
      restart_if-TakesBack backup req t n = elim (Bool-cases req.restart_sshd) [
        | inl h ↦ rw h (after_restart-TakesBack backup req.changes.port (restart_sshd host t) n)
        | inr h ↦ rw h (λ e k. absurd (cc k))
      ]

      after_validation-TakesBack :
          (backup : Bytes) (req : ConfigUpdateRequest)
          (o : State × Outcome (SshError OsError) (Unit {0}))
          → req.changes.port ≡ none
          → Backup s o.0 backup
          → TakesBack (after_validation host config_path backup_dir backup req o)
      after_validation-TakesBack backup req (t, err x) n b e h = restored-read t backup b
      after_validation-TakesBack backup req (t, ok _) n b e h =
          restart_if-TakesBack backup req t n e h

      succeeded-state : (o : State × (Bytes × Bool)) → (succeeded host o).0 ≡ o.0
      succeeded-state (t, (output, true)) = refl
      succeeded-state (t, (output, false)) = refl

      validate_config-Backup :
          (t : State) (backup : Bytes)
          → Backup s t backup
          → Backup s (validate_config host t).0 backup
      unfolding validate_config
      validate_config-Backup t backup b = Backup-move b (
          ap (host.read_file backup) (succeeded-state (host.run (codes "sshd" ∷ codes "-t" ∷ []) t))
          ∙ laws.checked backup t)

      validate_if-TakesBack :
          (backup : Bytes) (req : ConfigUpdateRequest) (t : State)
          → req.changes.port ≡ none
          → Backup s t backup
          → TakesBack (validate_if host config_path backup_dir backup req t)
      unfolding validate_if
      validate_if-TakesBack backup req t n b = elim (Bool-cases req.validate_config) [
        | inl h ↦ rw h (
            after_validation-TakesBack backup req (validate_config host t) n
              (validate_config-Backup t backup b))
        | inr h ↦ rw h (restart_if-TakesBack backup req t n)
      ]

      after_update-TakesBack :
          (req : ConfigUpdateRequest) (o : State × (Bytes × Outcome (SshError OsError) (Unit {0})))
          → req.changes.port ≡ none
          → Updates s o
          → TakesBack (after_update host config_path backup_dir req o)
      after_update-TakesBack req (t, (backup, err x)) n u e h = absurd (cc)
      after_update-TakesBack req (t, (backup, ok _)) n u e h =
          validate_if-TakesBack backup req t n (u refl) e h

    -- If an update without a port is answered with a failed validation, the configuration reads as
    -- it did before the request, on a disk that keeps what is written, for a configuration that
    -- can be written and backups with other names.
    pub update_ssh_config-restored :
        (writable : (content : Bytes) (mode : ℕ) (t : State)
          → (host.write_file config_path content mode t).1 ≡ ok tt)
        (req : ConfigUpdateRequest) (s : State) (e : SshError OsError)
        → req.changes.port ≡ none
        → (update_ssh_config host config_path backup_dir unicode_lower req s).1.reply
          ≡ validation_failed e
        → host.read_file config_path
            (update_ssh_config host config_path backup_dir unicode_lower req s).0
          ≡ host.read_file config_path s
    unfolding update_ssh_config
    update_ssh_config-restored writable req s e n h =
        elim (Bool-cases (port_allowed req.changes.port)) [
          | inl b ↦ rw b (
              after_update-TakesBack writable s req
                (update_config host config_path backup_dir unicode_lower req.changes s) n
                (update_config-Updates req.changes s n) e (rw b at h))
          | inr b ↦ absurd (cc (rw b at h))
        ]
