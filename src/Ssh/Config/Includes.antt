-- ===== src/Ssh/Config/Includes.antt =====
-- The port in the files that the configuration includes, and `UpdateConfig` on the host.
use cloudnan_agent.Base.{
  ℤ, Bool, true, false, ◌||◌, List, [], ◌∷◌, ◌++◌, Option, none, some, if◌then◌else◌, Bytes, codes,
  Outcome, ok, err,
}
use cloudnan_agent.Ssh.Config.Update.{Changes, uncommented, new_content}
use cloudnan_agent.Ssh.Daemon.{update_systemd_socket_port}
use cloudnan_agent.Ssh.Host.{Host, SshError, os_error, create_backup, chain, lifted}
use cloudnan_agent.Ssh.Keys.{is_empty}
use cloudnan_agent.Text.Case.{equal_fold}
use cloudnan_agent.Text.Decimal.{format_int}
use cloudnan_agent.Text.FilePath.{base, dir, is_abs, join_paths}
use cloudnan_agent.Text.Lines.{join, split_byte}
use cloudnan_agent.Text.Scanner.{newline}
use cloudnan_agent.Text.Search.{has_prefix}
use cloudnan_agent.Text.Space.{fields, trim_space}

-- The lines with the port, and whether one was replaced.
abbrev pub is_port_line : List Bytes → Bool
is_port_line [] = false
is_port_line (key ∷ more) = equal_fold key (codes "Port")

unfoldable pub port_lines : ℤ → List Bytes → List Bytes × Bool
unfolding uncommented fields equal_fold format_int
port_lines port [] = ([], false)
port_lines port (text ∷ texts) =
    let (lines, updated) = port_lines port texts in
    if is_port_line (fields (uncommented text))
    then ((codes "Port " ++ format_int port) ∷ lines, true)
    else (text ∷ lines, updated)

-- The patterns of the Include directives; a relative one is below the directory of the configuration.
abbrev pub in_directory : Bytes → List Bytes → List Bytes
in_directory directory [] = []
in_directory directory (p ∷ patterns) =
    (if is_abs p then p else join_paths (directory ∷ p ∷ [])) ∷ in_directory directory patterns

abbrev pub patterns_of_fields : Bytes → List Bytes → List Bytes
patterns_of_fields directory [] = []
patterns_of_fields directory (key ∷ patterns) =
    if equal_fold key (codes "Include") then in_directory directory patterns else []

unfoldable pub include_patterns : Bytes → List Bytes → List Bytes
unfolding trim_space has_prefix fields equal_fold join_paths
include_patterns directory [] = []
include_patterns directory (text ∷ texts) =
    let line = trim_space text in
    let rest = include_patterns directory texts in
    if is_empty line || has_prefix line (codes "#")
    then rest
    else patterns_of_fields directory (fields line) ++ rest

abbrev pub default_pattern : Bytes
default_pattern = codes "/etc/ssh/sshd_config.d/*.conf"

module _ {State OsError : Type 0} (host : Host State OsError) (config_path backup_dir : Bytes) where
  abbrev pub write_if : Bytes → List Bytes × Bool → State → State × Outcome OsError (Unit {0})
  write_if path (lines, true) s = host.write_file path (join lines (newline ∷ [])) 0o644 s
  write_if path (lines, false) s = (s, ok tt)

  -- `createBackup` and `createBackupForPath`.
  abbrev pub create_config_backup : State → State × Outcome OsError Bytes
  create_config_backup s = create_backup host backup_dir (codes "sshd_config") config_path s

  abbrev pub create_backup_for_path : Bytes → State → State × Outcome OsError Bytes
  create_backup_for_path path s = create_backup host backup_dir (base path) path s

  unfoldable pub update_port_in_file : ℤ → Bytes → State → State × Outcome OsError (Unit {0})
  unfolding create_backup base split_byte join port_lines
  update_port_in_file port path s = chain (create_backup_for_path path s) λ _ s₁.
      chain (s₁, host.read_file path s₁)
        λ content s₂. write_if path (port_lines port (split_byte content newline)) s₂

  abbrev pub if_a_file :
      Option Bool → State × Outcome OsError (Unit {0}) → State → State × Outcome OsError (Unit {0})
  if_a_file none done s = (s, ok tt)
  if_a_file (some true) done s = (s, ok tt)
  if_a_file (some false) done s = done

  unfoldable pub update_port_in_files : ℤ → List Bytes → State → State × Outcome OsError (Unit {0})
  unfolding update_port_in_file
  update_port_in_files port [] s = (s, ok tt)
  update_port_in_files port (path ∷ paths) s =
      chain (if_a_file (host.stat path s) (update_port_in_file port path s) s)
        λ _ s₁. update_port_in_files port paths s₁

  unfoldable pub update_port_in_patterns :
      ℤ → List Bytes → State → State × Outcome OsError (Unit {0})
  unfolding update_port_in_files
  update_port_in_patterns port [] s = (s, ok tt)
  update_port_in_patterns port (pattern ∷ patterns) s =
      chain (s, host.glob pattern s)
        λ matches s₁.
          chain (update_port_in_files port matches s₁)
            λ _ s₂. update_port_in_patterns port patterns s₂

  unfoldable pub update_port_in_included_files : ℤ → State → State × Outcome OsError (Unit {0})
  unfolding include_patterns dir split_byte update_port_in_patterns
  update_port_in_included_files port s =
      chain (s, host.read_file config_path s)
        λ content s₁.
          update_port_in_patterns port
            (include_patterns (dir config_path) (split_byte content newline)) s₁

  -- The path of the backup, with the error, if any.
  abbrev pub with_backup :
      Bytes
      → State × Outcome (SshError OsError) (Unit {0})
      → State × (Bytes × Outcome (SshError OsError) (Unit {0}))
  with_backup backup (s, done) = (s, (backup, done))

  unfoldable pub update_port_elsewhere :
      Option ℤ → State → State × Outcome (SshError OsError) (Unit {0})
  unfolding update_port_in_included_files update_port_in_patterns update_systemd_socket_port
  update_port_elsewhere none s = (s, ok tt)
  update_port_elsewhere (some port) s =
      chain (lifted (update_port_in_included_files port s)) λ _ s₁.
        chain (lifted (update_port_in_patterns port (default_pattern ∷ []) s₁))
          λ _ s₂. update_systemd_socket_port host port s₂

  module _ (unicode_lower : Bytes → Bytes) (ch : Changes) where
    abbrev pub write_update : State → State × Outcome (SshError OsError) (Unit {0})
    write_update s = chain (lifted (s, host.read_file config_path s)) λ content s₁.
        chain (lifted (host.write_file config_path (new_content unicode_lower ch content) 0o644 s₁))
          λ _ s₂. update_port_elsewhere ch.port s₂

    abbrev pub update_backed_up :
        State × Outcome OsError Bytes → State × (Bytes × Outcome (SshError OsError) (Unit {0}))
    update_backed_up (s, err e) = (s, ([], err (os_error e)))
    update_backed_up (s, ok backup) = with_backup backup (write_update s)

    unfoldable pub update_config : State → State × (Bytes × Outcome (SshError OsError) (Unit {0}))
    unfolding create_backup new_content update_port_elsewhere
    update_config s = update_backed_up (create_config_backup s)

  unfoldable pub restore_backup : Bytes → State → State × Outcome OsError (Unit {0})
  restore_backup backup s =
      chain (s, host.read_file backup s) λ content s₁. host.write_file config_path content 0o644 s₁
