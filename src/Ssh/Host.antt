-- ===== src/Ssh/Host.antt =====
-- What the package internal/ssh calls of the operating system, as a parameter over its own state, and
-- the two ways in which it reads and backs up files.
use cloudnan_agent.Base.{
  ℕ, Bool, true, false, List, [], ◌∷◌, ◌++◌, Option, none, some, Bytes, codes, Outcome, ok, err,
  ◌≡◌, ◌≢◌, ◌∙◌,
}
use cloudnan_agent.Text.FilePath.{join_paths}
use cloudnan_agent.Text.Scanner.{scan_lines}

pub record Host (State OsError : Type 0) : Type 0 where
  -- The home directory of a user.
  pub lookup_user : Bytes → Option Bytes
  pub mkdir_all : Bytes → ℕ → State → State × Outcome OsError (Unit {0})
  -- Whether `Stat` finds a file and whether that is a directory.
  pub stat : Bytes → State → Option Bool
  pub read_file : Bytes → State → Outcome OsError Bytes
  pub write_file : Bytes → Bytes → ℕ → State → State × Outcome OsError (Unit {0})
  -- What reading an opened file gives, up to its end or an error.
  pub open_file : Bytes → State → Outcome OsError (Bytes × Option OsError)
  pub is_not_exist : OsError → Bool
  -- The files that a pattern matches.
  pub glob : Bytes → State → Outcome OsError (List Bytes)
  -- Whether there is such a command; running a command line gives its output and whether it succeeded.
  pub look_path : Bytes → State → Bool
  pub run : List Bytes → State → State × (Bytes × Bool)
  -- The time of day, as `20060102-150405`.
  pub timestamp : State → Bytes

pub data SshError (OsError : Type 0) : Type 0 where
  user_not_found : SshError OsError
  line_too_long : SshError OsError
  command_failed : SshError OsError
  os_error : OsError → SshError OsError

-- A step behind a call that may fail.
abbrev pub chain :
    {State E A B : Type 0}
    → State × Outcome E A
    → (A → State → State × Outcome E B)
    → State × Outcome E B
chain (s, ok a) next = next a s
chain (s, err e) next = (s, err e)

-- The call's error as one of the package.
abbrev pub lifted :
    {State OsError A : Type 0} → State × Outcome OsError A → State × Outcome (SshError OsError) A
lifted (s, ok a) = (s, ok a)
lifted (s, err e) = (s, err (os_error e))

-- The lines, if the scan and the reading came to the end.
abbrev pub scan_end :
    {OsError : Type 0}
    → List Bytes × Bool
    → Option OsError
    → Outcome (SshError OsError) (List Bytes)
scan_end (lines, true) broke = err line_too_long
scan_end (lines, false) (some e) = err (os_error e)
scan_end (lines, false) none = ok lines

abbrev pub scan_opened :
    {OsError : Type 0}
    → Outcome OsError (Bytes × Option OsError)
    → Outcome (SshError OsError) (List Bytes)
scan_opened (err e) = err (os_error e)
scan_opened (ok (content, broke)) = scan_end (scan_lines content) broke

module _ {State OsError : Type 0} (host : Host State OsError) where
  -- A scan of a file from its start to its end.
  unfoldable pub scan_file : Bytes → State → Outcome (SshError OsError) (List Bytes)
  unfolding scan_lines
  scan_file path s = scan_opened (host.open_file path s)

  abbrev pub backup_path : Bytes → Bytes → State → Bytes
  backup_path backup_dir name s =
      join_paths (backup_dir ∷ (name ++ (b'.' ∷ (host.timestamp s ++ codes ".bak"))) ∷ [])

  -- A copy of the file, under a name and the time, in the directory of backups.
  unfoldable pub create_backup : Bytes → Bytes → Bytes → State → State × Outcome OsError Bytes
  unfolding join_paths
  create_backup backup_dir name path s = chain (host.mkdir_all backup_dir 0o700 s) λ _ s₁.
      let backup = backup_path backup_dir name s₁ in
      chain (s₁, host.read_file path s₁)
        λ input s₂. chain (host.write_file backup input 0o600 s₂) λ _ s₃. (s₃, ok backup)

-- What the program relies on of the files: an opened file gives what was written to it last, and
-- directories and other files play no part.
pub record FileLaws {State OsError : Type 0} (host : Host State OsError) (path : Bytes)
    : Type 0 where
  pub written :
      (content : Bytes) (mode : ℕ) (s : State)
      → (host.write_file path content mode s).1 ≡ ok tt
      → host.open_file path (host.write_file path content mode s).0 ≡ ok (content, none)
  pub apart :
      (q content : Bytes) (mode : ℕ) (s : State)
      → q ≢ path
      → host.open_file path (host.write_file q content mode s).0 ≡ host.open_file path s
  pub no_directory :
      (q : Bytes) (mode : ℕ) (s : State)
      → host.open_file path (host.mkdir_all q mode s).0 ≡ host.open_file path s

module _ {State OsError : Type 0} (host : Host State OsError) {path : Bytes}
    (laws : FileLaws host path) where
  chain-open :
      {A B : Type 0} (o : State × Outcome OsError A) (s : State)
      (next : A → State → State × Outcome OsError B)
      → host.open_file path o.0 ≡ host.open_file path s
      → ((a : A) (t : State)
          → host.open_file path t ≡ host.open_file path s
          → host.open_file path (next a t).0 ≡ host.open_file path s)
      → host.open_file path (chain o next).0 ≡ host.open_file path s
  chain-open (t, ok a) s next h k = k a t h
  chain-open (t, err e) s next h k = h

  -- A backup leaves the file as it is.
  pub create_backup-open :
      (backup_dir name q : Bytes) (s : State)
      → ((t : State) → backup_path host backup_dir name t ≢ path)
      → host.open_file path (create_backup host backup_dir name q s).0 ≡ host.open_file path s
  unfolding create_backup
  create_backup-open backup_dir name q s other =
      chain-open (host.mkdir_all backup_dir 0o700 s) s _ (laws.no_directory backup_dir 0o700 s)
        λ _ s₁ h₁.
          let backup = backup_path host backup_dir name s₁ in
          chain-open (s₁, host.read_file q s₁) s _ h₁
            λ input s₂ h₂.
              chain-open (host.write_file backup input 0o600 s₂) s _
                (laws.apart backup input 0o600 s₂ (other s₁) ∙ h₂) λ _ s₃ h₃. h₃
