-- ===== src/Ssh/Keys/Kept.antt =====
-- The files of keys that internal/ssh/authorized_keys.go writes, against the lists of lines that it puts
-- together.
use cloudnan_agent.Base.{
  Every, Every-append, ℕ, suc, ltb, Bool, true, false, ◌||◌, List, [], ◌∷◌, ◌++◌, Option, none,
  some, if◌then◌else◌, length, Bytes, codes, Outcome, ok, err, ◌≡◌, ◌≢◌, inl, inr, refl, sym, ap,
  ◌∙◌, subst, arith, Bool-cases,
}
use cloudnan_agent.Ssh.Host.{
  Host, SshError, scan_end, scan_opened, scan_file, backup_path, FileLaws, create_backup-open,
}
use cloudnan_agent.Ssh.Keys.{
  AuthorizedKeysManager, KeyEntry, is_empty, managed_mark, active_lines, existing_lines,
  unique_from, file_content, lines_or_none, map_ok, get_authorized_keys_path, read_existing_keys,
  write_keys_file, Synced, lines_to_write, sync_end, sync_write, backup_if_there, sync_backup,
  sync_at, sync_keys,
}
use cloudnan_agent.Ssh.Keys.Unique.{Represents, unique_from-Represents}
use cloudnan_agent.Text.FilePath.{dir}
use cloudnan_agent.Text.Scanner.{scan_lines}
use cloudnan_agent.Text.Scanner.Laws.{
  FitsLine, Scanned, lines_text, join-lines_text, scan_lines-lines_text, scan_lines-Every,
  trim_space-FitsLine,
}
use cloudnan_agent.Text.Search.{contains}
use cloudnan_agent.Text.Space.{trim_space}

some_line : (lines : List Bytes) → ltb 0 (suc (length lines)) ≡ true
some_line lines = ground arith

pub file_content_lem : (lines : List Bytes) → file_content lines ≡ lines_text lines
unfolding file_content
file_content_lem [] = unfold cloudnan_agent.Text.Lines.join in refl
file_content_lem (line ∷ lines) = rw (some_line lines) (join-lines_text line lines)

existing_lines-FitsLine :
    (texts : List Bytes) → Every Scanned texts → Every FitsLine (existing_lines texts)
unfolding existing_lines
existing_lines-FitsLine [] h = tt
existing_lines-FitsLine (text ∷ texts) (f, h) =
    elim (Bool-cases (is_empty (trim_space text) || contains (trim_space text) managed_mark)) [
      | inl e ↦ rw e (existing_lines-FitsLine texts h)
      | inr e ↦ rw e (trim_space-FitsLine text f, existing_lines-FitsLine texts h)
    ]

module _ {State OsError : Type 0} (host : Host State OsError) (m : AuthorizedKeysManager) where
  existing-FitsLine :
      (o : Outcome OsError (Bytes × Option OsError))
      → Every FitsLine (lines_or_none (map_ok existing_lines (scan_opened o)))
  existing-FitsLine (err e) = tt
  existing-FitsLine (ok (content, broke)) =
      by_end (scan_lines content) broke (scan_lines-Every content)
    where
      by_end :
          (lines : List Bytes × Bool) (broke : Option OsError)
          → Every Scanned lines.0
          → Every FitsLine (lines_or_none (map_ok existing_lines (scan_end lines broke)))
      by_end (lines, true) broke h = tt
      by_end (lines, false) (some e) h = tt
      by_end (lines, false) none h = existing_lines-FitsLine lines h

  pub read_existing_keys_lem :
      (path : Bytes) (s : State)
      → read_existing_keys host m path s ≡ map_ok existing_lines (scan_file host path s)
  unfolding read_existing_keys
  read_existing_keys_lem path s = refl

  read_existing_keys-FitsLine :
      (path : Bytes) (s : State) → Every FitsLine (lines_or_none (read_existing_keys host m path s))
  unfolding read_existing_keys scan_file
  read_existing_keys-FitsLine path s = existing-FitsLine (host.open_file path s)

  lines_to_write-FitsLine :
      (keys : List KeyEntry) (replace_all : Bool) (path : Bytes) (s : State)
      → Every FitsLine (active_lines keys)
      → Every FitsLine (lines_to_write host m keys replace_all path s)
  lines_to_write-FitsLine keys true path s h = h
  lines_to_write-FitsLine keys false path s h =
      Every-append FitsLine (lines_or_none (read_existing_keys host m path s)) (active_lines keys)
        (read_existing_keys-FitsLine path s) h

  read_existing_keys-open :
      (path : Bytes) (s t : State)
      → host.open_file path s ≡ host.open_file path t
      → read_existing_keys host m path s ≡ read_existing_keys host m path t
  unfolding read_existing_keys scan_file
  read_existing_keys-open path s t h = ap (λ o. map_ok existing_lines (scan_opened o)) h

  lines_to_write-open :
      (keys : List KeyEntry) (replace_all : Bool) (path : Bytes) (s t : State)
      → host.open_file path s ≡ host.open_file path t
      → lines_to_write host m keys replace_all path s
        ≡ lines_to_write host m keys replace_all path t
  lines_to_write-open keys replace_all path s t h =
      ap (λ o. if replace_all then active_lines keys else lines_or_none o ++ active_lines keys)
        (read_existing_keys-open path s t h)

  module _ {path : Bytes} (laws : FileLaws host path) where
    write_keys_file-open :
        (lines : List Bytes) (s : State)
        → (write_keys_file host m path lines s).1 ≡ ok tt
        → host.open_file path (write_keys_file host m path lines s).0
          ≡ ok (file_content (unique_from [] lines), none)
    unfolding write_keys_file
    write_keys_file-open lines s h = laws.written (file_content (unique_from [] lines)) 0o600 s h

    scan_file-lines :
        (s : State) (kept : List Bytes)
        → Every FitsLine kept
        → host.open_file path s ≡ ok (file_content kept, none)
        → scan_file host path s ≡ ok kept
    unfolding scan_file
    scan_file-lines s kept f h =
        ap scan_opened h
        ∙ ap (λ l. scan_end l none)
            (ap scan_lines (file_content_lem kept) ∙ scan_lines-lines_text kept f)

    -- A list of lines, written, with what was kept of it.
    abbrev pub Kept : State → List Bytes → Type 1
    Kept s lines =
        (kept : List Bytes) × (host.open_file path s ≡ ok (file_content kept, none))
        × Represents kept lines

    pub write_keys_file-Kept :
        (lines : List Bytes) (s : State)
        → (write_keys_file host m path lines s).1 ≡ ok tt
        → Kept (write_keys_file host m path lines s).0 lines
    write_keys_file-Kept lines s h =
        (unique_from [] lines, write_keys_file-open lines s h, unique_from-Represents lines)

    sync_end-Kept :
        (count : ℕ) (backup : Bytes) (o : State × Outcome OsError (Unit {0})) (lines : List Bytes)
        {b : Bytes} {n : ℕ}
        → (o.1 ≡ ok tt → Kept o.0 lines)
        → (sync_end host m count backup o).1 ≡ (b, ok n)
        → (n ≡ count) × Kept (sync_end host m count backup o).0 lines
    sync_end-Kept count backup (s, ok _) lines k h = (cc, k refl)
    sync_end-Kept count backup (s, err e) lines k h = absurd (cc)

    module _ (keys : List KeyEntry) (replace_all : Bool) (s : State) where
      -- A state in front of which the file was not touched.
      abbrev Untouched : State → Type 0
      Untouched t = host.open_file path t ≡ host.open_file path s

      abbrev Right : Synced host m → Type 1
      Right o =
          (b : Bytes) (n : ℕ)
          → o.1 ≡ (b, ok n)
          → (n ≡ length (active_lines keys))
            × Kept o.0 (lines_to_write host m keys replace_all path s)

      sync_write-Right :
          (o : State × Outcome OsError Bytes)
          → Untouched o.0
          → Right (sync_write host m keys replace_all path o)
      sync_write-Right (t, err e) u b n h = absurd (cc)
      sync_write-Right (t, ok backup) u b n h =
          sync_end-Kept (length (active_lines keys)) backup
            (write_keys_file host m path (lines_to_write host m keys replace_all path t) t)
            (lines_to_write host m keys replace_all path s)
            (λ k.
              subst
                (Kept
                  (write_keys_file host m path (lines_to_write host m keys replace_all path t) t).0)
                (lines_to_write-open keys replace_all path t s u)
                (write_keys_file-Kept (lines_to_write host m keys replace_all path t) t k))
            h

      module _
          (apart : (t : State)
            → backup_path host m.backup_dir (codes "authorized_keys") t ≢ path) where
        backup_if_there-Untouched :
            (there : Option Bool) (t : State)
            → Untouched t
            → Untouched (backup_if_there host m there path t).0
        backup_if_there-Untouched none t u = u
        backup_if_there-Untouched (some is_dir) t u =
            create_backup-open host laws m.backup_dir (codes "authorized_keys") path t apart ∙ u

        sync_backup-Right :
            (o : State × Outcome OsError (Unit {0}))
            → Untouched o.0
            → Right (sync_backup host m keys replace_all path o)
        sync_backup-Right (t, err e) u b n h = absurd (cc)
        sync_backup-Right (t, ok _) u b n h =
            sync_write-Right (backup_if_there host m (host.stat path t) path t)
              (backup_if_there-Untouched (host.stat path t) t u) b n h

        sync_at-Right : Right (sync_at host m keys replace_all (ok path) s)
        sync_at-Right =
            sync_backup-Right (host.mkdir_all (dir path) 0o700 s)
              (laws.no_directory (dir path) 0o700 s)

  -- What is written stands for the lines that the code puts together.
  pub sync_keys-Represents :
      {path : Bytes} (laws : FileLaws host path) (keys : List KeyEntry) (target_user : Bytes)
      (replace_all : Bool) (s : State) (backup : Bytes) (n : ℕ)
      → get_authorized_keys_path host m target_user ≡ ok path
      → ((t : State) → backup_path host m.backup_dir (codes "authorized_keys") t ≢ path)
      → Every FitsLine (active_lines keys)
      → (sync_keys host m keys target_user replace_all s).1 ≡ (backup, ok n)
      → (n ≡ length (active_lines keys))
        × (kept : List Bytes) × (scan_file host path
              (sync_keys host m keys target_user replace_all s).0
            ≡ ok kept)
        × Represents kept (lines_to_write host m keys replace_all path s)
  unfolding sync_keys
  sync_keys-Represents {path = path} laws keys target_user replace_all s backup n at apart fits h =
      let step : sync_keys host m keys target_user replace_all s
          ≡ sync_at host m keys replace_all (ok path) s =
        ap (λ o. sync_at host m keys replace_all o s) at in
      let (count, (kept, opened, rep)) =
        sync_at-Right laws keys replace_all s apart backup n (ap (λ o. o.1) (sym step) ∙ h) in
      (
        count,
        kept,
        ap (λ o. scan_file host path o.0) step
            ∙ scan_file-lines laws (sync_at host m keys replace_all (ok path) s).0 kept
                (rep.among FitsLine (lines_to_write-FitsLine keys replace_all path s fits)) opened,
        rep,
      )

-- If the file cannot be read to its end, syncing is replacing.
module _ {State OsError : Type 0} (host : Host State OsError) (m : AuthorizedKeysManager)
    {path : Bytes} (laws : FileLaws host path) where
  unread_lines :
      (keys : List KeyEntry) (s t : State) (e : SshError OsError)
      → scan_file host path s ≡ err e
      → host.open_file path t ≡ host.open_file path s
      → lines_to_write host m keys false path t ≡ active_lines keys
  unread_lines keys s t e h u =
      lines_to_write-open host m keys false path t s u
      ∙ ap (λ o. lines_or_none o ++ active_lines keys) (read_existing_keys_lem host m path s)
      ∙ ap (λ o. lines_or_none (map_ok existing_lines o) ++ active_lines keys) h

  module _ (keys : List KeyEntry) (s : State) (e : SshError OsError)
      (unread : scan_file host path s ≡ err e)
      (apart : (t : State) → backup_path host m.backup_dir (codes "authorized_keys") t ≢ path) where
    sync_write-unread :
        (o : State × Outcome OsError Bytes)
        → host.open_file path o.0 ≡ host.open_file path s
        → sync_write host m keys false path o ≡ sync_write host m keys true path o
    sync_write-unread (t, err x) u = refl
    sync_write-unread (t, ok backup) u =
        ap
          (λ l.
            sync_end host m (length (active_lines keys)) backup (write_keys_file host m path l t))
          (unread_lines keys s t e unread u)

    sync_backup-unread :
        (o : State × Outcome OsError (Unit {0}))
        → host.open_file path o.0 ≡ host.open_file path s
        → sync_backup host m keys false path o ≡ sync_backup host m keys true path o
    sync_backup-unread (t, err x) u = refl
    sync_backup-unread (t, ok _) u =
        sync_write-unread (backup_if_there host m (host.stat path t) path t)
          (backup_if_there-Untouched host m laws keys false s apart (host.stat path t) t u)

  -- If the file cannot be scanned to its end, syncing keys without replacing does the same as
  -- replacing all of them, for a backup with another path on a disk that keeps what is written.
  pub sync_keys-unread :
      (keys : List KeyEntry) (target_user : Bytes) (s : State) (e : SshError OsError)
      → get_authorized_keys_path host m target_user ≡ ok path
      → ((t : State) → backup_path host m.backup_dir (codes "authorized_keys") t ≢ path)
      → scan_file host path s ≡ err e
      → sync_keys host m keys target_user false s ≡ sync_keys host m keys target_user true s
  unfolding sync_keys
  sync_keys-unread keys target_user s e at apart h =
      ap (λ o. sync_at host m keys false o s) at
      ∙ sync_backup-unread keys s e h apart (host.mkdir_all (dir path) 0o700 s)
          (laws.no_directory (dir path) 0o700 s)
      ∙ ap (λ o. sync_at host m keys true o s) (sym at)
