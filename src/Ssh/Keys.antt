-- ===== src/Ssh/Keys.antt =====
-- internal/ssh/authorized_keys.go: the keys that a user may log in with.
pub mod Unique
pub mod Wanted
pub mod Listed
pub mod Kept
pub mod Removed
pub mod Stored
mod Examples
use cloudnan_agent.Base.{
  ℕ, ◌+◌, Bool, true, false, not, ◌&&◌, ◌||◌, List, [], ◌∷◌, ◌++◌, Option, none, some,
  if◌then◌else◌, ltb, length, map, Bytes, codes, Outcome, ok, err,
}
use cloudnan_agent.Ssh.Host.{Host, SshError, user_not_found, os_error, scan_file, create_backup}
use cloudnan_agent.Text.Case.{bytes_equal}
use cloudnan_agent.Text.FilePath.{dir, join_paths}
use cloudnan_agent.Text.Lines.{join}
use cloudnan_agent.Text.Scanner.{newline}
use cloudnan_agent.Text.Search.{contains, has_prefix}
use cloudnan_agent.Text.Space.{fields, trim_space}

pub record AuthorizedKeysManager : Type 0 where
  pub backup_dir : Bytes
  pub custom_path : Bytes

pub record KeyEntry : Type 0 where
  pub id : Bytes
  pub public_key : Bytes
  pub name : Bytes
  pub is_active : Bool

abbrev pub is_empty : Bytes → Bool
is_empty [] = true
is_empty (c ∷ s) = false

unfoldable pub new_manager : Bytes → AuthorizedKeysManager
new_manager backup_dir = record {
  backup_dir = if is_empty backup_dir then codes "/var/backups/cloudnan/ssh" else backup_dir;
  custom_path = [];
}

abbrev pub managed_mark : Bytes
managed_mark = codes "managed-by-cloudnan"

-- The line of a key, with its name as a comment if the key does not hold it.
unfoldable pub key_line : KeyEntry → Bytes
unfolding trim_space contains fields
key_line key =
    let line = trim_space key.public_key in
    if not (is_empty key.name) && not (contains line key.name) && ltb 1 (length (fields line))
    then line ++ (codes " # managed-by-cloudnan id=" ++ (key.id ++ (codes " name=" ++ key.name)))
    else line

unfoldable pub active_lines : List KeyEntry → List Bytes
unfolding key_line
active_lines [] = []
active_lines (key ∷ keys) =
    if key.is_active then key_line key ∷ active_lines keys else active_lines keys

-- The lines of a file that are neither empty nor written here before.
unfoldable pub existing_lines : List Bytes → List Bytes
unfolding trim_space contains
existing_lines [] = []
existing_lines (text ∷ texts) =
    let line = trim_space text in
    let rest = existing_lines texts in
    if is_empty line || contains line managed_mark then rest else line ∷ rest

-- What tells two lines apart: the first two words, or the line.
abbrev pub id_of_fields : Bytes → List Bytes → Bytes
id_of_fields line (a ∷ b ∷ more) = a ++ (b' ' ∷ b)
id_of_fields line (a ∷ []) = line
id_of_fields line [] = line

unfoldable pub key_id : Bytes → Bytes
unfolding fields
key_id line = id_of_fields line (fields line)

unfoldable pub seen_before : Bytes → List Bytes → Bool
unfolding bytes_equal
seen_before id [] = false
seen_before id (x ∷ seen) = bytes_equal id x || seen_before id seen

unfoldable pub unique_from : List Bytes → List Bytes → List Bytes
unfolding key_id seen_before
unique_from seen [] = []
unique_from seen (line ∷ lines) =
    let rest = unique_from seen lines in
    let rest_after = unique_from (key_id line ∷ seen) lines in
    if seen_before (key_id line) seen then rest else line ∷ rest_after

unfoldable pub file_content : List Bytes → Bytes
unfolding join
file_content lines =
    let text = join lines (newline ∷ []) in
    if ltb 0 (length lines) then text ++ newline ∷ [] else text

unfoldable pub count_lines : List Bytes → ℕ
unfolding trim_space has_prefix
count_lines [] = 0
count_lines (text ∷ texts) =
    let line = trim_space text in
    let rest = count_lines texts in
    if not (is_empty line) && not (has_prefix line (codes "#")) then rest + 1 else rest

-- The mark of a key in its comment.
abbrev pub id_mark : Bytes → Bytes
id_mark id = codes "id=" ++ id

unfoldable pub lines_without : Bytes → List Bytes → List Bytes
unfolding contains
lines_without mark [] = []
lines_without mark (line ∷ lines) =
    let rest = lines_without mark lines in if contains line mark then rest else line ∷ rest

abbrev pub lines_or_none : {E : Type 0} → Outcome E (List Bytes) → List Bytes
lines_or_none (ok lines) = lines
lines_or_none (err e) = []

abbrev pub map_ok : {E A B : Type 0} → (A → B) → Outcome E A → Outcome E B
map_ok f (ok a) = ok (f a)
map_ok f (err e) = err e

module _ {State OsError : Type 0} (host : Host State OsError) (m : AuthorizedKeysManager) where
  abbrev pub in_home : Option Bytes → Outcome (SshError OsError) Bytes
  in_home none = err user_not_found
  in_home (some home) = ok (join_paths (home ∷ codes ".ssh" ∷ codes "authorized_keys" ∷ []))

  unfoldable pub get_authorized_keys_path : Bytes → Outcome (SshError OsError) Bytes
  unfolding join_paths bytes_equal
  get_authorized_keys_path target_user =
      if not (is_empty m.custom_path)
      then ok m.custom_path
      else if is_empty target_user || bytes_equal target_user (codes "root")
      then in_home (some (codes "/root"))
      else in_home (host.lookup_user target_user)

  unfoldable pub read_existing_keys : Bytes → State → Outcome (SshError OsError) (List Bytes)
  unfolding scan_file existing_lines
  read_existing_keys path s = map_ok existing_lines (scan_file host path s)

  unfoldable pub write_keys_file : Bytes → List Bytes → State → State × Outcome OsError (Unit {0})
  unfolding unique_from file_content
  write_keys_file path lines s = host.write_file path (file_content (unique_from [] lines)) 0o600 s

  -- The path of the backup and the number of keys, or an error.
  abbrev pub Synced : Type 0
  Synced = State × (Bytes × Outcome (SshError OsError) ℕ)

  abbrev pub lines_to_write : List KeyEntry → Bool → Bytes → State → List Bytes
  lines_to_write keys replace_all path s =
      if replace_all
      then active_lines keys
      else lines_or_none (read_existing_keys path s) ++ active_lines keys

  abbrev pub sync_end : ℕ → Bytes → State × Outcome OsError (Unit {0}) → Synced
  sync_end count backup (s, err e) = (s, (backup, err (os_error e)))
  sync_end count backup (s, ok _) = (s, (backup, ok count))

  abbrev pub sync_write : List KeyEntry → Bool → Bytes → State × Outcome OsError Bytes → Synced
  sync_write keys replace_all path (s, err e) = (s, ([], err (os_error e)))
  sync_write keys replace_all path (s, ok backup) =
      sync_end (length (active_lines keys)) backup
        (write_keys_file path (lines_to_write keys replace_all path s) s)

  -- `createBackup`.
  abbrev pub create_keys_backup : Bytes → State → State × Outcome OsError Bytes
  create_keys_backup path s = create_backup host m.backup_dir (codes "authorized_keys") path s

  abbrev pub backup_if_there : Option Bool → Bytes → State → State × Outcome OsError Bytes
  backup_if_there none path s = (s, ok [])
  backup_if_there (some is_dir) path s = create_keys_backup path s

  abbrev pub sync_backup :
      List KeyEntry → Bool → Bytes → State × Outcome OsError (Unit {0}) → Synced
  sync_backup keys replace_all path (s, err e) = (s, ([], err (os_error e)))
  sync_backup keys replace_all path (s, ok _) =
      sync_write keys replace_all path (backup_if_there (host.stat path s) path s)

  abbrev pub sync_at : List KeyEntry → Bool → Outcome (SshError OsError) Bytes → State → Synced
  sync_at keys replace_all (err e) s = (s, ([], err e))
  sync_at keys replace_all (ok path) s =
      sync_backup keys replace_all path (host.mkdir_all (dir path) 0o700 s)

  unfoldable pub sync_keys : List KeyEntry → Bytes → Bool → State → Synced
  unfolding get_authorized_keys_path dir create_backup active_lines read_existing_keys
      write_keys_file
  sync_keys keys target_user replace_all s =
      sync_at keys replace_all (get_authorized_keys_path target_user) s

  abbrev pub count_opened :
      Outcome OsError (Bytes × Option OsError)
      → Outcome (SshError OsError) (List Bytes)
      → Outcome (SshError OsError) ℕ
  count_opened (err e) scan = if host.is_not_exist e then ok 0 else err (os_error e)
  count_opened (ok opened) scan = map_ok count_lines scan

  abbrev pub count_at : Outcome (SshError OsError) Bytes → State → Outcome (SshError OsError) ℕ
  count_at (err e) s = err e
  count_at (ok path) s = count_opened (host.open_file path s) (scan_file host path s)

  unfoldable pub count_keys : Bytes → State → Outcome (SshError OsError) ℕ
  unfolding get_authorized_keys_path scan_file count_lines
  count_keys target_user s = count_at (get_authorized_keys_path target_user) s

  abbrev pub report :
      State × Outcome OsError (Unit {0}) → State × Outcome (SshError OsError) (Unit {0})
  report (s, err e) = (s, err (os_error e))
  report (s, ok _) = (s, ok tt)

  abbrev pub remove_scanned :
      Bytes
      → Bytes
      → Outcome (SshError OsError) (List Bytes)
      → State
      → State × Outcome (SshError OsError) (Unit {0})
  remove_scanned id path (err e) s = (s, err e)
  remove_scanned id path (ok lines) s =
      report (write_keys_file path (lines_without (id_mark id) lines) s)

  abbrev pub remove_at :
      Bytes
      → Outcome (SshError OsError) Bytes
      → State
      → State × Outcome (SshError OsError) (Unit {0})
  remove_at id (err e) s = (s, err e)
  remove_at id (ok path) s = remove_scanned id path (scan_file host path s) s

  unfoldable pub remove_key : Bytes → Bytes → State → State × Outcome (SshError OsError) (Unit {0})
  unfolding get_authorized_keys_path scan_file lines_without write_keys_file
  remove_key id target_user s = remove_at id (get_authorized_keys_path target_user) s
