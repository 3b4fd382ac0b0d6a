-- ===== src/Filesystem/Manager.antt =====
-- internal/filesystem/manager.go: file operations below a root directory. The operating system is a
-- parameter over its own state; each of its calls answers with an error or a value and the state
-- behind it.
pub mod Confinement
pub mod Calls
use cloudnan_agent.Base.{
  ℕ, Bool, true, false, ◌&&◌, ◌||◌, not, List, [], ◌∷◌, ◌++◌, if◌then◌else◌, Bytes, codes, Outcome,
  ok, err,
}
use cloudnan_agent.Text.Case.{bytes_equal}
use cloudnan_agent.Text.FilePath.{slash, clean, join_paths}
use cloudnan_agent.Text.Search.{has_prefix}

pub record Os (State OsError : Type 0) : Type 0 where
  pub read_file : Bytes → State → Outcome OsError Bytes
  pub write_file : Bytes → Bytes → ℕ → State → State × Outcome OsError (Unit {0})
  pub remove_all : Bytes → State → State × Outcome OsError (Unit {0})
  pub mkdir_all : Bytes → ℕ → State → State × Outcome OsError (Unit {0})
  -- Opening a file for reading, and what `Stat` says of it: is it a directory, and its mode.
  pub open_file : Bytes → State → Outcome OsError (Unit {0})
  pub stat_file : Bytes → State → Outcome OsError (Bool × ℕ)
  pub create : Bytes → State → State × Outcome OsError (Unit {0})
  -- `io.Copy` of the opened file, the second path, into the created one, the first.
  pub copy_contents : Bytes → Bytes → State → State × Outcome OsError (Unit {0})
  pub chmod : Bytes → ℕ → State → State × Outcome OsError (Unit {0})

pub data FileError (OsError : Type 0) : Type 0 where
  access_denied : FileError OsError
  directory_copy : FileError OsError
  os_error : OsError → FileError OsError

-- `New`: an empty root is detected; the flag says that `/hostfs` is there.
unfoldable pub new_root : Bytes → Bool → Bytes
new_root [] hostfs = if hostfs then codes "/hostfs" else codes "/"
new_root (c ∷ root_dir) hostfs = c ∷ root_dir

-- `none` is the error that the path escapes the root.
unfoldable pub escapes : Bytes → Bytes → Bool
unfolding bytes_equal has_prefix
escapes root cleaned =
    not (bytes_equal root (codes "/"))
    && not (bytes_equal cleaned root)
    && not (has_prefix cleaned (root ++ codes "/"))

module _ {State OsError : Type 0} (os : Os State OsError) (root_dir : Bytes) where
  unfoldable pub resolve_path : Bytes → Outcome (FileError OsError) Bytes
  unfolding clean join_paths escapes
  resolve_path p =
      let cleaned = clean (join_paths (root_dir ∷ p ∷ [])) in
      if escapes (clean root_dir) cleaned then err access_denied else ok cleaned

  -- A call whose only result is its error.
  abbrev pub report :
      State × Outcome OsError (Unit {0}) → State × Outcome (FileError OsError) (Unit {0})
  report (s, ok _) = (s, ok tt)
  report (s, err e) = (s, err (os_error e))

  abbrev pub read_result : Outcome OsError Bytes → Outcome (FileError OsError) Bytes
  read_result (ok content) = ok content
  read_result (err e) = err (os_error e)

  abbrev pub read_at : Outcome (FileError OsError) Bytes → State → Outcome (FileError OsError) Bytes
  read_at (err e) s = err e
  read_at (ok full) s = read_result (os.read_file full s)

  unfoldable pub read : Bytes → State → Outcome (FileError OsError) Bytes
  unfolding resolve_path
  read path s = read_at (resolve_path path) s

  -- A change of the file tree at a resolved path.
  abbrev pub on_path :
      Outcome (FileError OsError) Bytes
      → (Bytes → State × Outcome OsError (Unit {0}))
      → State
      → State × Outcome (FileError OsError) (Unit {0})
  on_path (err e) call s = (s, err e)
  on_path (ok full) call s = report (call full)

  -- The mode is 0644.
  unfoldable pub write_bytes :
      Bytes → Bytes → State → State × Outcome (FileError OsError) (Unit {0})
  unfolding resolve_path
  write_bytes path content s =
      on_path (resolve_path path) (λ full. os.write_file full content 0o644 s) s

  unfoldable pub delete : Bytes → State → State × Outcome (FileError OsError) (Unit {0})
  unfolding resolve_path
  delete path s = on_path (resolve_path path) (λ full. os.remove_all full s) s

  unfoldable pub mkdir : Bytes → State → State × Outcome (FileError OsError) (Unit {0})
  unfolding resolve_path
  mkdir path s = on_path (resolve_path path) (λ full. os.mkdir_all full 0o755 s) s

  -- The last step of a copy: the mode of the source.
  abbrev pub copy_mode :
      Bytes
      → ℕ
      → State × Outcome OsError (Unit {0})
      → State × Outcome (FileError OsError) (Unit {0})
  copy_mode dest mode (s, ok _) = report (os.chmod dest mode s)
  copy_mode dest mode (s, err e) = (s, err (os_error e))

  abbrev pub copy_into :
      Bytes
      → Bytes
      → ℕ
      → State × Outcome OsError (Unit {0})
      → State × Outcome (FileError OsError) (Unit {0})
  copy_into source dest mode (s, ok _) = copy_mode dest mode (os.copy_contents dest source s)
  copy_into source dest mode (s, err e) = (s, err (os_error e))

  abbrev pub copy_stat :
      Bytes
      → Bytes
      → State
      → Outcome OsError (Bool × ℕ)
      → State × Outcome (FileError OsError) (Unit {0})
  copy_stat source dest s (err e) = (s, err (os_error e))
  copy_stat source dest s (ok (is_dir, mode)) =
      if is_dir then (s, err directory_copy) else copy_into source dest mode (os.create dest s)

  unfoldable pub copy_paths : Bytes → Bytes → State → State × Outcome (FileError OsError) (Unit {0})
  copy_paths source dest s = elim (os.open_file source s) [
    | err e ↦ (s, err (os_error e))
    | ok _ ↦ copy_stat source dest s (os.stat_file source s)
  ]

  unfoldable pub on_paths :
      Outcome (FileError OsError) Bytes
      → Outcome (FileError OsError) Bytes
      → State
      → State × Outcome (FileError OsError) (Unit {0})
  unfolding copy_paths
  on_paths (err e) dest s = (s, err e)
  on_paths (ok source) (err e) s = (s, err e)
  on_paths (ok source) (ok dest) s = copy_paths source dest s

  unfoldable pub copy : Bytes → Bytes → State → State × Outcome (FileError OsError) (Unit {0})
  unfolding resolve_path on_paths
  copy source dest s = on_paths (resolve_path source) (resolve_path dest) s
