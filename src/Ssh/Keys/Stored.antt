-- ===== src/Ssh/Keys/Stored.antt =====
-- What `SyncKeys` and `RemoveKey` of internal/ssh/authorized_keys.go leave in the file, in the words of
-- Wanted.
use cloudnan_agent.Base.{
  Among, Among-left, Among-right, Among-append, Every-Among, ℕ, Bool, true, false, List, ◌++◌, none,
  Bytes, codes, ok, ◌≡◌, ◌≢◌, inl, inr, refl, sym, ap, ◌∙◌, subst,
}
use cloudnan_agent.Ssh.Host.{Host, scan_file, backup_path, FileLaws}
use cloudnan_agent.Ssh.Keys.{
  AuthorizedKeysManager, KeyEntry, active_lines, existing_lines, lines_without, lines_or_none,
  map_ok, get_authorized_keys_path, lines_to_write, sync_keys, remove_key,
}
use cloudnan_agent.Ssh.Keys.Kept.{file_content_lem, read_existing_keys_lem, sync_keys-Represents}
use cloudnan_agent.Ssh.Keys.Listed.{
  active_lines-key, active_lines-Among, active_lines-ActiveCount, existing_lines-Unmanaged,
  existing_lines-Among, lines_without-Unmarked, lines_without-Among,
}
use cloudnan_agent.Ssh.Keys.Removed.{remove_key-Represents}
use cloudnan_agent.Ssh.Keys.Wanted.{
  KeyLine, Unmarked, Wanted, of_key, of_file, ActiveCount, Stores, Represents-Stores,
}
use cloudnan_agent.Text.Scanner.Laws.{FitsLine, lines_text}

active_lines-Wanted :
    (keys : List KeyEntry) (replace_all : Bool) (texts : List Bytes) (line : Bytes)
    → Among line (active_lines keys)
    → Wanted keys replace_all texts line
active_lines-Wanted keys replace_all texts line a =
    let (key, b, e, l) = active_lines-key line keys a in of_key key b e l

module _ {State OsError : Type 0} (host : Host State OsError) (m : AuthorizedKeysManager) where
  lines_to_write-scan :
      (keys : List KeyEntry) (path : Bytes) (s : State) (texts : List Bytes)
      → scan_file host path s ≡ ok texts
      → lines_to_write host m keys false path s ≡ existing_lines texts ++ active_lines keys
  lines_to_write-scan keys path s texts h =
      ap (λ o. lines_or_none o ++ active_lines keys)
        (read_existing_keys_lem host m path s ∙ ap (map_ok existing_lines) h)

  lines_to_write-Among :
      (keys : List KeyEntry) (replace_all : Bool) (path : Bytes) (s : State) (texts : List Bytes)
      (line : Bytes)
      → (replace_all ≡ false → scan_file host path s ≡ ok texts)
      → Wanted keys replace_all texts line
      → Among line (lines_to_write host m keys replace_all path s)
  lines_to_write-Among keys true path s texts line h (of_key key a e l) =
      active_lines-Among line key keys a e l
  lines_to_write-Among keys true path s texts line h (of_file e u) = absurd (cc)
  lines_to_write-Among keys false path s texts line h (of_key key a e l) =
      subst (Among line) (sym (lines_to_write-scan keys path s texts (h refl)))
        (Among-right (existing_lines texts) (active_lines-Among line key keys a e l))
  lines_to_write-Among keys false path s texts line h (of_file e u) =
      subst (Among line) (sym (lines_to_write-scan keys path s texts (h refl)))
        (Among-left (active_lines keys) (existing_lines-Among line texts u))

  lines_to_write-Wanted :
      (keys : List KeyEntry) (replace_all : Bool) (path : Bytes) (s : State) (texts : List Bytes)
      (line : Bytes)
      → (replace_all ≡ false → scan_file host path s ≡ ok texts)
      → Among line (lines_to_write host m keys replace_all path s)
      → Wanted keys replace_all texts line
  lines_to_write-Wanted keys true path s texts line h a = active_lines-Wanted keys true texts line a
  lines_to_write-Wanted keys false path s texts line h a =
      elim (Among-append (existing_lines texts) (active_lines keys)
        (subst (Among line) (lines_to_write-scan keys path s texts (h refl)) a)) [
          | inl b ↦ of_file refl (existing_lines-Unmanaged line texts b)
          | inr b ↦ active_lines-Wanted keys false texts line b
        ]

  -- If syncing keys succeeds, it gives the number of the active keys, and a scan of the file then
  -- gives wanted lines, no two with the same id, one of them with the id of each wanted line;
  -- wanted are the lines of the active keys and, unless all are replaced, the unmanaged lines of
  -- the file, trimmed. Unless all are replaced, the file could be scanned before; the lines of the
  -- active keys fit a scanner line, the backup has another path, and an opened file gives what was
  -- written to it last.
  pub sync_keys-Stores :
      {path : Bytes} (laws : FileLaws host path) (keys : List KeyEntry) (target_user : Bytes)
      (replace_all : Bool) (s : State) (texts : List Bytes) (backup : Bytes) (n : ℕ)
      → get_authorized_keys_path host m target_user ≡ ok path
      → ((t : State) → backup_path host m.backup_dir (codes "authorized_keys") t ≢ path)
      → (replace_all ≡ false → scan_file host path s ≡ ok texts)
      → ((key : KeyEntry) (line : Bytes)
          → Among key keys
          → key.is_active ≡ true
          → KeyLine key line
          → FitsLine line)
      → (sync_keys host m keys target_user replace_all s).1 ≡ (backup, ok n)
      → ActiveCount keys n
        × (kept : List Bytes) × (scan_file host path
              (sync_keys host m keys target_user replace_all s).0
            ≡ ok kept)
        × Stores (Wanted keys replace_all texts) kept
  sync_keys-Stores {path = path} laws keys target_user replace_all s texts backup n at apart scan
        fits h =
      let fit : (line : Bytes) → Among line (active_lines keys) → FitsLine line =
        (λ line a. (let (key, b, e, l) = active_lines-key line keys a in fits key line b e l)) in
      let (count, kept, scanned, rep) =
        sync_keys-Represents host m laws keys target_user replace_all s backup n at apart
          (Every-Among FitsLine (active_lines keys) fit) h in
      (
        subst (ActiveCount keys) (sym count) (active_lines-ActiveCount keys),
        kept,
        scanned,
        Represents-Stores (Wanted keys replace_all texts)
            (lines_to_write host m keys replace_all path s) rep
            (λ line w. lines_to_write-Among keys replace_all path s texts line scan w)
            (λ line a. lines_to_write-Wanted keys replace_all path s texts line scan a),
      )

  -- If a key is removed from a file that could be scanned, the file then holds lines of the file
  -- that do not have the text id= and the id of the key in them, no two with the same id, one of
  -- them with the id of each such line, where an opened file gives what was written to it last.
  pub remove_key-Stores :
      {path : Bytes} (laws : FileLaws host path) (id target_user : Bytes) (s : State)
      (texts : List Bytes)
      → get_authorized_keys_path host m target_user ≡ ok path
      → scan_file host path s ≡ ok texts
      → (remove_key host m id target_user s).1 ≡ ok tt
      → (kept : List Bytes) × (host.open_file path (remove_key host m id target_user s).0
          ≡ ok (lines_text kept, none))
        × Stores (Unmarked (codes "id=" ++ id) texts) kept
  remove_key-Stores {path = path} laws id target_user s texts at scan h =
      let (kept, opened, without, rep) =
        remove_key-Represents host m laws id target_user s texts at scan h in
      (
        kept,
        opened ∙ ap (λ c. ok (c, none)) (file_content_lem kept),
        Represents-Stores (Unmarked (codes "id=" ++ id) texts)
            (lines_without (codes "id=" ++ id) texts) rep
            (λ line u. lines_without-Among (codes "id=" ++ id) line texts u)
            (λ line a. lines_without-Unmarked (codes "id=" ++ id) line texts a),
      )
