-- ===== src/Ssh/Keys/Examples.antt =====
-- The keys of a host with one file, and the theorems about them.
use cloudnan_agent.Base.{
  Among, Among-Every, Every, ℕ, true, false, List, [], ◌∷◌, ◌++◌, Option, none, some, if◌then◌else◌,
  Bytes, codes, ok, err, ◌≡◌, ◌≢◌, refl, ap, Bool-cases, inl, inr, ◌∙◌, sym,
}
use cloudnan_agent.Ssh.Host.{Host, os_error, scan_file, backup_path, FileLaws}
use cloudnan_agent.Ssh.Keys.{
  AuthorizedKeysManager, KeyEntry, active_lines, unique_from, get_authorized_keys_path, sync_keys,
  remove_key,
}
use cloudnan_agent.Ssh.Keys.Kept.{sync_keys-unread}
use cloudnan_agent.Ssh.Keys.Listed.{active_lines-Among}
use cloudnan_agent.Ssh.Keys.Stored.{sync_keys-Stores, remove_key-Stores}
use cloudnan_agent.Ssh.Keys.Wanted.{KeyLine, ActiveCount, Stores, Wanted, Unmarked}
use cloudnan_agent.Text.Case.{bytes_equal}
use cloudnan_agent.Text.Case.Laws.{bytes_equal-eq, bytes_equal_self}
use cloudnan_agent.Text.Scanner.Laws.{FitsLine, lines_text}

abbrev keys_path : Bytes
keys_path = codes "/k"

-- The content of that file, and the error that reading it ends with; other files are not kept.
abbrev FileState : Type 0
FileState = Bytes × Option ℕ

abbrev one_file : Host FileState ℕ
one_file = record {
  lookup_user = λ user. none;
  mkdir_all = λ q mode s. (s, ok tt);
  stat = λ q s. some false;
  read_file = λ q s. ok s.0;
  write_file = λ q content mode s. (if bytes_equal q keys_path then (content, none) else s, ok tt);
  open_file = λ q s. ok s;
  is_not_exist = λ e. false;
  glob = λ pattern s. ok [];
  look_path = λ command s. false;
  run = λ command s. (s, ([], true));
  timestamp = λ s. codes "20250101-000000";
}

not_equal : (q : Bytes) → q ≢ keys_path → bytes_equal q keys_path ≡ false
not_equal q h = elim (Bool-cases (bytes_equal q keys_path)) [
  | inl e ↦ absurd (h (bytes_equal-eq q keys_path e))
  | inr e ↦ e
]

one_file-FileLaws : FileLaws one_file keys_path
one_file-FileLaws = record {
  written = λ content mode s h.
      ap (λ b. ok (if b then (content, none) else s)) (bytes_equal_self keys_path);
  apart = λ q content mode s h. ap (λ b. ok (if b then (content, none) else s)) (not_equal q h);
  no_directory = λ q mode s. refl;
}

abbrev manager : AuthorizedKeysManager
manager = record { backup_dir = codes "/b"; custom_path = keys_path }

path_test : get_authorized_keys_path one_file manager [] ≡ ok keys_path
unfolding get_authorized_keys_path
path_test = refl

abbrev backup_name : Bytes
backup_name = codes "/b/authorized_keys.20250101-000000.bak"

backup_test : backup_path one_file (codes "/b") (codes "authorized_keys") ([], none) ≡ backup_name
unfolding cloudnan_agent.Text.FilePath.join_paths
backup_test = refl

backup_apart :
    (t : FileState) → backup_path one_file (codes "/b") (codes "authorized_keys") t ≢ keys_path
backup_apart t h = by_length (sym backup_test ∙ h)
  where
    by_length : backup_name ≢ keys_path
    by_length h = cc

abbrev key : KeyEntry
key = record {
  id = codes "12";
  public_key = codes "ssh-rsa AAAA ";
  name = codes "box";
  is_active = true;
}

abbrev old_file : Bytes
old_file = codes "ssh-rsa BBBB x" ++ (10 ∷ (codes "ssh-rsa AAAA y" ++ 10 ∷ []))

abbrev synced_file : Bytes
synced_file = codes "ssh-rsa BBBB x" ++ (10 ∷ (codes "ssh-rsa AAAA y" ++ 10 ∷ []))

-- The key is there, under another comment.
sync_test :
    sync_keys one_file manager (key ∷ []) [] false (old_file, none)
    ≡ ((synced_file, none), (backup_name, ok 1))
unfolding sync_keys
sync_test = refl

key_line-FitsLine : Every FitsLine (active_lines (key ∷ []))
unfolding active_lines cloudnan_agent.Text.Scanner.drop_cr
key_line-FitsLine = (record { one_line = refl; short = refl; no_cr = refl }, tt)

key_fits :
    (k : KeyEntry) (line : Bytes)
    → Among k (key ∷ [])
    → k.is_active ≡ true
    → KeyLine k line
    → FitsLine line
key_fits k line a e l =
    Among-Every FitsLine (active_lines (key ∷ [])) key_line-FitsLine
      (active_lines-Among line k (key ∷ []) a e l)

abbrev old_texts : List Bytes
old_texts = codes "ssh-rsa BBBB x" ∷ codes "ssh-rsa AAAA y" ∷ []

old_scan_test : scan_file one_file keys_path (old_file, none) ≡ ok old_texts
unfolding scan_file
old_scan_test = refl

sync_keys-Stores_example :
    ActiveCount (key ∷ []) 1
    × (kept : List Bytes) × (scan_file one_file keys_path
          (sync_keys one_file manager (key ∷ []) [] false (old_file, none)).0
        ≡ ok kept)
    × Stores (Wanted (key ∷ []) false old_texts) kept
sync_keys-Stores_example =
    sync_keys-Stores one_file manager one_file-FileLaws (key ∷ []) [] false (old_file, none)
      old_texts backup_name 1 path_test backup_apart (λ e. old_scan_test) key_fits
      (ap (λ o. o.1) sync_test)

unread_test : scan_file one_file keys_path (old_file, some 5) ≡ err (os_error 5)
unfolding scan_file
unread_test = refl

sync_keys-unread_example :
    sync_keys one_file manager (key ∷ []) [] false (old_file, some 5)
    ≡ sync_keys one_file manager (key ∷ []) [] true (old_file, some 5)
sync_keys-unread_example =
    sync_keys-unread one_file manager one_file-FileLaws (key ∷ []) [] (old_file, some 5)
      (os_error 5) path_test backup_apart unread_test

-- The line of key 12.
abbrev line_12 : Bytes
line_12 = codes "ssh-rsa AAAA # managed-by-cloudnan id=12 name=box"

scan_test : scan_file one_file keys_path (line_12, none) ≡ ok (line_12 ∷ [])
unfolding scan_file
scan_test = refl

-- It goes with key 1.
remove_test : remove_key one_file manager (codes "1") [] (line_12, none) ≡ (([], none), ok tt)
unfolding remove_key
remove_test = refl

remove_key-Stores_example :
    (kept : List Bytes) × (one_file.open_file keys_path
        (remove_key one_file manager (codes "1") [] (line_12, none)).0
      ≡ ok (lines_text kept, none))
    × Stores (Unmarked (codes "id=" ++ codes "1") (line_12 ∷ [])) kept
remove_key-Stores_example =
    remove_key-Stores one_file manager one_file-FileLaws (codes "1") [] (line_12, none)
      (line_12 ∷ []) path_test scan_test (ap (λ o. o.1) remove_test)

-- Two keys behind the same option with a blank in it pass for one.
options_test :
    unique_from []
      (codes "command=\"/bin/a b\" ssh-rsa AAAA" ∷ codes "command=\"/bin/a b\" ssh-rsa BBBB" ∷ [])
    ≡ codes "command=\"/bin/a b\" ssh-rsa AAAA" ∷ []
unfolding unique_from
options_test = refl

-- A name with a newline adds a line of its own.
abbrev two_lines : KeyEntry
two_lines = record {
  id = codes "7";
  public_key = codes "ssh-rsa AAAA";
  name = codes "box" ++ (10 ∷ codes "ssh-rsa EVIL");
  is_active = true;
}

newline_test :
    (sync_keys one_file manager (two_lines ∷ []) [] true ([], none)).0.0
    ≡ codes "ssh-rsa AAAA # managed-by-cloudnan id=7 name=box"
      ++ (10 ∷ (codes "ssh-rsa EVIL" ++ 10 ∷ []))
unfolding sync_keys
newline_test = refl
