-- ===== src/Ssh/Handler/Examples.antt =====
-- Requests to a host with a disk of files.
use cloudnan_agent.Base.{
  ℕ, pos, Bool, true, false, [], none, some, if◌then◌else◌, leb_int, Bytes, codes, ok, ◌≡◌, ◌≢◌,
  refl, sym, ap, Bool-cases, inl, inr, ◌∙◌,
}
use cloudnan_agent.Ssh.Handler.{ConfigUpdateRequest, updated, validation_failed, update_ssh_config}
use cloudnan_agent.Ssh.Handler.Ports.{Success, update_ssh_config-Success}
use cloudnan_agent.Ssh.Config.Includes.{update_config}
use cloudnan_agent.Ssh.Handler.Restored.{DiskLaws, update_ssh_config-restored}
use cloudnan_agent.Ssh.Host.{Host, command_failed, backup_path}
use cloudnan_agent.Ssh.Keys.{is_empty}
use cloudnan_agent.Text.Case.{bytes_equal}
use cloudnan_agent.Text.Case.Laws.{bytes_equal-eq, bytes_equal_self}
use cloudnan_agent.Text.FilePath.{join_paths}

abbrev Disk : Type 0
Disk = Bytes → Bytes

-- All commands name the port 2222, and all succeed or all fail.
abbrev disk_host : Bool → Host Disk ℕ
disk_host works = record {
  lookup_user = λ user. none;
  mkdir_all = λ q mode s. (s, ok tt);
  stat = λ q s. none;
  read_file = λ q s. ok (s q);
  write_file = λ q content mode s. ((λ r. if bytes_equal q r then content else s r), ok tt);
  open_file = λ q s. ok (s q, none);
  is_not_exist = λ e. false;
  glob = λ pattern s. ok [];
  look_path = λ command s. false;
  run = λ command s. (s, (codes "port 2222", works));
  timestamp = λ s. codes "1";
}

not_equal : (q r : Bytes) → q ≢ r → bytes_equal q r ≡ false
not_equal q r h = elim (Bool-cases (bytes_equal q r)) [
  | inl e ↦ absurd (h (bytes_equal-eq q r e))
  | inr e ↦ e
]

disk_host-DiskLaws : (works : Bool) → DiskLaws (disk_host works)
disk_host-DiskLaws works = record {
  reads = λ q content mode s h. ap (λ b. ok (if b then content else s q)) (bytes_equal_self q);
  others = λ q r content mode s h. ap (λ b. ok (if b then content else s r)) (not_equal q r h);
  no_directory = λ q r mode s. refl;
  checked = λ r s. refl;
}

abbrev config : Bytes
config = codes "/c"

abbrev old_disk : Disk
old_disk q = codes "Port 22"

backup_test :
    backup_path (disk_host false) (codes "/b") (codes "sshd_config") old_disk
    ≡ codes "/b/sshd_config.1.bak"
unfolding join_paths
backup_test = refl

backup_named :
    (t : Disk)
    → (backup_path (disk_host false) (codes "/b") (codes "sshd_config") t ≢ config)
      × (is_empty (backup_path (disk_host false) (codes "/b") (codes "sshd_config") t) ≡ false)
backup_named t = ((λ h. other (sym backup_test ∙ h)), ap is_empty backup_test)
  where
    other : codes "/b/sshd_config.1.bak" ≢ config
    other h = cc

abbrev no_lower : Bytes → Bytes
no_lower s = s

abbrev no_password : ConfigUpdateRequest
no_password = record {
  changes = record {
    port = none;
    permit_root_login = none;
    password_auth = some false;
    pubkey_auth = none;
  };
  restart_sshd = true;
  validate_config = true;
}

rejected_test :
    (update_ssh_config (disk_host false) config (codes "/b") no_lower no_password old_disk).1.reply
    ≡ validation_failed command_failed
unfolding update_ssh_config
rejected_test = refl

update_ssh_config-restored_example :
    (disk_host false).read_file config
      (update_ssh_config (disk_host false) config (codes "/b") no_lower no_password old_disk).0
    ≡ (disk_host false).read_file config old_disk
update_ssh_config-restored_example =
    update_ssh_config-restored (disk_host false) (disk_host-DiskLaws false) config (codes "/b")
      backup_named no_lower (λ content mode t. refl) no_password old_disk command_failed refl
      rejected_test

abbrev new_port : ConfigUpdateRequest
new_port = record {
  changes = record {
    port = some (pos 2222);
    permit_root_login = none;
    password_auth = none;
    pubkey_auth = none;
  };
  restart_sshd = true;
  validate_config = true;
}

updated_test :
    (update_ssh_config (disk_host true) config (codes "/b") no_lower new_port old_disk).1.reply
    ≡ updated
unfolding update_ssh_config
updated_test = refl

restarted_test :
    (update_ssh_config
      (disk_host true)
      config
      (codes "/b")
      no_lower
      new_port
      old_disk).1.sshd_restarted
    ≡ true
unfolding update_ssh_config
restarted_test = refl

update_ssh_config-Success_example :
    (leb_int (pos 1) (pos 2222) ≡ true)
    × (leb_int (pos 2222) (pos 65535) ≡ true)
    × Success
        (disk_host true)
        (update_config (disk_host true) config (codes "/b") no_lower new_port.changes old_disk)
        true
        (pos 2222)
        (update_ssh_config (disk_host true) config (codes "/b") no_lower new_port old_disk).0
update_ssh_config-Success_example =
    update_ssh_config-Success (disk_host true) config (codes "/b") no_lower new_port (pos 2222)
      old_disk refl updated_test restarted_test
