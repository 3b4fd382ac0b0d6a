-- ===== src/Ssh/Handler.antt =====
-- internal/ssh/handler.go: the requests for keys and for the configuration.
pub mod Restored
pub mod Ports
mod Examples
use cloudnan_agent.Base.{
  ℕ, ℤ, pos, Bool, true, false, ◌||◌, List, [], ◌∷◌, Option, none, some, if◌then◌else◌, leb_int,
  not, Bytes, codes, Outcome, ok, err,
}
use cloudnan_agent.Ssh.Config.{SshdConfig, get_current_config}
use cloudnan_agent.Ssh.Config.Includes.{update_config, restore_backup}
use cloudnan_agent.Ssh.Config.Update.{Changes}
use cloudnan_agent.Ssh.Daemon.{validate_config, restart_sshd, get_effective_ports, get_sshd_status}
use cloudnan_agent.Ssh.Host.{Host, SshError, os_error}
use cloudnan_agent.Ssh.Keys.{
  AuthorizedKeysManager, KeyEntry, is_empty, sync_keys, count_keys, remove_key,
}

pub record ConfigUpdateRequest : Type 0 where
  pub changes : Changes
  pub restart_sshd : Bool
  pub validate_config : Bool

-- The message of a response; only the last is that of a success.
pub data Reply (OsError : Type 0) : Type 0 where
  invalid_port no_active_ports : Reply OsError
  update_failed validation_failed restart_failed ports_unknown : SshError OsError → Reply OsError
  still_on_port : ℤ → Reply OsError
  updated : Reply OsError

pub record ConfigUpdateResponse (OsError : Type 0) : Type 0 where
  pub reply : Reply OsError
  pub backup_path : Bytes
  pub sshd_restarted : Bool

unfoldable pub port_allowed : Option ℤ → Bool
port_allowed none = true
port_allowed (some p) = not (not (leb_int (pos 1) p) || not (leb_int p (pos 65535)))

unfoldable pub first_other : ℤ → List ℤ → Option ℤ
first_other port [] = none
first_other port (p ∷ ports) =
    let rest = first_other port ports in
    if leb_int p port then if leb_int port p then rest else some p else some p

abbrev pub user_or_root : Bytes → Bytes
user_or_root user = if is_empty user then codes "root" else user

module _ {State OsError : Type 0} (host : Host State OsError) (config_path backup_dir : Bytes) where
  abbrev pub failed : Bytes → Reply OsError → ConfigUpdateResponse OsError
  failed backup reply = record { reply = reply; backup_path = backup; sshd_restarted = false }

  abbrev pub success : Bytes → Bool → ConfigUpdateResponse OsError
  success backup restarted = record {
    reply = updated;
    backup_path = backup;
    sshd_restarted = restarted;
  }

  abbrev pub by_other : Bytes → Option ℤ → ConfigUpdateResponse OsError
  by_other backup none = success backup true
  by_other backup (some p) = failed backup (still_on_port p)

  abbrev pub verify_ports :
      Bytes → ℤ → State × Outcome (SshError OsError) (List ℤ) → State × ConfigUpdateResponse OsError
  verify_ports backup port (s, err e) = (s, failed backup (ports_unknown e))
  verify_ports backup port (s, ok []) = (s, failed backup no_active_ports)
  verify_ports backup port (s, ok (p ∷ ports)) = (s, by_other backup (first_other port (p ∷ ports)))

  abbrev pub after_restart :
      Bytes
      → Option ℤ
      → State × Outcome (SshError OsError) (Unit {0})
      → State × ConfigUpdateResponse OsError
  after_restart backup port (s, err e) = (s, failed backup (restart_failed e))
  after_restart backup none (s, ok _) = (s, success backup true)
  after_restart backup (some port) (s, ok _) = verify_ports backup port (get_effective_ports host s)

  unfoldable pub restart_if :
      Bytes → ConfigUpdateRequest → State → State × ConfigUpdateResponse OsError
  unfolding cloudnan_agent.Ssh.Daemon.restart_sshd get_effective_ports first_other
  restart_if backup req s =
      if req.restart_sshd
      then after_restart backup req.changes.port (restart_sshd host s)
      else (s, success backup false)

  -- An error of the restore is ignored.
  abbrev pub restored : Bytes → State → State
  restored backup s =
      if is_empty backup then s else (restore_backup host config_path backup_dir backup s).0

  abbrev pub after_validation :
      Bytes
      → ConfigUpdateRequest
      → State × Outcome (SshError OsError) (Unit {0})
      → State × ConfigUpdateResponse OsError
  after_validation backup req (s, err e) = (restored backup s, failed backup (validation_failed e))
  after_validation backup req (s, ok _) = restart_if backup req s

  unfoldable pub validate_if :
      Bytes → ConfigUpdateRequest → State → State × ConfigUpdateResponse OsError
  unfolding cloudnan_agent.Ssh.Daemon.validate_config restart_if restore_backup
  validate_if backup req s =
      if req.validate_config
      then after_validation backup req (validate_config host s)
      else restart_if backup req s

  abbrev pub after_update :
      ConfigUpdateRequest
      → State × (Bytes × Outcome (SshError OsError) (Unit {0}))
      → State × ConfigUpdateResponse OsError
  after_update req (s, (backup, err e)) = (s, failed backup (update_failed e))
  after_update req (s, (backup, ok _)) = validate_if backup req s

  unfoldable pub update_ssh_config :
      (Bytes → Bytes) → ConfigUpdateRequest → State → State × ConfigUpdateResponse OsError
  unfolding port_allowed update_config validate_if
  update_ssh_config unicode_lower req s =
      if port_allowed req.changes.port
      then after_update req (update_config host config_path backup_dir unicode_lower req.changes s)
      else (s, failed [] invalid_port)

  pub record StatusResponse : Type 0 where
    pub config : SshdConfig
    pub sshd_status : Bytes
    pub authorized_keys_count : ℕ

  -- No count is a count of 0.
  abbrev pub count_or_zero : Outcome (SshError OsError) ℕ → ℕ
  count_or_zero (ok n) = n
  count_or_zero (err e) = 0

  abbrev pub status_of :
      Outcome (SshError OsError) SshdConfig
      → ℕ
      → State × (State × Bytes)
      → State × Outcome (SshError OsError) StatusResponse
  status_of (err e) n (s, later) = (s, err e)
  status_of (ok config) n (s, (s₁, status)) =
      (s₁, ok (record { config = config; sshd_status = status; authorized_keys_count = n }))

  unfoldable pub get_status :
      (Bytes → Bytes)
      → AuthorizedKeysManager
      → Bytes
      → State
      → State × Outcome (SshError OsError) StatusResponse
  unfolding get_current_config count_keys get_sshd_status
  get_status unicode_lower m user s =
      status_of (get_current_config unicode_lower host config_path s)
        (count_or_zero (count_keys host m (user_or_root user) s)) (s, get_sshd_status host s)

  -- The other requests only put root in the place of an empty user.
  unfoldable pub sync_ssh_keys :
      AuthorizedKeysManager
      → List KeyEntry
      → Bytes
      → Bool
      → State
      → State × (Bytes × Outcome (SshError OsError) ℕ)
  unfolding sync_keys
  sync_ssh_keys m keys user replace_all s = sync_keys host m keys (user_or_root user) replace_all s

  unfoldable pub remove_ssh_key :
      AuthorizedKeysManager → Bytes → Bytes → State → State × Outcome (SshError OsError) (Unit {0})
  unfolding remove_key
  remove_ssh_key m id user s = remove_key host m id (user_or_root user) s
