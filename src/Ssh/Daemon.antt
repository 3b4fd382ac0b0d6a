-- ===== src/Ssh/Daemon.antt =====
-- The commands of internal/ssh/sshd_config.go: the socket of systemd, the check of the configuration,
-- the restart and what the daemon says of itself.
pub mod Commands
use cloudnan_agent.Base.{
  ℤ, Bool, true, false, ◌&&◌, List, [], ◌∷◌, ◌++◌, Option, none, some, if◌then◌else◌, Bytes, codes,
  Outcome, ok, err,
}
use cloudnan_agent.Ssh.Host.{Host, SshError, command_failed, chain, lifted}
use cloudnan_agent.Text.Case.{bytes_equal}
use cloudnan_agent.Text.Decimal.{atoi, format_int}
use cloudnan_agent.Text.FilePath.{join_paths}
use cloudnan_agent.Text.Lines.{split_byte}
use cloudnan_agent.Text.Scanner.{newline}
use cloudnan_agent.Text.Search.{has_prefix}
use cloudnan_agent.Text.Space.{fields, trim_space}

abbrev pub socket_dir : Bytes
socket_dir = codes "/etc/systemd/system/ssh.socket.d"

unfoldable pub override_content : ℤ → Bytes
unfolding format_int
override_content port =
    codes "[Socket]"
    ++ (newline ∷ codes "ListenStream=")
    ++ (newline ∷ codes "ListenStream=0.0.0.0:")
    ++ format_int port
    ++ (newline ∷ codes "ListenStream=[::]:")
    ++ format_int port
    ++ newline ∷ []

-- The ports that `sshd -T` names.
abbrev pub port_of_fields : List Bytes → Option ℤ
port_of_fields [] = none
port_of_fields (key ∷ []) = none
port_of_fields (key ∷ value ∷ more) = atoi value

abbrev pub with_port : Option ℤ → List ℤ → List ℤ
with_port none ports = ports
with_port (some p) ports = p ∷ ports

unfoldable pub ports_in : List Bytes → List ℤ
unfolding trim_space has_prefix fields atoi
ports_in [] = []
ports_in (text ∷ texts) =
    let line = trim_space text in
    let rest = ports_in texts in
    if has_prefix line (codes "port ") then with_port (port_of_fields (fields line)) rest else rest

module _ {State OsError : Type 0} (host : Host State OsError) where
  abbrev pub systemctl : Bytes → Bytes → State → State × (Bytes × Bool)
  systemctl verb unit s = host.run (codes "systemctl" ∷ verb ∷ unit ∷ []) s

  abbrev pub says_active : State × (Bytes × Bool) → State × Bool
  says_active (s, (output, succeeded)) =
      (s, succeeded && bytes_equal (trim_space output) (codes "active"))

  unfoldable pub is_systemd_socket_active : Bytes → State → State × Bool
  unfolding bytes_equal trim_space
  is_systemd_socket_active unit s = says_active (systemctl (codes "is-active") unit s)

  abbrev pub reload : State → State × (Bytes × Bool)
  reload s = host.run (codes "systemctl" ∷ codes "daemon-reload" ∷ []) s

  abbrev pub restarted_socket :
      State × (Bytes × Bool) → State × Outcome (SshError OsError) (Unit {0})
  restarted_socket (s, (output, false)) = (s, err command_failed)
  restarted_socket (s, (output, true)) =
      let s₁ = (systemctl (codes "restart") (codes "ssh.socket") s).0 in
      ((systemctl (codes "restart") (codes "ssh") s₁).0, ok tt)

  unfoldable pub override_socket_port : ℤ → State → State × Outcome (SshError OsError) (Unit {0})
  unfolding join_paths override_content
  override_socket_port port s = chain (lifted (host.mkdir_all socket_dir 0o755 s)) λ _ s₁.
      chain
        (lifted (
          host.write_file (join_paths (socket_dir ∷ codes "override.conf" ∷ []))
            (override_content port) 0o644 s₁))
        λ _ s₂. restarted_socket (reload s₂)

  -- Nothing is done without an active or an installed socket.
  abbrev pub if_installed :
      ℤ → State × (Bytes × Bool) → State × Outcome (SshError OsError) (Unit {0})
  if_installed port (s, (output, true)) = override_socket_port port s
  if_installed port (s, (output, false)) = (s, ok tt)

  abbrev pub if_active : ℤ → State × Bool → State × Outcome (SshError OsError) (Unit {0})
  if_active port (s, true) = override_socket_port port s
  if_active port (s, false) = if_installed port (systemctl (codes "cat") (codes "ssh.socket") s)

  unfoldable pub update_systemd_socket_port :
      ℤ → State → State × Outcome (SshError OsError) (Unit {0})
  unfolding is_systemd_socket_active override_socket_port
  update_systemd_socket_port port s =
      if host.look_path (codes "systemctl") s
      then if_active port (is_systemd_socket_active (codes "ssh.socket") s)
      else (s, ok tt)

  abbrev pub succeeded : State × (Bytes × Bool) → State × Outcome (SshError OsError) (Unit {0})
  succeeded (s, (output, true)) = (s, ok tt)
  succeeded (s, (output, false)) = (s, err command_failed)

  unfoldable pub validate_config : State → State × Outcome (SshError OsError) (Unit {0})
  validate_config s = succeeded (host.run (codes "sshd" ∷ codes "-t" ∷ []) s)

  -- The first command that succeeds ends the restart; the last one decides.
  abbrev pub or_else :
      State × (Bytes × Bool)
      → (State → State × Outcome (SshError OsError) (Unit {0}))
      → State × Outcome (SshError OsError) (Unit {0})
  or_else (s, (output, true)) next = (s, ok tt)
  or_else (s, (output, false)) next = next s

  abbrev pub refresh_socket : State × Bool → State
  refresh_socket (s, false) = s
  refresh_socket (s, true) = (systemctl (codes "restart") (codes "ssh.socket") (reload s).0).0

  unfoldable pub restart_sshd : State → State × Outcome (SshError OsError) (Unit {0})
  unfolding is_systemd_socket_active
  restart_sshd s =
      or_else
        (systemctl (codes "restart") (codes "sshd")
          (refresh_socket (is_systemd_socket_active (codes "ssh.socket") s)))
        λ s₁. or_else (systemctl (codes "restart") (codes "ssh") s₁) λ s₂.
          or_else (host.run (codes "service" ∷ codes "sshd" ∷ codes "restart" ∷ []) s₂)
            λ s₃. succeeded (host.run (codes "service" ∷ codes "ssh" ∷ codes "restart" ∷ []) s₃)

  abbrev pub ports_of_output : State × (Bytes × Bool) → State × Outcome (SshError OsError) (List ℤ)
  ports_of_output (s, (output, false)) = (s, err command_failed)
  ports_of_output (s, (output, true)) = (s, ok (ports_in (split_byte output newline)))

  unfoldable pub get_effective_ports : State → State × Outcome (SshError OsError) (List ℤ)
  unfolding ports_in split_byte
  get_effective_ports s = ports_of_output (host.run (codes "sshd" ∷ codes "-T" ∷ []) s)

  -- What systemd says of a unit, or what comes behind.
  abbrev pub status_or : State × (Bytes × Bool) → (State → State × Bytes) → State × Bytes
  status_or (s, (output, true)) next =
      let status = trim_space output in
      (s, if bytes_equal status (codes "active") then codes "running" else status)
  status_or (s, (output, false)) next = next s

  abbrev pub process_status : State × (Bytes × Bool) → State × Bytes
  process_status (s, (output, found)) = (s, if found then codes "running" else codes "unknown")

  unfoldable pub get_sshd_status : State → State × Bytes
  unfolding trim_space bytes_equal
  get_sshd_status s = status_or (systemctl (codes "is-active") (codes "sshd") s) λ s₁.
      status_or (systemctl (codes "is-active") (codes "ssh") s₁)
        λ s₂. process_status (host.run (codes "pgrep" ∷ codes "-x" ∷ codes "sshd" ∷ []) s₂)
