-- ===== src/Ssh/Daemon/Commands.antt =====
-- Which commands stand behind a check, a restart and the ports that the daemon is on.
use cloudnan_agent.Base.{
  Among, first, next, ℤ, Bool, true, false, List, [], ◌∷◌, Option, none, some, Bytes, codes,
  Outcome, ok, err, Bool-cases, ◌≡◌, ◌⊎◌, inl, inr, refl, sym, ap, ◌∙◌,
}
use cloudnan_agent.Ssh.Daemon.{
  is_systemd_socket_active, refresh_socket, or_else, succeeded, validate_config, restart_sshd,
  port_of_fields, with_port, ports_in, ports_of_output, get_effective_ports,
}
use cloudnan_agent.Ssh.Host.{Host, SshError}
use cloudnan_agent.Text.Decimal.{atoi}
use cloudnan_agent.Text.Lines.{split_byte}
use cloudnan_agent.Text.Search.{has_prefix}
use cloudnan_agent.Text.Space.{fields, trim_space}

-- A command that restarts the daemon.
pub data IsRestart : List Bytes → Type 0 where
  systemctl_sshd : IsRestart (codes "systemctl" ∷ codes "restart" ∷ codes "sshd" ∷ [])
  systemctl_ssh : IsRestart (codes "systemctl" ∷ codes "restart" ∷ codes "ssh" ∷ [])
  service_sshd : IsRestart (codes "service" ∷ codes "sshd" ∷ codes "restart" ∷ [])
  service_ssh : IsRestart (codes "service" ∷ codes "ssh" ∷ codes "restart" ∷ [])

-- A line `port` with a number among the lines.
pub data NamesPort (texts : List Bytes) (p : ℤ) : Type 0 where
  names :
      (text key value : Bytes) (more : List Bytes)
      → Among text texts
      → has_prefix (trim_space text) (codes "port ") ≡ true
      → fields (trim_space text) ≡ key ∷ value ∷ more
      → atoi value ≡ some p
      → NamesPort texts p

NamesPort-next :
    {t : Bytes} {texts : List Bytes} {p : ℤ} → NamesPort texts p → NamesPort (t ∷ texts) p
NamesPort-next (names text key value more a h e f) = names text key value more (next a) h e f

with_port-Among :
    (o : Option ℤ) (p : ℤ) (ports : List ℤ)
    → Among p (with_port o ports)
    → (o ≡ some p) ⊎ Among p ports
with_port-Among none p ports a = inr a
with_port-Among (some q) p ports (first e) = inl (ap some (sym e))
with_port-Among (some q) p ports (next a) = inr a

port_of_fields-some :
    (words : List Bytes) (p : ℤ)
    → port_of_fields words ≡ some p
    → (key value : Bytes) × (more : List Bytes) × (words ≡ key ∷ value ∷ more)
      × (atoi value ≡ some p)
port_of_fields-some [] p h = cc
port_of_fields-some (key ∷ []) p h = cc
port_of_fields-some (key ∷ value ∷ more) p h = (key, value, more, refl, h)

pub ports_in-NamesPort : (p : ℤ) (texts : List Bytes) → Among p (ports_in texts) → NamesPort texts p
unfolding ports_in
ports_in-NamesPort p [] a = elim a [ ]
ports_in-NamesPort p (text ∷ texts) a =
    elim (Bool-cases (has_prefix (trim_space text) (codes "port "))) [
      | inl e ↦ by_first e (rw e at a) (ports_in-NamesPort p texts)
      | inr e ↦ NamesPort-next (ports_in-NamesPort p texts (rw e at a))
    ]
  where
    by_first :
        has_prefix (trim_space text) (codes "port ") ≡ true
        → Among p (with_port (port_of_fields (fields (trim_space text))) (ports_in texts))
        → (Among p (ports_in texts) → NamesPort texts p)
        → NamesPort (text ∷ texts) p
    by_first e b rec =
        elim (with_port-Among (port_of_fields (fields (trim_space text))) p (ports_in texts) b) [
          | inl f ↦
              (let (key, value, more, w, n) = port_of_fields-some (fields (trim_space text)) p f in
                names text key value more (first refl) e w n)
          | inr c ↦ NamesPort-next (rec c)
        ]

with_port-next :
    (o : Option ℤ) {p : ℤ} {ports : List ℤ} → Among p ports → Among p (with_port o ports)
with_port-next none a = a
with_port-next (some q) a = next a

with_port-first : (o : Option ℤ) (p : ℤ) (ports : List ℤ) → o ≡ some p → Among p (with_port o ports)
with_port-first none p ports h = absurd (cc)
with_port-first (some q) p ports h = first (cc)

pub NamesPort-Among : (p : ℤ) (texts : List Bytes) → NamesPort texts p → Among p (ports_in texts)
unfolding ports_in
NamesPort-Among p [] (names text key value more a h e f) = elim a [ ]
NamesPort-Among p (t ∷ texts) (names text key value more (first s) h e f) =
    let start : has_prefix (trim_space t) (codes "port ") ≡ true =
      ap (λ x. has_prefix (trim_space x) (codes "port ")) (sym s) ∙ h in
    rw start (
      with_port-first (port_of_fields (fields (trim_space t))) p (ports_in texts)
        (ap (λ x. port_of_fields (fields (trim_space x))) (sym s) ∙ ap port_of_fields e ∙ f))
NamesPort-Among p (t ∷ texts) (names text key value more (next a) h e f) =
    elim (Bool-cases (has_prefix (trim_space t) (codes "port "))) [
      | inl g ↦ rw g (
          with_port-next (port_of_fields (fields (trim_space t)))
            (NamesPort-Among p texts (names text key value more a h e f)))
      | inr g ↦ rw g (NamesPort-Among p texts (names text key value more a h e f))
    ]

module _ {State OsError : Type 0} (host : Host State OsError) where
  -- A command that succeeds and ends in the state `t`.
  abbrev pub Runs : List Bytes → State → State → Type 0
  Runs command s t = (output : Bytes) × (host.run command s ≡ (t, (output, true)))

  succeeded-ok :
      (o : State × (Bytes × Bool)) (t : State)
      → succeeded host o ≡ (t, ok tt)
      → (output : Bytes) × (o ≡ (t, (output, true)))
  succeeded-ok (s, (output, true)) t h = (output, ap (λ x. (x.0, (output, true))) h)
  succeeded-ok (s, (output, false)) t h = absurd (cc (ap (λ x. x.1) h))

  or_else-ok :
      (o : State × (Bytes × Bool)) (go_on : State → State × Outcome (SshError OsError) (Unit {0}))
      (t : State)
      → or_else host o go_on ≡ (t, ok tt)
      → ((output : Bytes) × (o ≡ (t, (output, true)))) ⊎ (go_on o.0 ≡ (t, ok tt))
  or_else-ok (s, (output, true)) go_on t h = inl (output, ap (λ x. (x.0, (output, true))) h)
  or_else-ok (s, (output, false)) go_on t h = inr h

  pub validate_config-Runs :
      (s t : State)
      → validate_config host s ≡ (t, ok tt)
      → Runs (codes "sshd" ∷ codes "-t" ∷ []) s t
  unfolding validate_config
  validate_config-Runs s t h = succeeded-ok (host.run (codes "sshd" ∷ codes "-t" ∷ []) s) t h

  -- A restart ends behind one of the commands that restart the daemon.
  pub restart_sshd-IsRestart :
      (s t : State)
      → restart_sshd host s ≡ (t, ok tt)
      → (command : List Bytes) × (v : State) × IsRestart command × Runs command v t
  unfolding restart_sshd
  restart_sshd-IsRestart s t h =
      let s₀ = refresh_socket host (is_systemd_socket_active host (codes "ssh.socket") s) in
      let run₁ = host.run (codes "systemctl" ∷ codes "restart" ∷ codes "sshd" ∷ []) s₀ in
      let run₂ = host.run (codes "systemctl" ∷ codes "restart" ∷ codes "ssh" ∷ []) run₁.0 in
      let run₃ = host.run (codes "service" ∷ codes "sshd" ∷ codes "restart" ∷ []) run₂.0 in
      let run₄ = host.run (codes "service" ∷ codes "ssh" ∷ codes "restart" ∷ []) run₃.0 in
      elim (or_else-ok run₁ _ t h) [
        | inl a ↦ (codes "systemctl" ∷ codes "restart" ∷ codes "sshd" ∷ [], s₀, systemctl_sshd, a)
        | inr h₂ ↦ elim (or_else-ok run₂ _ t h₂) [
          | inl a ↦
              (codes "systemctl" ∷ codes "restart" ∷ codes "ssh" ∷ [], run₁.0, systemctl_ssh, a)
          | inr h₃ ↦ elim (or_else-ok run₃ _ t h₃) [
            | inl a ↦
                (codes "service" ∷ codes "sshd" ∷ codes "restart" ∷ [], run₂.0, service_sshd, a)
            | inr h₄ ↦ (
              codes "service" ∷ codes "ssh" ∷ codes "restart" ∷ [],
              run₃.0,
              service_ssh,
              succeeded-ok run₄ t h₄,
            )
          ]
        ]
      ]

  ports_of_output-ok :
      (o : State × (Bytes × Bool)) (t : State) (ports : List ℤ)
      → ports_of_output host o ≡ (t, ok ports)
      → (output : Bytes) × (o ≡ (t, (output, true))) × (ports_in (split_byte output 10) ≡ ports)
  ports_of_output-ok (s, (output, true)) t ports h =
      (output, ap (λ x. (x.0, (output, true))) h, ap (λ x. elim x.1 [ ok l ↦ l | err e ↦ ports ]) h)
  ports_of_output-ok (s, (output, false)) t ports h = absurd (cc (ap (λ x. x.1) h))

  pub get_effective_ports-ok :
      (s t : State) (ports : List ℤ)
      → get_effective_ports host s ≡ (t, ok ports)
      → (output : Bytes) × (host.run (codes "sshd" ∷ codes "-T" ∷ []) s ≡ (t, (output, true)))
        × (ports_in (split_byte output 10) ≡ ports)
  unfolding get_effective_ports
  get_effective_ports-ok s t ports h =
      ports_of_output-ok (host.run (codes "sshd" ∷ codes "-T" ∷ []) s) t ports h
