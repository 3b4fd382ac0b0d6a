-- ===== src/Ssh/Handler/Ports.antt =====
-- What a success says of the port, for a request of internal/ssh/handler.go that restarted the daemon.
use cloudnan_agent.Base.{
  Among, first, Among-Every, ◌⊎◌, if◌then◌else◌, codes, subst, Every, ℤ, pos, negsuc, Bool, true,
  false, ◌||◌, not, List, [], ◌∷◌, Option, none, some, leb_int, Bytes, Outcome, ok, err, ◌≡◌, refl,
  sym, ap, ◌∙◌, arith, Bool-cases, inl, inr,
}
use cloudnan_agent.Ssh.Config.Includes.{update_config}
use cloudnan_agent.Ssh.Daemon.{validate_config, restart_sshd, get_effective_ports}
use cloudnan_agent.Ssh.Handler.{
  ConfigUpdateRequest, ConfigUpdateResponse, updated, port_allowed, first_other, by_other,
  verify_ports, after_restart, restart_if, after_validation, validate_if, after_update,
  update_ssh_config,
}
use cloudnan_agent.Ssh.Daemon.Commands.{
  IsRestart, NamesPort, ports_in-NamesPort, NamesPort-Among, Runs, validate_config-Runs,
  restart_sshd-IsRestart, get_effective_ports-ok,
}
use cloudnan_agent.Text.Lines.{split_byte}
use cloudnan_agent.Text.Scanner.{newline}
use cloudnan_agent.Ssh.Host.{Host, SshError}

leb_int-antisym : (a b : ℤ) → leb_int a b ≡ true → leb_int b a ≡ true → a ≡ b
leb_int-antisym (pos a) (pos b) h k = let e : a ≡ b = ground arith in ap pos e
leb_int-antisym (pos a) (negsuc b) h k = absurd (cc)
leb_int-antisym (negsuc a) (pos b) h k = absurd (cc)
leb_int-antisym (negsuc a) (negsuc b) h k = let e : a ≡ b = ground arith in ap negsuc e

first_other-none : (p : ℤ) (ports : List ℤ) → first_other p ports ≡ none → Every (λ q. q ≡ p) ports
unfolding first_other
first_other-none p [] h = tt
first_other-none p (q ∷ ports) h = elim (Bool-cases (leb_int q p)) [
  | inl e ↦ elim (Bool-cases (leb_int p q)) [
    | inl f ↦ (leb_int-antisym q p e f, first_other-none p ports (rw (e, f) at h))
    | inr f ↦ absurd (cc (rw (e, f) at h))
  ]
  | inr e ↦ absurd (cc (rw e at h))
]

port_allowed-bounds :
    (p : ℤ)
    → port_allowed (some p) ≡ true
    → (leb_int (pos 1) p ≡ true) × (leb_int p (pos 65535) ≡ true)
unfolding port_allowed
port_allowed-bounds p h = both (leb_int (pos 1) p) (leb_int p (pos 65535)) h
  where
    both : (a b : Bool) → not (not a || not b) ≡ true → (a ≡ true) × (b ≡ true)
    both true true h = (refl, refl)
    both true false h = absurd (cc)
    both false b h = absurd (cc)

-- A success with the port `p`: the update succeeded, the configuration was checked if that is asked for,
-- the daemon was restarted by one of its commands, and `sshd -T` behind that named `p` and no other port.
pub record Success {State OsError : Type 0} (host : Host State OsError)
    (update : State × (Bytes × Outcome (SshError OsError) (Unit {0}))) (validates : Bool) (p : ℤ)
    (last : State) : Type 0 where
  pub u : State
  pub backup : Bytes
  pub done : update ≡ (u, (backup, ok tt))
  pub w : State
  pub checked :
      ((validates ≡ false) × (w ≡ u))
      ⊎ ((validates ≡ true) × Runs host (codes "sshd" ∷ codes "-t" ∷ []) u w)
  pub t : State
  pub restarts : restart_sshd host w ≡ (t, ok tt)
  pub command : List Bytes
  pub v : State
  pub is_restart : IsRestart command
  pub ran : Runs host command v t
  pub listing : Bytes
  pub asked : host.run (codes "sshd" ∷ codes "-T" ∷ []) t ≡ (last, (listing, true))
  pub on_port : NamesPort (split_byte listing newline) p
  pub no_other : (q : ℤ) → NamesPort (split_byte listing newline) q → q ≡ p

module _ {State OsError : Type 0} (host : Host State OsError) (config_path backup_dir : Bytes) where
  -- A success behind a restart.
  abbrev Restarted : ConfigUpdateResponse OsError → Type 0
  Restarted r = (r.reply ≡ updated) × (r.sshd_restarted ≡ true)

  -- The daemon named at least one port, and no other than `p`.
  OnPort : ℤ → State → State → Type 0
  OnPort p t s =
      (q : ℤ) × (ports : List ℤ) × (get_effective_ports host t ≡ (s, ok (q ∷ ports)))
      × Every (λ x. x ≡ p) (q ∷ ports)

  verify_ports-OnPort :
      (backup : Bytes) (p : ℤ) (t : State) (o : State × Outcome (SshError OsError) (List ℤ))
      → get_effective_ports host t ≡ o
      → Restarted (verify_ports host config_path backup_dir backup p o).1
      → OnPort p t (verify_ports host config_path backup_dir backup p o).0
  unfolding OnPort
  verify_ports-OnPort backup p t (s, err e) h (r, d) = absurd (cc)
  verify_ports-OnPort backup p t (s, ok []) h (r, d) = absurd (cc)
  verify_ports-OnPort backup p t (s, ok (q ∷ ports)) h (r, d) =
      (q, ports, h, first_other-none p (q ∷ ports) (no_other (first_other p (q ∷ ports)) r))
    where
      no_other :
          (o : Option ℤ)
          → (by_other host config_path backup_dir backup o).reply ≡ updated
          → o ≡ none
      no_other none r = refl
      no_other (some x) r = absurd (cc)

  -- A restart at `w` that ended at `t`, and the daemon asked there.
  RestartedOn : ℤ → State → State → Type 0
  RestartedOn p w s = (t : State) × (restart_sshd host w ≡ (t, ok tt)) × OnPort p t s

  after_restart-RestartedOn :
      (backup : Bytes) (p : ℤ) (w : State) (o : State × Outcome (SshError OsError) (Unit {0}))
      → restart_sshd host w ≡ o
      → Restarted (after_restart host config_path backup_dir backup (some p) o).1
      → RestartedOn p w (after_restart host config_path backup_dir backup (some p) o).0
  unfolding RestartedOn
  after_restart-RestartedOn backup p w (t, err e) h (r, d) = absurd (cc)
  after_restart-RestartedOn backup p w (t, ok _) h r =
      (t, h, verify_ports-OnPort backup p t (get_effective_ports host t) refl r)

  module _ (req : ConfigUpdateRequest) (p : ℤ) (h : req.changes.port ≡ some p) where
    -- The configuration was checked, if that was asked for.
    abbrev Checked : State → State → Type 0
    Checked u w =
        ((req.validate_config ≡ false) × (w ≡ u))
        ⊎ ((req.validate_config ≡ true) × (validate_config host u ≡ (w, ok tt)))

    Verified : State → State × ConfigUpdateResponse OsError → Type 0
    Verified u o = Restarted o.1 → (w : State) × Checked u w × RestartedOn p w o.0

    restart_if-RestartedOn :
        (backup : Bytes) (w : State)
        → Restarted (restart_if host config_path backup_dir backup req w).1
        → RestartedOn p w (restart_if host config_path backup_dir backup req w).0
    unfolding restart_if
    restart_if-RestartedOn backup w = elim (Bool-cases req.restart_sshd) [
      | inl e ↦ rw (e, h) (after_restart-RestartedOn backup p w (restart_sshd host w) refl)
      | inr e ↦ rw e (λ r. absurd (cc r.1))
    ]

    after_validation-Verified :
        (backup : Bytes) (u : State) (o : State × Outcome (SshError OsError) (Unit {0}))
        → req.validate_config ≡ true
        → validate_config host u ≡ o
        → Verified u (after_validation host config_path backup_dir backup req o)
    unfolding Verified
    after_validation-Verified backup u (w, err e) v k (r, d) = absurd (cc)
    after_validation-Verified backup u (w, ok _) v k r =
        (w, inr (v, k), restart_if-RestartedOn backup w r)

    validate_if-by :
        (backup : Bytes) (u : State) (b : Bool)
        → req.validate_config ≡ b
        → validate_if host config_path backup_dir backup req u ≡ (
            if b
            then after_validation host config_path backup_dir backup req (validate_config host u)
            else restart_if host config_path backup_dir backup req u)
    unfolding validate_if
    validate_if-by backup u b e =
        ap
          (λ x.
            if x
            then after_validation host config_path backup_dir backup req (validate_config host u)
            else restart_if host config_path backup_dir backup req u)
          e

    unchecked-Verified :
        (backup : Bytes) (u : State)
        → req.validate_config ≡ false
        → Verified u (restart_if host config_path backup_dir backup req u)
    unfolding Verified
    unchecked-Verified backup u e r = (u, inl (e, refl), restart_if-RestartedOn backup u r)

    validate_if-Verified :
        (backup : Bytes) (u : State)
        → Verified u (validate_if host config_path backup_dir backup req u)
    validate_if-Verified backup u = elim (Bool-cases req.validate_config) [
      | inl e ↦
          subst (Verified u) (sym (validate_if-by backup u true e))
            (after_validation-Verified backup u (validate_config host u) e refl)
      | inr e ↦
          subst (Verified u) (sym (validate_if-by backup u false e)) (unchecked-Verified backup u e)
    ]

    -- How an answer that the daemon runs on the port came about, from the result of the update on.
    after_update-Success :
        (o : State × (Bytes × Outcome (SshError OsError) (Unit {0})))
        → Restarted (after_update host config_path backup_dir req o).1
        → Success host o req.validate_config p (after_update host config_path backup_dir req o).0
    unfolding Verified RestartedOn OnPort
    after_update-Success (u, (backup, err e)) (r, d) = absurd (cc)
    after_update-Success (u, (backup, ok _)) r =
        let (w, checked, (t, restarts, (q, ports, listed, same))) =
          validate_if-Verified backup u r in
        let (command, v, is_restart, ran) = restart_sshd-IsRestart host w t restarts in
        let (listing, asked, named) =
          get_effective_ports-ok host t (validate_if host config_path backup_dir backup req u).0
            (q ∷ ports) listed in
        let texts = split_byte listing newline in
        record {
          u = u;
          backup = backup;
          done = refl;
          w = w;
          checked = by_check u w checked;
          t = t;
          restarts = restarts;
          command = command;
          v = v;
          is_restart = is_restart;
          ran = ran;
          listing = listing;
          asked = asked;
          on_port =
              subst (NamesPort texts) same.0
                (ports_in-NamesPort q texts (subst (Among q) (sym named) (first refl)));
          no_other = λ x n.
              Among-Every (λ y. y ≡ p) (q ∷ ports) same
                (subst (Among x) named (NamesPort-Among x texts n));
        }
      where
        by_check :
            (u w : State)
            → Checked u w
            → ((req.validate_config ≡ false) × (w ≡ u))
              ⊎ ((req.validate_config ≡ true) × Runs host (codes "sshd" ∷ codes "-t" ∷ []) u w)
        by_check u w (inl c) = inl c
        by_check u w (inr (e, c)) = inr (e, validate_config-Runs host u w c)

  -- If an update with a port succeeds and restarted the daemon, the port lies between 1 and 65535,
  -- the update itself succeeded, sshd -t accepted the configuration where that is asked for, then
  -- the daemon was restarted, by one of the four commands that do so, and sshd -T, run right
  -- behind that, named the port and no other.
  pub update_ssh_config-Success :
      (unicode_lower : Bytes → Bytes) (req : ConfigUpdateRequest) (p : ℤ) (s : State)
      → req.changes.port ≡ some p
      → (update_ssh_config host config_path backup_dir unicode_lower req s).1.reply ≡ updated
      → (update_ssh_config host config_path backup_dir unicode_lower req s).1.sshd_restarted ≡ true
      → (leb_int (pos 1) p ≡ true)
        × (leb_int p (pos 65535) ≡ true)
        × Success host
            (update_config host config_path backup_dir unicode_lower req.changes s)
            req.validate_config
            p
            (update_ssh_config host config_path backup_dir unicode_lower req s).0
  unfolding update_ssh_config
  update_ssh_config-Success unicode_lower req p s h r d =
      elim (Bool-cases (port_allowed req.changes.port)) [
        | inl e ↦
            let (low, high) = port_allowed-bounds p (ap port_allowed (sym h) ∙ e) in
            (
              low,
              high,
              rw e (
                  after_update-Success req p h
                    (update_config host config_path backup_dir unicode_lower req.changes s)
                    (rw e at r, rw e at d)),
            )
        | inr e ↦ absurd (cc (rw e at r))
      ]
