-- ===== src/Executor/Guards.antt =====
-- What the shell does on a line that a hard-block pattern catches plays no part in `Execute` and
-- `ExecuteInstall`.
use cloudnan_agent.Base.{
  ℕ, ℤ, Bool, true, false, List, [], Option, if◌then◌else◌, Bytes, ◌≡◌, inl, inr, refl, sym, ap,
  ◌∙◌, Bool-cases,
}
use cloudnan_agent.Executor.Patterns.{curl_pipe_shell_pattern}
use cloudnan_agent.Text.Regex.{match_string}
use cloudnan_agent.Executor.{
  Executor, Shell, Env, full_cmd, is_hard_blocked, is_blocked, deadline, finished, launch,
  outside_allowlist, execute, execute_install,
}

pub is_blocked_lem :
    (cmd : Bytes)
    → is_blocked cmd
      ≡ (if is_hard_blocked cmd then true else match_string curl_pipe_shell_pattern cmd)
unfolding is_blocked
is_blocked_lem cmd = refl

first_false : (b c : Bool) → (if b then true else c) ≡ false → b ≡ false
first_false true c h = h
first_false false c h = refl

pub is_blocked-hard : (cmd : Bytes) → is_blocked cmd ≡ false → is_hard_blocked cmd ≡ false
is_blocked-hard cmd h =
    first_false (is_hard_blocked cmd) (match_string curl_pipe_shell_pattern cmd)
      (sym (is_blocked_lem cmd) ∙ h)

module _ {State RunError : Type 0} (shell shell' : Shell State RunError) (e : Executor)
    (agree : (line : Bytes) (env : Env) (limit : Option ℕ) (s : State)
      → is_hard_blocked line ≡ false
      → shell e.shell line env limit s ≡ shell' e.shell line env limit s) where
  launch-eq :
      (line : Bytes) (env : Env) (timeout : ℤ) (s : State)
      → is_hard_blocked line ≡ false
      → launch shell e line env timeout s ≡ launch shell' e line env timeout s
  launch-eq line env timeout s h = ap (finished shell e) (agree line env (deadline e timeout) s h)

  execute-eq :
      (unicode_lower : Bytes → Bytes) (command : Bytes) (args : List Bytes) (env : Env)
      (timeout : ℤ) (s : State)
      → execute shell e unicode_lower command args env timeout s
        ≡ execute shell' e unicode_lower command args env timeout s
  unfolding execute
  execute-eq unicode_lower command args env timeout s =
      elim (Bool-cases (is_blocked (full_cmd command args))) [
        | inl h ↦ rw h refl
        | inr h ↦
            elim (Bool-cases (outside_allowlist shell e unicode_lower (full_cmd command args))) [
              | inl k ↦ rw (h, k) refl
              | inr k ↦
                  rw (h, k)
                    (launch-eq (full_cmd command args) env timeout s
                      (is_blocked-hard (full_cmd command args) h))
            ]
      ]

  execute_install-eq :
      (command : Bytes) (timeout : ℤ) (s : State)
      → execute_install shell e command timeout s ≡ execute_install shell' e command timeout s
  unfolding execute_install
  execute_install-eq command timeout s = elim (Bool-cases (is_hard_blocked command)) [
    | inl h ↦ rw h refl
    | inr h ↦ rw h (launch-eq command [] timeout s h)
  ]

  -- What the shell would do on a command line that a hard-block pattern catches matters neither to
  -- Execute nor to ExecuteInstall: two shells that agree on all other lines leave the same state
  -- and give the same answers.
  pub hard_block_holds :
      (unicode_lower : Bytes → Bytes) (command : Bytes) (args : List Bytes) (env : Env)
      (timeout : ℤ) (s : State)
      → (execute shell e unicode_lower command args env timeout s
          ≡ execute shell' e unicode_lower command args env timeout s)
        × (execute_install shell e command timeout s ≡ execute_install shell' e command timeout s)
  hard_block_holds unicode_lower command args env timeout s =
      (execute-eq unicode_lower command args env timeout s, execute_install-eq command timeout s)
