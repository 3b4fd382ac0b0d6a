-- ===== src/Executor.antt =====
-- internal/executor/executor.go: shell commands behind a block list. The shell is a parameter: it runs
-- a command line under an environment and a deadline.
pub mod Patterns
pub mod Quoting
pub mod Guards
pub mod Caught
pub mod Prefixes
pub mod Stream
pub mod Streams
mod Examples
use cloudnan_agent.Base.{
  ℕ, ℤ, pos, negsuc, Bool, true, false, not, ◌&&◌, ◌||◌, List, [], ◌∷◌, ◌++◌, Option, none, some,
  if◌then◌else◌, ltb, length, map, Bytes, codes, Outcome, ok, err,
}
use cloudnan_agent.Executor.Patterns.{hard_block_patterns, curl_pipe_shell_pattern}
use cloudnan_agent.Text.Case.{to_lower}
use cloudnan_agent.Text.Lines.{join}
use cloudnan_agent.Text.Regex.{Regex, match_string}
use cloudnan_agent.Text.Search.{has_prefix, replace_byte}

pub record Executor : Type 0 where
  pub shell : Bytes
  pub default_timeout : ℤ
  pub allowed_commands : List Bytes
  pub blocked_commands : List Bytes

unfoldable pub new_executor : Bytes → ℤ → List Bytes → List Bytes → Executor
new_executor shell timeout allowed blocked = record {
  shell = if ltb 0 (length shell) then shell else codes "/bin/sh";
  default_timeout = timeout;
  allowed_commands = allowed;
  blocked_commands = blocked;
}

abbrev pub apostrophe : ℕ
apostrophe = 39

-- `'\''`.
abbrev pub quoted_apostrophe : Bytes
quoted_apostrophe = apostrophe ∷ b'\\' ∷ apostrophe ∷ apostrophe ∷ []

unfoldable pub quote_arg : Bytes → Bytes
unfolding replace_byte
quote_arg arg = apostrophe ∷ (replace_byte arg apostrophe quoted_apostrophe ++ apostrophe ∷ [])

-- The command line of `Execute` and `ExecuteStream`.
unfoldable pub full_cmd : Bytes → List Bytes → Bytes
unfolding quote_arg join
full_cmd command [] = command
full_cmd command (arg ∷ args) = command ++ (b' ' ∷ join (map quote_arg (arg ∷ args)) (codes " "))

unfoldable pub matches_any : List Regex → Bytes → Bool
unfolding match_string
matches_any [] cmd = false
matches_any (r ∷ rs) cmd = match_string r cmd || matches_any rs cmd

unfoldable pub is_hard_blocked : Bytes → Bool
unfolding matches_any hard_block_patterns
is_hard_blocked cmd = matches_any hard_block_patterns cmd

unfoldable pub is_blocked : Bytes → Bool
unfolding is_hard_blocked match_string curl_pipe_shell_pattern
is_blocked cmd = if is_hard_blocked cmd then true else match_string curl_pipe_shell_pattern cmd

-- The first pattern that matches, by its place in the list; the pattern of `curl | bash` is the last.
unfoldable pub first_match : List Regex → Bytes → Option Regex
unfolding match_string
first_match [] cmd = none
first_match (r ∷ rs) cmd = if match_string r cmd then some r else first_match rs cmd

unfoldable pub matched_hard_block : Bytes → Option Regex
unfolding first_match hard_block_patterns curl_pipe_shell_pattern
matched_hard_block cmd = first_match (hard_block_patterns ++ curl_pipe_shell_pattern ∷ []) cmd

unfoldable pub starts_with_any : (Bytes → Bytes) → Bytes → List Bytes → Bool
unfolding to_lower has_prefix
starts_with_any unicode_lower cmd [] = false
starts_with_any unicode_lower cmd (a ∷ allowed) =
    has_prefix cmd (to_lower unicode_lower a) || starts_with_any unicode_lower cmd allowed

unfoldable pub is_allowed : (Bytes → Bytes) → Executor → Bytes → Bool
unfolding starts_with_any
is_allowed unicode_lower e cmd =
    starts_with_any unicode_lower (to_lower unicode_lower cmd) e.allowed_commands

-- How a command ends: with an exit code, or with an error of its own.
pub data RunEnd (RunError : Type 0) : Type 0 where
  exited : ℤ → RunEnd RunError
  broken : RunError → RunEnd RunError

pub record Result (RunError : Type 0) : Type 0 where
  pub exit_code : ℤ
  pub stdout : Bytes
  pub stderr : Bytes
  pub error : Option RunError

unfoldable pub result_of : {RunError : Type 0} → Bytes → Bytes → RunEnd RunError → Result RunError
result_of out errs (exited code) = record {
  exit_code = code;
  stdout = out;
  stderr = errs;
  error = none;
}
result_of out errs (broken e) = record {
  exit_code = negsuc 0;
  stdout = out;
  stderr = errs;
  error = some e;
}

pub data ExecError (RunError : Type 0) : Type 0 where
  command_blocked not_in_allowlist : ExecError RunError
  start_failed : RunError → Result RunError → ExecError RunError  -- with the result it comes with

-- A timeout of 0 is the default; only a positive one sets a deadline, here in nanoseconds.
abbrev pub is_positive : ℤ → Option ℕ
is_positive (pos n) = if ltb 0 n then some n else none
is_positive (negsuc n) = none

abbrev pub is_zero : ℤ → Bool
is_zero (pos n) = not (ltb 0 n)
is_zero (negsuc n) = false

unfoldable pub deadline : Executor → ℤ → Option ℕ
deadline e timeout = is_positive (if is_zero timeout then e.default_timeout else timeout)

abbrev pub Env : Type 0
Env = List (Bytes × Bytes)

-- Running a command line to its end: its two outputs and how it ended.
abbrev pub Shell : Type 0 → Type 0 → Type 0
Shell State RunError =
    Bytes → Bytes → Env → Option ℕ → State → State × (Bytes × Bytes × RunEnd RunError)

module _ {State RunError : Type 0} (shell : Shell State RunError) (e : Executor) where
  abbrev pub finished :
      State × (Bytes × Bytes × RunEnd RunError)
      → State × Outcome (ExecError RunError) (Result RunError)
  finished (s, (out, errs, end)) = (s, ok (result_of out errs end))

  abbrev pub launch :
      Bytes → Env → ℤ → State → State × Outcome (ExecError RunError) (Result RunError)
  launch line env timeout s = finished (shell e.shell line env (deadline e timeout) s)

  -- The allowlist, if there is one.
  abbrev pub outside_allowlist : (Bytes → Bytes) → Bytes → Bool
  outside_allowlist unicode_lower line =
      ltb 0 (length e.allowed_commands) && not (is_allowed unicode_lower e line)

  unfoldable pub execute :
      (Bytes → Bytes)
      → Bytes
      → List Bytes
      → Env
      → ℤ
      → State
      → State × Outcome (ExecError RunError) (Result RunError)
  unfolding full_cmd is_blocked is_allowed deadline result_of
  execute unicode_lower command args env timeout s =
      let line = full_cmd command args in
      if is_blocked line
      then (s, err command_blocked)
      else if outside_allowlist unicode_lower line
      then (s, err not_in_allowlist)
      else launch line env timeout s

  unfoldable pub execute_install :
      Bytes → ℤ → State → State × Outcome (ExecError RunError) (Result RunError)
  unfolding is_hard_blocked deadline result_of
  execute_install command timeout s =
      if is_hard_blocked command then (s, err command_blocked) else launch command [] timeout s
