-- ===== src/Executor/Stream.antt =====
-- `ExecuteStream` and `streamPipe` of internal/executor/executor.go. What a pipe gives is a list of
-- reads, each with its bytes and whether it came with an error.
use cloudnan_agent.Base.{
  ℕ, ℤ, pos, Bool, List, [], ◌∷◌, ◌++◌, Option, some, if◌then◌else◌, ltb, length, Bytes, Outcome,
  ok, err,
}
use cloudnan_agent.Executor.{
  Executor, Env, RunEnd, Result, result_of, ExecError, command_blocked, start_failed, full_cmd,
  is_blocked, deadline,
}

abbrev pub Read : Type 0
Read = Bytes × Bool

-- The text that is collected and the calls of the callback; an error ends the loop.
unfoldable pub stream_pipe : List Read → Bytes → List Bytes → Bytes × List Bytes
stream_pipe [] buf calls = (buf, calls)
stream_pipe ((chunk, failed) ∷ reads) buf calls =
    let buf' = if ltb 0 (length chunk) then buf ++ chunk else buf in
    let calls' = if ltb 0 (length chunk) then calls ++ chunk ∷ [] else calls in
    let rest = stream_pipe reads buf' calls' in if failed then (buf', calls') else rest

-- What comes with the error when a command could not be started.
abbrev pub not_started : {RunError : Type 0} → RunError → Result RunError
not_started e = record { exit_code = pos 0; stdout = []; stderr = []; error = some e }

-- A command that was started: what its two pipes give and how it ends.
pub record Running (RunError : Type 0) : Type 0 where
  pub stdout_reads : List Read
  pub stderr_reads : List Read
  pub end : RunEnd RunError

abbrev pub Starter : Type 0 → Type 0 → Type 0
Starter State RunError =
    Bytes → Bytes → Env → Option ℕ → State → State × Outcome RunError (Running RunError)

-- The answer, and the chunks that the writer is given of each pipe, in the order of that pipe.
pub record Streamed (RunError : Type 0) : Type 0 where
  pub answer : Outcome (ExecError RunError) (Result RunError)
  pub stdout_calls : List Bytes
  pub stderr_calls : List Bytes

abbrev pub refused : {RunError : Type 0} → ExecError RunError → Streamed RunError
refused e = record { answer = err e; stdout_calls = []; stderr_calls = [] }

unfoldable pub collect : {RunError : Type 0} → Running RunError → Streamed RunError
unfolding stream_pipe result_of
collect r =
    let (out, out_calls) = stream_pipe r.stdout_reads [] [] in
    let (errs, err_calls) = stream_pipe r.stderr_reads [] [] in
    record {
      answer = ok (result_of out errs r.end);
      stdout_calls = out_calls;
      stderr_calls = err_calls;
    }

abbrev pub started :
    {State RunError : Type 0}
    → State × Outcome RunError (Running RunError)
    → State × Streamed RunError
started (s, err e) = (s, refused (start_failed e (not_started e)))
started (s, ok r) = (s, collect r)

unfoldable pub execute_stream :
    {State RunError : Type 0}
    → Starter State RunError
    → Executor
    → Bytes
    → List Bytes
    → Env
    → ℤ
    → State
    → State × Streamed RunError
unfolding full_cmd is_blocked deadline collect
execute_stream start e command args env timeout s =
    let line = full_cmd command args in
    if is_blocked line
    then (s, refused command_blocked)
    else started (start e.shell line env (deadline e timeout) s)
