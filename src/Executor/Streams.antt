-- ===== src/Executor/Streams.antt =====
-- What the writer of `ExecuteStream` is given, and that the allowlist is not asked.
use cloudnan_agent.Base.{
  ℤ, Bool, true, false, List, [], ◌∷◌, ◌++◌, if◌then◌else◌, ltb, length, flatten, Bytes, Outcome,
  ok, err, ◌≡◌, refl, sym, ap, subst, ◌∙◌, append_assoc, append-nil, inl, inr, Bool-cases,
}
use cloudnan_agent.Executor.{
  Executor, Env, RunEnd, exited, broken, Result, result_of, full_cmd, is_blocked, deadline,
  command_blocked,
}
use cloudnan_agent.Executor.Stream.{
  Read, stream_pipe, Running, Starter, Streamed, refused, collect, started, execute_stream,
}

flatten-snoc : (xss : List Bytes) (xs : Bytes) → flatten (xss ++ xs ∷ []) ≡ flatten xss ++ xs
flatten-snoc [] xs = append-nil xs
flatten-snoc (ys ∷ xss) xs =
    ap (λ x. ys ++ x) (flatten-snoc xss xs) ∙ sym (append_assoc ys (flatten xss) xs)

-- The buffer is what the callback was given, joined.
stream_pipe-flatten :
    (reads : List Read) (buf : Bytes) (calls : List Bytes)
    → flatten calls ≡ buf
    → flatten (stream_pipe reads buf calls).1 ≡ (stream_pipe reads buf calls).0
unfolding stream_pipe
stream_pipe-flatten [] buf calls h = h
stream_pipe-flatten ((chunk, true) ∷ reads) buf calls h = elim (Bool-cases (ltb 0 (length chunk))) [
  | inl e ↦ rw e (flatten-snoc calls chunk ∙ ap (λ x. x ++ chunk) h)
  | inr e ↦ rw e h
]
stream_pipe-flatten ((chunk, false) ∷ reads) buf calls h =
    elim (Bool-cases (ltb 0 (length chunk))) [
      | inl e ↦ rw e (
          stream_pipe-flatten reads (buf ++ chunk) (calls ++ chunk ∷ [])
            (flatten-snoc calls chunk ∙ ap (λ x. x ++ chunk) h))
      | inr e ↦ rw e (stream_pipe-flatten reads buf calls h)
    ]

-- A call of the writer, with a chunk of one of the pipes.
pub data Call : Type 0 where
  on_stdout on_stderr : Bytes → Call

-- The calls of the two goroutines in some order that keeps the order of each pipe.
pub data Interleaving : List Bytes → List Bytes → List Call → Type 0 where
  over : Interleaving [] [] []
  stdout_next :
      {chunk : Bytes} {outs errs : List Bytes} {calls : List Call}
      → Interleaving outs errs calls
      → Interleaving (chunk ∷ outs) errs (on_stdout chunk ∷ calls)
  stderr_next :
      {chunk : Bytes} {outs errs : List Bytes} {calls : List Call}
      → Interleaving outs errs calls
      → Interleaving outs (chunk ∷ errs) (on_stderr chunk ∷ calls)

abbrev pub seen_stdout : List Call → Bytes
seen_stdout [] = []
seen_stdout (on_stdout chunk ∷ calls) = chunk ++ seen_stdout calls
seen_stdout (on_stderr chunk ∷ calls) = seen_stdout calls

abbrev pub seen_stderr : List Call → Bytes
seen_stderr [] = []
seen_stderr (on_stdout chunk ∷ calls) = seen_stderr calls
seen_stderr (on_stderr chunk ∷ calls) = chunk ++ seen_stderr calls

Interleaving-seen :
    {outs errs : List Bytes} {calls : List Call}
    → Interleaving outs errs calls
    → (seen_stdout calls ≡ flatten outs) × (seen_stderr calls ≡ flatten errs)
Interleaving-seen over = (refl, refl)
Interleaving-seen (stdout_next {chunk} i) =
    let (a, b) = Interleaving-seen i in (ap (λ x. chunk ++ x) a, b)
Interleaving-seen (stderr_next {chunk} i) =
    let (a, b) = Interleaving-seen i in (a, ap (λ x. chunk ++ x) b)

result_of-outputs :
    {RunError : Type 0} (out errs : Bytes) (end : RunEnd RunError)
    → ((result_of out errs end).stdout ≡ out) × ((result_of out errs end).stderr ≡ errs)
unfolding result_of
result_of-outputs out errs (exited code) = (refl, refl)
result_of-outputs out errs (broken e) = (refl, refl)

-- The writer is given the outputs of the result.
abbrev Shows : {RunError : Type 0} → Streamed RunError → Type 0
Shows {RunError} t =
    (res : Result RunError) (calls : List Call)
    → t.answer ≡ ok res
    → Interleaving t.stdout_calls t.stderr_calls calls
    → (seen_stdout calls ≡ res.stdout) × (seen_stderr calls ≡ res.stderr)

collect-Shows : {RunError : Type 0} (r : Running RunError) → Shows (collect r)
unfolding collect
collect-Shows r res calls h i =
    let out = stream_pipe r.stdout_reads [] [] in
    let errs = stream_pipe r.stderr_reads [] [] in
    let same : result_of out.0 errs.0 r.end ≡ res = cc in
    let (a, b) = Interleaving-seen i in
    let (c, d) = result_of-outputs out.0 errs.0 r.end in
    (
      a ∙ stream_pipe-flatten r.stdout_reads [] [] refl ∙ sym c ∙ ap (λ x. x.stdout) same,
      b ∙ stream_pipe-flatten r.stderr_reads [] [] refl ∙ sym d ∙ ap (λ x. x.stderr) same,
    )

started-Shows :
    {State RunError : Type 0} (o : State × Outcome RunError (Running RunError))
    → Shows (started o).1
started-Shows (s, err e) res calls h i = absurd (cc)
started-Shows (s, ok r) res calls h i = collect-Shows r res calls h i

guarded-Shows :
    {State RunError : Type 0} (b : Bool) (s : State)
    (o : State × Outcome RunError (Running RunError))
    → Shows (if b then (s, refused command_blocked) else started o).1
guarded-Shows true s o res calls h i = absurd (cc)
guarded-Shows false s o res calls h i = started-Shows o res calls h i

execute_stream_lem :
    {State RunError : Type 0} (start : Starter State RunError) (e : Executor) (command : Bytes)
    (args : List Bytes) (env : Env) (timeout : ℤ) (s : State)
    → execute_stream start e command args env timeout s ≡ (
        if is_blocked (full_cmd command args)
        then (s, refused command_blocked)
        else started (start e.shell (full_cmd command args) env (deadline e timeout) s))
unfolding execute_stream
execute_stream_lem start e command args env timeout s = refl

-- If ExecuteStream answers with a result and no error, then in whatever order the goroutines of
-- the two pipes call the writer, what it is given of each pipe, joined, is that output of the
-- result.
pub execute_stream-Shows :
    {State RunError : Type 0} (start : Starter State RunError) (e : Executor) (command : Bytes)
    (args : List Bytes) (env : Env) (timeout : ℤ) (s : State) (res : Result RunError)
    (calls : List Call)
    → (execute_stream start e command args env timeout s).1.answer ≡ ok res
    → Interleaving
        (execute_stream start e command args env timeout s).1.stdout_calls
        (execute_stream start e command args env timeout s).1.stderr_calls
        calls
    → (seen_stdout calls ≡ res.stdout) × (seen_stderr calls ≡ res.stderr)
execute_stream-Shows start e command args env timeout s =
    subst (λ x. Shows x.1) (sym (execute_stream_lem start e command args env timeout s))
      (guarded-Shows (is_blocked (full_cmd command args)) s
        (start e.shell (full_cmd command args) env (deadline e timeout) s))

-- ExecuteStream does the same under every list of allowed commands.
pub execute_stream-allowlist :
    {State RunError : Type 0} (start : Starter State RunError) (e : Executor) (allowed : List Bytes)
    (command : Bytes) (args : List Bytes) (env : Env) (timeout : ℤ) (s : State)
    → execute_stream start (record e { allowed_commands = allowed }) command args env timeout s
      ≡ execute_stream start e command args env timeout s
unfolding execute_stream
execute_stream-allowlist start e allowed command args env timeout s = refl
