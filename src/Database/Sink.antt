-- ===== src/Database/Sink.antt =====
-- `LocalFileSink` of internal/database/sink.go, over an open file as a parameter.
pub mod Lifecycle
mod Examples
use cloudnan_agent.Base.{
  ℕ, ◌+◌, ◌%◌, ◌^◌, Bool, true, false, not, List, [], ◌∷◌, Option, none, some, if◌then◌else◌, Bytes,
  Outcome, ok, err,
}

-- The calls on the file and its path, each with the state behind it and its error.
pub record FileCalls (State OsError : Type 0) : Type 0 where
  -- How many bytes were written, and the error.
  pub write_file : Bytes → State → State × (ℕ × Option OsError)
  pub sync_file : State → State × Option OsError
  pub close_file : State → State × Option OsError
  pub remove_path : State → State × Option OsError
  pub is_not_exist : OsError → Bool

pub data SinkError (OsError : Type 0) : Type 0 where
  write_on_closed : SinkError OsError
  write_error fsync_error close_error remove_error : OsError → SinkError OsError

pub record Sink (State OsError : Type 0) : Type 0 where
  pub file : State
  pub written : ℕ  -- uint64
  pub closed : Bool
  pub aborted : Bool
  pub write_err : Option OsError

abbrev pub new_sink : {State OsError : Type 0} → State → Sink State OsError
new_sink file = record {
  file = file;
  written = 0;
  closed = false;
  aborted = false;
  write_err = none;
}

module _ {State OsError : Type 0} (calls : FileCalls State OsError) where
  -- The state behind an operation and its error.
  abbrev pub Result : Type 0
  Result = Sink State OsError × Option (SinkError OsError)

  abbrev pub wrote : Sink State OsError → State × (ℕ × Option OsError) → Result
  wrote s (file, (n, none)) = (record s { file = file; written = (s.written + n) % 2 ^ 64 }, none)
  wrote s (file, (n, some e)) = (
    record s { file = file; written = (s.written + n) % 2 ^ 64; write_err = some e },
    some (write_error e),
  )

  abbrev pub sticky : Bytes → Sink State OsError → Option OsError → Result
  sticky p s (some e) = (s, some (write_error e))
  sticky p s none = wrote s (calls.write_file p s.file)

  unfoldable pub write : Bytes → Sink State OsError → Result
  write p s = if s.closed then (s, some write_on_closed) else sticky p s s.write_err

  abbrev pub close_fd : (OsError → SinkError OsError) → Sink State OsError → Result
  close_fd f s =
      let (file, e) = calls.close_file s.file in
      (record s { file = file }, elim e [ none ↦ none | some e ↦ some (f e) ])

  -- The descriptor is closed for an error that is reported already.
  abbrev pub close_after : SinkError OsError → Sink State OsError → Result
  close_after e s = let (file, _) = calls.close_file s.file in (record s { file = file }, some e)

  abbrev pub synced : Sink State OsError → State × Option OsError → Result
  synced s (file, none) = close_fd close_error (record s { file = file })
  synced s (file, some e) = close_after (fsync_error e) (record s { file = file })

  abbrev pub finish : Sink State OsError → Option OsError → Result
  finish s (some e) = close_after (write_error e) s
  finish s none = synced s (calls.sync_file s.file)

  unfoldable pub close : Sink State OsError → Result
  close s = if s.closed then (s, none) else finish (record s { closed = true }) s.write_err

  abbrev pub removed : Sink State OsError → State × Option OsError → Result
  removed s (file, none) = (record s { file = file }, none)
  removed s (file, some e) =
      if calls.is_not_exist e
      then (record s { file = file }, none)
      else (record s { file = file }, some (remove_error e))

  -- The descriptor is closed if the sink is not; the flag is the sink's.
  abbrev pub shut_by : Bool → Sink State OsError → Sink State OsError
  shut_by true s = s
  shut_by false s =
      let (file, _) = calls.close_file s.file in record s { file = file; closed = true }

  abbrev pub shut : Sink State OsError → Sink State OsError
  shut s = shut_by s.closed s

  unfoldable pub abort : Sink State OsError → Result
  abort s =
      let t = shut (record s { aborted = true }) in
      if s.aborted then (s, none) else removed t (calls.remove_path t.file)

  pub data Operation : Type 0 where
    writing : Bytes → Operation
    closing : Operation
    aborting : Operation

  abbrev pub step : Operation → Sink State OsError → Result
  step (writing p) s = write p s
  step closing s = close s
  step aborting s = abort s
