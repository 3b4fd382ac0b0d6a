-- ===== src/Database/Query.antt =====
-- internal/database/ops_query.go: the gate in front of one SQL statement, and the stream of chunks
-- that answers it. The instance that a request names, the connection and the driver are parameters.
pub mod Operation
pub mod Gate
pub mod Transcript
mod Examples
use cloudnan_agent.Base.{
  ℕ, zero, suc, ◌+◌, ◌*◌, ◌-◌, ◌^◌, ℤ, pos, negsuc, Bool, true, false, ◌&&◌, List, [], ◌∷◌, ◌++◌,
  Option, none, some, if◌then◌else◌, within, ltb, leb, ◌==◌, length, Bytes, codes, Outcome, ok, err,
}
use cloudnan_agent.Database.Classify.Strip.{SqlError}
use cloudnan_agent.Database.Classify.With.{StatementKind, statement_read, statement_write}
use cloudnan_agent.Database.Classify.{classify_statement}
use cloudnan_agent.Database.Token.{TokenError, SecretStore, Codec, verify_op_token}

-- `DatabaseExecQueryRequest`.
pub record Request : Type 0 where
  pub instance_id : Bytes
  pub database_name : Bytes
  pub sql : Bytes
  pub read_only : Bool
  pub confirmation_token : Bytes
  pub row_limit : ℕ  -- uint32
  pub timeout_seconds : ℕ  -- uint32

abbrev pub query_row_limit_default : ℕ
query_row_limit_default = 1000

abbrev pub query_row_limit_max : ℕ
query_row_limit_max = 100000

abbrev pub query_timeout_default : ℕ
query_timeout_default = 30

abbrev pub query_timeout_max : ℕ
query_timeout_max = 600

-- 0 stands for the default; more than the maximum is cut.
abbrev pub cut : ℕ → ℕ → ℕ
cut most n = if ltb most n then most else n

abbrev pub clamp : ℕ → ℕ → ℕ → ℕ
clamp default most n = cut most (if n == 0 then default else n)

pub data DriverError : Type 0 where
  deadline_exceeded canceled other_driver_error : DriverError
  mysql_error : ℕ → DriverError
  postgres_error : Bytes → Bytes → DriverError  -- its code and position

pub data Code : Type 0 where
  e_invalid_request e_read_only e_columns e_column_types e_scan : Code
  e_parse : SqlError → Code
  e_parse_fuel : Code
  e_token : TokenError → Code
  e_open e_timeout e_canceled e_driver : Code
  my_code : ℕ → Code
  pg_code : Bytes → Code

-- `strconv.ParseUint(pos, 10, 32)`, with 0 for an error.
unfoldable pub parse_digits : ℕ → Bytes → Option ℕ
parse_digits acc [] = some acc
parse_digits acc (c ∷ s) =
    let rest = parse_digits (acc * 10 + (c - b'0')) s in if within b'0' b'9' c then rest else none

unfoldable pub parse_postgres_position : Bytes → ℕ
unfolding parse_digits
parse_postgres_position [] = 0
parse_postgres_position (c ∷ s) = elim (parse_digits 0 (c ∷ s)) [
  | none ↦ 0
  | some n ↦ if ltb n (2 ^ 32) then n else 0
]

unfoldable pub classify_driver_error : DriverError → Code × ℕ
unfolding parse_postgres_position
classify_driver_error deadline_exceeded = (e_timeout, 0)
classify_driver_error canceled = (e_canceled, 0)
classify_driver_error (mysql_error n) = (my_code n, 0)
classify_driver_error (postgres_error code position) =
    (pg_code code, parse_postgres_position position)
classify_driver_error other_driver_error = (e_driver, 0)

-- `DatabaseQueryResultChunk`; the elapsed time of the footer is left out.
pub data Chunk : Type 0 where
  header : List Bytes → List Bytes → Chunk
  row : List Bytes → List Bool → Chunk
  footer : ℕ → ℕ → Bool → Chunk  -- rows, affected rows, truncated
  error : Code → ℕ → Chunk  -- with its line

-- A result set of database/sql: the rows that it would give, and its error when so many are taken.
pub record ResultSet : Type 0 where
  pub columns : Option (List Bytes)
  pub column_types : Option (List Bytes)
  pub rows : List (Option (List Bytes × List Bool))  -- `none`: `Scan` fails
  pub error_behind : ℕ → Option DriverError

-- The other side of the gate, over its own state.
pub record Backend (State Conn : Type 0) : Type 0 where
  pub open_instance : Bytes → Bytes → State → State × Option Conn
  pub query_context : Conn → Bytes → ℕ → State → State × Outcome DriverError ResultSet
  pub exec_context : Conn → Bytes → ℕ → State → State × Outcome DriverError ℤ

-- The chunks that are emitted, and whether marshalling one failed, which ends the operation.
abbrev pub Emission : Type 0
Emission = List Chunk × Bool

abbrev pub max_int64 : ℤ → ℕ
max_int64 (pos n) = n
max_int64 (negsuc n) = 0

module _ (marshals : Chunk → Bool) where
  abbrev pub emit_then : Chunk → Emission → Emission
  emit_then c (rest, failed) = if marshals c then (c ∷ rest, failed) else ([], true)

  abbrev pub emit_chunk : Chunk → Emission
  emit_chunk c = emit_then c ([], false)

  abbrev pub driver_error : DriverError → Emission
  driver_error e = emit_chunk (error (classify_driver_error e).0 (classify_driver_error e).1)

  abbrev pub finish_rows : Option DriverError → ℕ → Bool → Emission
  finish_rows none count truncated = emit_chunk (footer count 0 truncated)
  finish_rows (some e) count truncated = driver_error e

  -- The loop over the rows.
  unfoldable pub stream_rows :
      ℕ → (ℕ → Option DriverError) → ℕ → List (Option (List Bytes × List Bool)) → Emission
  unfolding classify_driver_error
  stream_rows limit behind count [] = finish_rows (behind count) count false
  stream_rows limit behind count (none ∷ rows) =
      if leb limit count then finish_rows (behind count) count true else emit_chunk (error e_scan 0)
  stream_rows limit behind count (some (cells, is_null) ∷ rows) =
      let rest = stream_rows limit behind (suc count) rows in
      if leb limit count
      then finish_rows (behind count) count true
      else emit_then (row cells is_null) rest

  -- What `runQuery` emits for a result set.
  unfoldable pub stream_result : ℕ → ResultSet → Emission
  unfolding stream_rows
  stream_result limit rs = elim rs.columns [
    | none ↦ emit_chunk (error e_columns 0)
    | some columns ↦ elim rs.column_types [
      | none ↦ emit_chunk (error e_column_types 0)
      | some types ↦ emit_then (header columns types) (stream_rows limit rs.error_behind 0 rs.rows)
    ]
  ]

  abbrev pub query_result : ℕ → Outcome DriverError ResultSet → Emission
  query_result limit (err e) = driver_error e
  query_result limit (ok rs) = stream_result limit rs

  abbrev pub exec_result : Outcome DriverError ℤ → Emission
  exec_result (err e) = driver_error e
  exec_result (ok affected) =
      emit_then (header (codes "affected_rows" ∷ []) (codes "int64" ∷ []))
        (emit_chunk (footer 0 (max_int64 affected) false))
