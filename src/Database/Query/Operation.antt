-- ===== src/Database/Query/Operation.antt =====
-- `opExecQuery` of internal/database/ops_query.go.
use cloudnan_agent.Base.{
  ℕ, ℤ, Bool, [], Option, none, some, if◌then◌else◌, Bytes, codes, Outcome, ok, err, length, ◌==◌,
}
use cloudnan_agent.Database.Classify.Strip.{SqlError}
use cloudnan_agent.Database.Classify.With.{
  StatementKind, statement_unknown, statement_read, statement_write,
}
use cloudnan_agent.Database.Classify.{classify_statement}
use cloudnan_agent.Database.Query.{
  Request, query_row_limit_default, query_row_limit_max, query_timeout_default, query_timeout_max,
  clamp, Chunk, error, Backend, Emission, emit_chunk, query_result, exec_result, e_invalid_request,
  e_read_only, e_parse, e_parse_fuel, e_token, e_open,
}
use cloudnan_agent.Database.Token.{TokenError, SecretStore, Codec, verify_op_token}

abbrev pub row_limit_of : Request → ℕ
row_limit_of req = clamp query_row_limit_default query_row_limit_max req.row_limit

abbrev pub timeout_of : Request → ℕ
timeout_of req = clamp query_timeout_default query_timeout_max req.timeout_seconds

abbrev pub op_name : Bytes
op_name = codes "exec_query"

module _ {State Conn : Type 0} (unicode_lower : Bytes → Bytes) (codec : Codec) (store : SecretStore)
    (now : ℤ) (marshals : Chunk → Bool) (backend : Backend State Conn) where
  abbrev pub refuse : Chunk → State → State × Emission
  refuse c s = (s, emit_chunk marshals c)

  abbrev pub execute_read : Request → State × Option Conn → State × Emission
  execute_read req (s, none) = refuse (error e_open 0) s
  execute_read req (s, some conn) =
      let (s', result) = backend.query_context conn req.sql (timeout_of req) s in
      (s', query_result marshals (row_limit_of req) result)

  abbrev pub execute_write : Request → State × Option Conn → State × Emission
  execute_write req (s, none) = refuse (error e_open 0) s
  execute_write req (s, some conn) =
      let (s', result) = backend.exec_context conn req.sql (timeout_of req) s in
      (s', exec_result marshals result)

  abbrev pub opened_instance : Request → State → State × Option Conn
  opened_instance req s = backend.open_instance req.instance_id req.database_name s

  -- The confirmation-token gate.
  abbrev pub with_token : Request → State → Outcome TokenError (Unit {0}) → State × Emission
  with_token req s (err e) = refuse (error (e_token e) 0) s
  with_token req s (ok _) = execute_write req (opened_instance req s)

  -- Behind the classifier; `none` is its fuel.
  abbrev pub by_kind : Request → State → Option (Outcome SqlError StatementKind) → State × Emission
  by_kind req s none = refuse (error e_parse_fuel 0) s
  by_kind req s (some (err e)) = refuse (error (e_parse e) 0) s
  by_kind req s (some (ok statement_read)) = execute_read req (opened_instance req s)
  by_kind req s (some (ok statement_unknown)) = execute_write req (opened_instance req s)
  by_kind req s (some (ok statement_write)) =
      if req.read_only
      then refuse (error e_read_only 0) s
      else with_token req s
          (verify_op_token codec store now req.confirmation_token op_name req.instance_id [])

  unfoldable pub op_exec_query : Option Request → State → State × Emission
  unfolding classify_statement verify_op_token
  op_exec_query none s = refuse (error e_invalid_request 0) s
  op_exec_query (some req) s =
      if length req.sql == 0
      then refuse (error e_invalid_request 0) s
      else if length req.instance_id == 0
      then refuse (error e_invalid_request 0) s
      else by_kind req s (classify_statement unicode_lower req.sql)
