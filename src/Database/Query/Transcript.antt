-- ===== src/Database/Query/Transcript.antt =====
-- The order of the chunks that answer a query.
use cloudnan_agent.Base.{
  ℕ, suc, ◌≤◌, ◌<◌, ℤ, Bool, true, false, List, [], ◌∷◌, Option, none, some, Bytes, Outcome, ok,
  err, length, leb, ◌==◌, ◌≡◌, refl, inl, inr, arith, Bool-cases,
}
use cloudnan_agent.Database.Classify.Strip.{SqlError}
use cloudnan_agent.Database.Classify.With.{
  StatementKind, statement_unknown, statement_read, statement_write,
}
use cloudnan_agent.Database.Classify.{classify_statement}
use cloudnan_agent.Database.Query.{
  Request, Code, Chunk, header, row, footer, error, Backend, DriverError, ResultSet, Emission,
  query_row_limit_max, finish_rows, stream_rows, stream_result, query_result, exec_result,
  e_columns, e_column_types, emit_chunk, emit_then,
}
use cloudnan_agent.Database.Query.Operation.{
  op_name, row_limit_of, opened_instance, execute_read, execute_write, with_token, by_kind,
  op_exec_query,
}
use cloudnan_agent.Database.Token.{TokenError, SecretStore, Codec, verify_op_token}

-- Rows behind `count` of them, not more than the limit in all, and at the end the footer, which gives
-- their number, or an error.
pub data Rows (limit : ℕ) : ℕ → List Chunk → Type 0 where
  closed_by :
      (count affected : ℕ) (truncated : Bool)
      → Rows limit count (footer count affected truncated ∷ [])
  broken_by : (count : ℕ) (code : Code) (line : ℕ) → Rows limit count (error code line ∷ [])
  one_row :
      (count : ℕ) (cells : List Bytes) (is_null : List Bool) {chunks : List Chunk}
      → count < limit
      → Rows limit (suc count) chunks
      → Rows limit count (row cells is_null ∷ chunks)

-- One error, or a header and rows.
pub data Transcript (limit : ℕ) : List Chunk → Type 0 where
  refused : (code : Code) (line : ℕ) → Transcript limit (error code line ∷ [])
  answered :
      (columns types : List Bytes) {chunks : List Chunk}
      → Rows limit 0 chunks
      → Transcript limit (header columns types ∷ chunks)

abbrev any_chunk : Chunk → Bool
any_chunk c = true

-- Everything was emitted, in order.
abbrev pub IsAnswer : ℕ → Emission → Type 0
IsAnswer limit e = Transcript limit e.0 × (e.1 ≡ false)

abbrev IsRows : ℕ → ℕ → Emission → Type 0
IsRows limit count e = Rows limit count e.0 × (e.1 ≡ false)

finish_rows-IsRows :
    (limit count : ℕ) (o : Option DriverError) (truncated : Bool)
    → IsRows limit count (finish_rows any_chunk o count truncated)
finish_rows-IsRows limit count none truncated = (closed_by count 0 truncated, refl)
finish_rows-IsRows limit count (some e) truncated = (broken_by count _ _, refl)

stream_rows-IsRows :
    (limit most : ℕ) (behind : ℕ → Option DriverError) (count : ℕ)
    (rows : List (Option (List Bytes × List Bool)))
    → limit ≤ most
    → IsRows most count (stream_rows any_chunk limit behind count rows)
unfolding stream_rows
stream_rows-IsRows limit most behind count [] h = finish_rows-IsRows most count (behind count) false
stream_rows-IsRows limit most behind count (none ∷ rows) h = elim (Bool-cases (leb limit count)) [
  | inl e ↦ rw e (finish_rows-IsRows most count (behind count) true)
  | inr e ↦ rw e (broken_by count _ _, refl)
]
stream_rows-IsRows limit most behind count (some (cells, is_null) ∷ rows) h =
    let (rest, sent) = stream_rows-IsRows limit most behind (suc count) rows h in
    elim (Bool-cases (leb limit count)) [
      | inl e ↦ rw e (finish_rows-IsRows most count (behind count) true)
      | inr e ↦ rw e (one_row count cells is_null (ground arith) rest, sent)
    ]

stream_result-IsAnswer :
    (limit most : ℕ) (rs : ResultSet)
    → limit ≤ most
    → IsAnswer most (stream_result any_chunk limit rs)
unfolding stream_result
stream_result-IsAnswer limit most rs h = by_columns rs.columns rs.column_types
  where
    by_columns :
        (columns types : Option (List Bytes))
        → IsAnswer most (elim columns [
          | none ↦ emit_chunk any_chunk (error e_columns 0)
          | some columns ↦ elim types [
            | none ↦ emit_chunk any_chunk (error e_column_types 0)
            | some types ↦
                emit_then any_chunk
                  (header columns types)
                  (stream_rows any_chunk limit rs.error_behind 0 rs.rows)
          ]
        ])
    by_columns none types = (refused _ _, refl)
    by_columns (some columns) none = (refused _ _, refl)
    by_columns (some columns) (some types) =
        let (rows, sent) = stream_rows-IsRows limit most rs.error_behind 0 rs.rows h in
        (answered columns types rows, sent)

query_result-IsAnswer :
    (limit most : ℕ) (r : Outcome DriverError ResultSet)
    → limit ≤ most
    → IsAnswer most (query_result any_chunk limit r)
query_result-IsAnswer limit most (err e) h = (refused _ _, refl)
query_result-IsAnswer limit most (ok rs) h = stream_result-IsAnswer limit most rs h

exec_result-IsAnswer :
    (most : ℕ) (r : Outcome DriverError ℤ) → IsAnswer most (exec_result any_chunk r)
exec_result-IsAnswer most (err e) = (refused _ _, refl)
exec_result-IsAnswer most (ok affected) = (answered _ _ (closed_by 0 _ false), refl)

row_limit_bounded : (req : Request) → row_limit_of req ≤ query_row_limit_max
row_limit_bounded req = ground arith

module _ {State Conn : Type 0} (unicode_lower : Bytes → Bytes) (codec : Codec) (store : SecretStore)
    (now : ℤ) (b : Backend State Conn) where
  Answers : State × Emission → Type 0
  Answers r = IsAnswer query_row_limit_max r.1

  execute_read-Answers :
      (req : Request) (r : State × Option Conn)
      → Answers (execute_read unicode_lower codec store now any_chunk b req r)
  unfolding Answers
  execute_read-Answers req (s, none) = (refused _ _, refl)
  execute_read-Answers req (s, some conn) =
      query_result-IsAnswer (row_limit_of req) query_row_limit_max _ (row_limit_bounded req)

  execute_write-Answers :
      (req : Request) (r : State × Option Conn)
      → Answers (execute_write unicode_lower codec store now any_chunk b req r)
  unfolding Answers
  execute_write-Answers req (s, none) = (refused _ _, refl)
  execute_write-Answers req (s, some conn) = exec_result-IsAnswer query_row_limit_max _

  with_token-Answers :
      (req : Request) (s : State) (r : Outcome TokenError (Unit {0}))
      → Answers (with_token unicode_lower codec store now any_chunk b req s r)
  with_token-Answers req s (err e) = unfold Answers in (refused _ _, refl)
  with_token-Answers req s (ok u) =
      execute_write-Answers req (opened_instance unicode_lower codec store now any_chunk b req s)

  by_kind-Answers :
      (req : Request) (s : State) (v : Option (Outcome SqlError StatementKind))
      → Answers (by_kind unicode_lower codec store now any_chunk b req s v)
  by_kind-Answers req s none = unfold Answers in (refused _ _, refl)
  by_kind-Answers req s (some (err e)) = unfold Answers in (refused _ _, refl)
  by_kind-Answers req s (some (ok statement_unknown)) =
      execute_write-Answers req (opened_instance unicode_lower codec store now any_chunk b req s)
  by_kind-Answers req s (some (ok statement_read)) =
      execute_read-Answers req (opened_instance unicode_lower codec store now any_chunk b req s)
  by_kind-Answers req s (some (ok statement_write)) = elim (Bool-cases req.read_only) [
    | inl e ↦ rw e (unfold Answers in (refused _ _, refl))
    | inr e ↦ rw e (
        with_token-Answers req s
          (verify_op_token codec store now req.confirmation_token op_name req.instance_id []))
  ]

  -- If every chunk can be marshalled, every query request, an absent one too, is answered by
  -- one error, or by a header, at most 100000 rows and then an error or the footer with the
  -- number of the rows in front of it.
  pub op_exec_query-IsAnswer :
      (req : Option Request) (s : State)
      → IsAnswer query_row_limit_max
          (op_exec_query unicode_lower codec store now (λ c. true) b req s).1
  unfolding op_exec_query Answers
  op_exec_query-IsAnswer none s = (refused _ _, refl)
  op_exec_query-IsAnswer (some req) s = elim (Bool-cases (length req.sql == 0)) [
    | inl e ↦ rw e (refused _ _, refl)
    | inr e ↦ elim (Bool-cases (length req.instance_id == 0)) [
      | inl f ↦ rw (e, f) (refused _ _, refl)
      | inr f ↦ rw (e, f) (by_kind-Answers req s (classify_statement unicode_lower req.sql))
    ]
  ]
