-- ===== src/Database/Query/Gate.antt =====
-- How the backend executes statements plays no part in a query request, unless the classifier calls
-- the statement a write, the request is not read-only and its token authorizes it. Reads, and what
-- the classifier takes for one, need no token.
use cloudnan_agent.Base.{
  ℕ, ℤ, Bool, true, false, [], Option, none, some, Bytes, Outcome, ok, err, ◌≡◌, ◌⊎◌, inl, inr,
  refl, Bool-cases,
}
use cloudnan_agent.Database.Classify.Strip.{SqlError}
use cloudnan_agent.Database.Classify.With.{
  StatementKind, statement_unknown, statement_read, statement_write,
}
use cloudnan_agent.Database.Classify.Known.{known_verdict, classify_statement-known}
use cloudnan_agent.Database.Classify.{classify_statement}
use cloudnan_agent.Database.Query.{Request, Chunk, Backend, DriverError}
use cloudnan_agent.Database.Query.Operation.{op_name, with_token, by_kind, op_exec_query}
use cloudnan_agent.Database.Token.Binding.{Authorizes, verify_op_token-Authorizes}
use cloudnan_agent.Database.Token.{TokenError, SecretStore, Codec, verify_op_token}

-- Why a statement may be executed.
pub record MayExecute (unicode_lower : Bytes → Bytes) (codec : Codec) (store : SecretStore)
    (now : ℤ) (req : Request) : Type 0 where
  pub writes : classify_statement unicode_lower req.sql ≡ some (ok statement_write)
  pub not_read_only : req.read_only ≡ false
  pub authorized : Authorizes codec store now req.confirmation_token op_name req.instance_id []

module _ {State Conn : Type 0} (unicode_lower : Bytes → Bytes) (codec : Codec) (store : SecretStore)
    (now : ℤ) (marshals : Chunk → Bool) where
  -- The backend with another way to execute.
  abbrev pub with_exec :
      (Conn → Bytes → ℕ → State → State × Outcome DriverError ℤ)
      → Backend State Conn
      → Backend State Conn
  with_exec exec b = record b { exec_context = exec }

  -- The state and the answer are the same whatever `ExecContext` would do.
  abbrev pub NeverExecutes : Backend State Conn → Request → State → Type 0
  NeverExecutes b req s =
      (exec : Conn → Bytes → ℕ → State → State × Outcome DriverError ℤ)
      → op_exec_query unicode_lower codec store now marshals (with_exec exec b) (some req) s
        ≡ op_exec_query unicode_lower codec store now marshals b (some req) s

  by_token :
      (b : Backend State Conn) (req : Request) (s : State)
      → (r : Outcome TokenError (Unit {0}))
      → ((exec : Conn → Bytes → ℕ → State → State × Outcome DriverError ℤ)
          → with_token unicode_lower codec store now marshals (with_exec exec b) req s r
            ≡ with_token unicode_lower codec store now marshals b req s r)
        ⊎ (r ≡ ok tt)
  by_token b req s (err e) = inl λ exec. refl
  by_token b req s (ok u) = inr refl

  -- The classifier's answers, one by one.
  by_verdict :
      (b : Backend State Conn) (req : Request) (s : State)
      (v : Option (Outcome SqlError StatementKind))
      → known_verdict v ≡ true
      → ((exec : Conn → Bytes → ℕ → State → State × Outcome DriverError ℤ)
          → by_kind unicode_lower codec store now marshals (with_exec exec b) req s v
            ≡ by_kind unicode_lower codec store now marshals b req s v)
        ⊎ ((v ≡ some (ok statement_write))
            × (req.read_only ≡ false)
            × (verify_op_token codec store now req.confirmation_token op_name req.instance_id []
                ≡ ok tt))
  by_verdict b req s none h = inl λ exec. refl
  by_verdict b req s (some (err e)) h = inl λ exec. refl
  by_verdict b req s (some (ok statement_unknown)) h = cc
  by_verdict b req s (some (ok statement_read)) h = inl λ exec. refl
  by_verdict b req s (some (ok statement_write)) h = elim (Bool-cases req.read_only) [
    | inl e ↦ inl λ exec. rw e refl
    | inr e ↦
        elim (by_token b req s
          (verify_op_token codec store now req.confirmation_token op_name req.instance_id [])) [
            | inl same ↦ inl λ exec. rw e (same exec)
            | inr authorized ↦ inr (refl, e, authorized)
          ]
  ]

  op_exec_query-same :
      (b : Backend State Conn) (req : Request) (s : State)
      → ((exec : Conn → Bytes → ℕ → State → State × Outcome DriverError ℤ)
          → by_kind unicode_lower codec store now marshals
              (with_exec exec b)
              req
              s
              (classify_statement unicode_lower req.sql)
            ≡ by_kind unicode_lower codec store now marshals b req s
                (classify_statement unicode_lower req.sql))
      → NeverExecutes b req s
  unfolding op_exec_query
  op_exec_query-same b req s same exec = rw (same exec) refl

  -- The state and the answer of a query request do not depend on how the backend executes
  -- statements, unless the classifier calls the statement a write, the request is not read-
  -- only and its token authorizes exec_query on this agent and the instance of the request.
  pub op_exec_query-MayExecute :
      (b : Backend State Conn) (req : Request) (s : State)
      → NeverExecutes b req s ⊎ MayExecute unicode_lower codec store now req
  op_exec_query-MayExecute b req s =
      elim (by_verdict b req s (classify_statement unicode_lower req.sql)
        (classify_statement-known unicode_lower req.sql)) [
          | inl same ↦ inl (op_exec_query-same b req s same)
          | inr (w, r, a) ↦ inr record {
            writes = w;
            not_read_only = r;
            authorized =
                verify_op_token-Authorizes codec store now req.confirmation_token op_name
                  req.instance_id [] a;
          }
        ]
