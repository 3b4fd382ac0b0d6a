-- ===== src/Database/Query/Examples.antt =====
-- The query theorems at concrete requests; the backend of the tests counts its calls.
use cloudnan_agent.Base.{ℕ, suc, pos, true, false, [], ◌∷◌, none, some, codes, ok, ◌⊎◌}
use cloudnan_agent.Database.Query.Gate.{NeverExecutes, MayExecute, op_exec_query-MayExecute}
use cloudnan_agent.Database.Query.Operation.{op_exec_query}
use cloudnan_agent.Database.Query.Transcript.{IsAnswer, op_exec_query-IsAnswer}
use cloudnan_agent.Database.Query.{Request, Backend, ResultSet, query_row_limit_max}
use cloudnan_agent.Database.Token.{SecretStore, Codec}

abbrev no_codec : Codec
no_codec = record {
  decode = λ t. none;
  mac = λ secret payload. payload;
  unmarshal = λ payload. none;
}

abbrev no_store : SecretStore
no_store = record { secret = []; own_id = [] }

abbrev one_row_set : ResultSet
one_row_set = record {
  columns = some (codes "n" ∷ []);
  column_types = some (codes "INT" ∷ []);
  rows = some (codes "1" ∷ [], false ∷ []) ∷ [];
  error_behind = λ n. none;
}

abbrev counting : Backend ℕ (Unit {0})
counting = record {
  open_instance = λ i d s. (suc s, some tt);
  query_context = λ c q t s. (suc s, ok one_row_set);
  exec_context = λ c q t s. (suc s, ok (pos 1));
}

abbrev select_one : Request
select_one = record {
  instance_id = codes "i1";
  database_name = [];
  sql = codes "SELECT 1";
  read_only = true;
  confirmation_token = [];
  row_limit = 0;
  timeout_seconds = 0;
}

op_exec_query-MayExecute_example :
    NeverExecutes (λ s. s) no_codec no_store (pos 50) (λ c. true) counting select_one 0
    ⊎ MayExecute (λ s. s) no_codec no_store (pos 50) select_one
op_exec_query-MayExecute_example =
    op_exec_query-MayExecute (λ s. s) no_codec no_store (pos 50) (λ c. true) counting select_one 0

op_exec_query-IsAnswer_example :
    IsAnswer query_row_limit_max
      (op_exec_query (λ s. s) no_codec no_store (pos 50) (λ c. true) counting (some select_one) 0).1
op_exec_query-IsAnswer_example =
    op_exec_query-IsAnswer (λ s. s) no_codec no_store (pos 50) counting (some select_one) 0
