-- ===== src/Database/Token/Examples.antt =====
-- The token theorems at a concrete token; the codec of the tests leaves texts as they are.
use cloudnan_agent.Base.{pos, some, Bytes, codes, ok, ◌≡◌, refl, arith}
use cloudnan_agent.Database.Token.Binding.{
  Authorizes, verify_op_token-Authorizes, verify_op_token_unique,
}
use cloudnan_agent.Database.Token.Issued.{verify_op_token-issued, set_op_token_secret-short}
use cloudnan_agent.Database.Token.{
  OpToken, SecretStore, Codec, verify_op_token, set_op_token_secret,
}

abbrev drop_sales : OpToken
drop_sales = record {
  op = codes "drop_db";
  agent_id = codes "a1";
  instance_id = codes "i1";
  target = codes "sales";
  expires_at = pos 100;
}

abbrev plain_codec : Codec
plain_codec = record {
  decode = λ t. some t;
  mac = λ secret payload. payload;
  unmarshal = λ payload. some drop_sales;
}

abbrev long_secret : Bytes
long_secret = codes "0123456789abcdef0123456789abcdef"

abbrev own : SecretStore
own = record { secret = long_secret; own_id = codes "a1" }

accepted_test :
    verify_op_token plain_codec own
      (pos 50)
      (codes "x.x")
      (codes "drop_db")
      (codes "i1")
      (codes "sales")
    ≡ ok tt
unfolding verify_op_token
accepted_test = refl

verify_op_token-Authorizes_example :
    Authorizes plain_codec own (pos 50) (codes "x.x") (codes "drop_db") (codes "i1") (codes "sales")
verify_op_token-Authorizes_example =
    verify_op_token-Authorizes plain_codec own (pos 50) (codes "x.x") (codes "drop_db") (codes "i1")
      (codes "sales") accepted_test

verify_op_token_unique_example :
    (codes "drop_db" ≡ codes "drop_db")
    × (codes "i1" ≡ codes "i1")
    × (codes "sales" ≡ codes "sales")
verify_op_token_unique_example =
    verify_op_token_unique plain_codec own (pos 50) (codes "x.x") (codes "drop_db") (codes "i1")
      (codes "sales") (codes "drop_db") (codes "i1") (codes "sales") accepted_test accepted_test

verify_op_token-issued_example :
    verify_op_token plain_codec own
      (pos 50)
      (codes "x.x")
      (codes "drop_db")
      (codes "i1")
      (codes "sales")
    ≡ ok tt
verify_op_token-issued_example =
    verify_op_token-issued plain_codec b'a' (codes "1") long_secret (pos 50) (codes "x") (codes "x")
      (codes "x") drop_sales (omega arith) refl refl refl refl refl refl refl

set_op_token_secret-short_example : ¬ (
    verify_op_token plain_codec
      (set_op_token_secret (codes "short") own)
      (pos 50)
      (codes "x.x")
      (codes "drop_db")
      (codes "i1")
      (codes "sales")
    ≡ ok tt)
set_op_token_secret-short_example =
    set_op_token_secret-short plain_codec own (pos 50) (codes "short") (codes "x.x")
      (codes "drop_db") (codes "i1") (codes "sales") (omega arith)
