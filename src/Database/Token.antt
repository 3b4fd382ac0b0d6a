-- ===== src/Database/Token.antt =====
-- internal/database/token.go: confirmation tokens of the destructive operations. Base64, HMAC-SHA256
-- and JSON are parameters.
pub mod Binding
pub mod Issued
mod Examples
use cloudnan_agent.Base.{
  ℕ, ℤ, leb_int, Bool, true, false, ◌||◌, not, List, [], ◌∷◌, Option, none, some, if◌then◌else◌,
  ltb, leb, length, Bytes, codes, Outcome, ok, err, ◌>>=◌,
}
use cloudnan_agent.Text.Case.{bytes_equal}
use cloudnan_agent.Text.Lines.{split_byte}
use cloudnan_agent.Text.Space.{trim_space}

abbrev pub op_token_min_secret_len : ℕ
op_token_min_secret_len = 32

pub record OpToken : Type 0 where
  pub op : Bytes
  pub agent_id : Bytes
  pub instance_id : Bytes
  pub target : Bytes
  pub expires_at : ℤ  -- seconds since 1970

pub record SecretStore : Type 0 where
  pub secret : Bytes
  pub own_id : Bytes  -- `agentID`

unfoldable pub set_op_token_secret : Bytes → SecretStore → SecretStore
set_op_token_secret secret s =
    if ltb (length secret) op_token_min_secret_len
    then record s { secret = [] }
    else record s { secret = secret }

unfoldable pub set_agent_id : Bytes → SecretStore → SecretStore
unfolding trim_space
set_agent_id id s = record s { own_id = trim_space id }

pub data TokenError : Type 0 where
  missing_token no_secret no_agent_id malformed_token malformed_payload malformed_signature :
      TokenError
  signature_mismatch payload_unmarshal other_agent other_op other_instance other_target expired :
      TokenError

-- What the agent calls: `base64.RawURLEncoding.DecodeString`, HMAC-SHA256 under a key, and
-- `json.Unmarshal` into a token.
pub record Codec : Type 0 where
  pub decode : Bytes → Option Bytes
  pub mac : Bytes → Bytes → Bytes
  pub unmarshal : Bytes → Option OpToken

abbrev pub refuse_if : Bool → TokenError → Outcome TokenError (Unit {0})
refuse_if b e = if b then err e else ok tt

abbrev pub require {ℓ} : {A : Type ℓ} → Option A → TokenError → Outcome TokenError A
require none e = err e
require (some a) e = ok a

-- The two parts around the only dot.
abbrev pub two_parts : List Bytes → Outcome TokenError (Bytes × Bytes)
two_parts (payload ∷ signature ∷ []) = ok (payload, signature)
two_parts _ = err malformed_token

-- What the token must say.
unfoldable pub check_claims :
    SecretStore → ℤ → Bytes → Bytes → Bytes → OpToken → Outcome TokenError (Unit {0})
unfolding bytes_equal
check_claims store now op instance_id target p = do
  _ ← refuse_if (not (bytes_equal p.agent_id store.own_id)) other_agent
  _ ← refuse_if (not (bytes_equal p.op op)) other_op
  _ ← refuse_if (not (bytes_equal p.instance_id instance_id)) other_instance
  _ ← refuse_if (not (bytes_equal p.target target)) other_target
  refuse_if (leb_int p.expires_at now) expired

module _ (codec : Codec) (store : SecretStore) (now : ℤ) where
  -- The payload that the token carries under a good signature.
  unfoldable pub open_token : Bytes → Outcome TokenError OpToken
  unfolding split_byte bytes_equal
  open_token token = do
    _ ← refuse_if (bytes_equal token []) missing_token
    _ ← refuse_if (ltb (length store.secret) op_token_min_secret_len) no_secret
    _ ← refuse_if (bytes_equal store.own_id []) no_agent_id
    (first, second) ← two_parts (split_byte token b'.')
    payload ← require (codec.decode first) malformed_payload
    signature ← require (codec.decode second) malformed_signature
    _ ← refuse_if (not (bytes_equal signature (codec.mac store.secret payload))) signature_mismatch
    require (codec.unmarshal payload) payload_unmarshal

  unfoldable pub verify_op_token : Bytes → Bytes → Bytes → Bytes → Outcome TokenError (Unit {0})
  unfolding open_token check_claims
  verify_op_token token op instance_id target =
      open_token token >>= check_claims store now op instance_id target
