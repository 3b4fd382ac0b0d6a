-- ===== src/Database/Token/Issued.antt =====
-- Tokens that the agent accepts, and when it accepts none.
use cloudnan_agent.Text.Case.Laws.{bytes_equal_self}
use cloudnan_agent.Base.{
  ℕ, ℤ, leb_int, true, false, not, [], ◌∷◌, ◌++◌, some, ltb, length, all, ◌≤◌, ◌<◌, ◌≡◌, refl,
  arith, inl, inr, Bool-cases, ◌==◌, Bytes, ok,
}
use cloudnan_agent.Database.Token.{
  op_token_min_secret_len, OpToken, SecretStore, Codec, check_claims, open_token, verify_op_token,
  set_op_token_secret,
}
use cloudnan_agent.Database.Token.Binding.{dot, verify_op_token-Authorizes}
use cloudnan_agent.Text.Case.{bytes_equal}
use cloudnan_agent.Text.Lines.Laws.{split_byte-around}

token_not_empty : (a : Bytes) (c : ℕ) (b : Bytes) → bytes_equal (a ++ (c ∷ b)) [] ≡ false
unfolding bytes_equal
token_not_empty [] c b = refl
token_not_empty (d ∷ a) c b = refl

long_enough : (n : ℕ) → op_token_min_secret_len ≤ n → ltb n op_token_min_secret_len ≡ false
long_enough n h = ground arith

check_claims_of :
    (store : SecretStore) (now : ℤ) (p : OpToken)
    → p.agent_id ≡ store.own_id
    → leb_int p.expires_at now ≡ false
    → check_claims store now p.op p.instance_id p.target p ≡ ok tt
unfolding check_claims
check_claims_of store now p a h =
    rw
      (
        a,
        bytes_equal_self store.own_id,
        bytes_equal_self p.op,
        bytes_equal_self p.instance_id,
        bytes_equal_self p.target,
        h,
      )
      refl

module _ (codec : Codec) (c : ℕ) (id secret : Bytes) (now : ℤ) where
  abbrev pub store : SecretStore
  store = record { secret = secret; own_id = c ∷ id }

  open_token_of :
      (first second payload : Bytes) (p : OpToken)
      → op_token_min_secret_len ≤ length secret
      → all (λ b. not (b == dot)) first ≡ true
      → all (λ b. not (b == dot)) second ≡ true
      → codec.decode first ≡ some payload
      → codec.decode second ≡ some (codec.mac secret payload)
      → codec.unmarshal payload ≡ some p
      → open_token codec store now (first ++ (dot ∷ second)) ≡ ok p
  unfolding open_token
  open_token_of first second payload p long no_dot no_dot' decoded signed parsed =
      rw
        (
          token_not_empty first dot second,
          long_enough (length secret) long,
          split_byte-around first second dot no_dot no_dot',
        )
        (rw (decoded, signed, bytes_equal_self (codec.mac secret payload), parsed) refl)

  -- A token of two parts without dots is accepted for what its payload says, if the parts
  -- decode to the payload and to its signature under a secret of at least 32 bytes, and the
  -- payload parses, names the agent, whose id is not empty, and has not expired.
  pub verify_op_token-issued :
      (first second payload : Bytes) (p : OpToken)
      → op_token_min_secret_len ≤ length secret
      → all (λ b. not (b == dot)) first ≡ true
      → all (λ b. not (b == dot)) second ≡ true
      → codec.decode first ≡ some payload
      → codec.decode second ≡ some (codec.mac secret payload)
      → codec.unmarshal payload ≡ some p
      → p.agent_id ≡ c ∷ id
      → leb_int p.expires_at now ≡ false
      → verify_op_token codec store now (first ++ (dot ∷ second)) p.op p.instance_id p.target
        ≡ ok tt
  unfolding verify_op_token
  verify_op_token-issued first second payload p long no_dot no_dot' decoded signed parsed agent
        live =
      rw (open_token_of first second payload p long no_dot no_dot' decoded signed parsed)
        (check_claims_of store now p agent live)

short_secret :
    (secret : Bytes) (s : SecretStore)
    → length secret < op_token_min_secret_len
    → length (set_op_token_secret secret s).secret < op_token_min_secret_len
unfolding set_op_token_secret
short_secret secret s h = elim (Bool-cases (ltb (length secret) op_token_min_secret_len)) [
  | inl e ↦ rw e (omega arith)
  | inr e ↦ absurd (ground arith)
]

-- No token is accepted behind setting a secret of fewer than 32 bytes, whatever was stored
-- before.
pub set_op_token_secret-short :
    (codec : Codec) (s : SecretStore) (now : ℤ) (secret token op instance_id target : Bytes)
    → length secret < op_token_min_secret_len
    → ¬ (
        verify_op_token codec (set_op_token_secret secret s) now token op instance_id target
        ≡ ok tt)
set_op_token_secret-short codec s now secret token op instance_id target h k =
    let a =
      verify_op_token-Authorizes codec (set_op_token_secret secret s) now token op instance_id
        target k in
    omega (arith, a.secret_length, short_secret secret s h)
