-- ===== src/Database/Token/Binding.antt =====
-- What an accepted token proves.
use cloudnan_agent.Base.{
  ℕ, ℤ, leb_int, Bool, true, false, not, List, [], ◌∷◌, ◌++◌, Option, none, some, ltb, length, ◌≤◌,
  ◌≡◌, refl, ap, sym, ◌∙◌, arith, inl, inr, Bool-cases, ==_iff, ◌==◌, Bytes, ok, bind-eq-ok,
}
use cloudnan_agent.Database.Token.{
  op_token_min_secret_len, OpToken, SecretStore, TokenError, Codec, refuse_if, require, two_parts,
  check_claims, open_token, verify_op_token, no_secret,
}
use cloudnan_agent.Text.Case.{bytes_equal}
use cloudnan_agent.Text.Lines.Laws.{split_byte-two}
use cloudnan_agent.Text.Lines.{split_byte}

abbrev pub dot : ℕ
dot = b'.'

pub same_bytes : (a b : Bytes) → not (bytes_equal a b) ≡ false → a ≡ b
unfolding bytes_equal
same_bytes [] [] h = refl
same_bytes [] (d ∷ b) h = cc
same_bytes (c ∷ a) [] h = cc
same_bytes (c ∷ a) (d ∷ b) h = elim (Bool-cases (c == d)) [
  | inl e ↦ ap (λ x. x ∷ a) ((==_iff c d).0 e) ∙ ap (◌∷◌ d) (same_bytes a b (rw e at h))
  | inr e ↦ absurd (cc (rw e at h))
]

pub refuse_if-ok : (b : Bool) (e : TokenError) {u : Unit {0}} → refuse_if b e ≡ ok u → b ≡ false
refuse_if-ok true e h = cc
refuse_if-ok false e h = refl

pub require-ok {ℓ} :
    {A : Type ℓ} (o : Option A) (e : TokenError) {a : A} → require o e ≡ ok a → o ≡ some a
require-ok none e h = cc
require-ok (some a) e h = cc

-- The token is payload and signature around a dot, the signature is that of the payload under the
-- agent's secret, and the payload says the agent, operation, instance and target.
pub record Authorizes (codec : Codec) (store : SecretStore) (now : ℤ)
    (token op instance_id target : Bytes) : Type 0 where
  pub claims : OpToken
  pub payload : Bytes
  pub first : Bytes
  pub second : Bytes
  pub spelled : token ≡ first ++ (dot ∷ second)
  pub decoded : codec.decode first ≡ some payload
  pub signed : codec.decode second ≡ some (codec.mac store.secret payload)
  pub parsed : codec.unmarshal payload ≡ some claims
  pub this_agent : claims.agent_id ≡ store.own_id
  pub this_op : claims.op ≡ op
  pub this_instance : claims.instance_id ≡ instance_id
  pub this_target : claims.target ≡ target
  pub in_time : leb_int claims.expires_at now ≡ false
  pub secret_length : op_token_min_secret_len ≤ length store.secret

check_claims-ok :
    (store : SecretStore) (now : ℤ) (op instance_id target : Bytes) (p : OpToken) (u : Unit {0})
    → check_claims store now op instance_id target p ≡ ok u
    → (p.agent_id ≡ store.own_id)
      × (p.op ≡ op)
      × (p.instance_id ≡ instance_id)
      × (p.target ≡ target)
      × (leb_int p.expires_at now ≡ false)
unfolding check_claims
check_claims-ok store now op instance_id target p u h =
    let (u1, h1, k1) = bind-eq-ok (refuse_if (not (bytes_equal p.agent_id store.own_id)) _) _ h in
    let (u2, h2, k2) = bind-eq-ok (refuse_if (not (bytes_equal p.op op)) _) _ k1 in
    let (u3, h3, k3) =
      bind-eq-ok (refuse_if (not (bytes_equal p.instance_id instance_id)) _) _ k2 in
    let (u4, h4, k4) = bind-eq-ok (refuse_if (not (bytes_equal p.target target)) _) _ k3 in
    (
      same_bytes p.agent_id store.own_id (refuse_if-ok _ _ h1),
      same_bytes p.op op (refuse_if-ok _ _ h2),
      same_bytes p.instance_id instance_id (refuse_if-ok _ _ h3),
      same_bytes p.target target (refuse_if-ok _ _ h4),
      refuse_if-ok _ _ k4,
    )

two_parts-ok : (parts : List Bytes) (a b : Bytes) → two_parts parts ≡ ok (a, b) → parts ≡ a ∷ b ∷ []
two_parts-ok [] a b h = cc
two_parts-ok (x ∷ []) a b h = cc
two_parts-ok (x ∷ y ∷ []) a b h = cc
two_parts-ok (x ∷ y ∷ z ∷ parts) a b h = cc

module _ (codec : Codec) (store : SecretStore) (now : ℤ) where
  -- The token around its dot, under a good signature.
  record Opened (token : Bytes) (p : OpToken) : Type 0 where
    payload : Bytes
    first : Bytes
    second : Bytes
    spelled : token ≡ first ++ (dot ∷ second)
    decoded : codec.decode first ≡ some payload
    signed : codec.decode second ≡ some (codec.mac store.secret payload)
    parsed : codec.unmarshal payload ≡ some p
    secret_length : op_token_min_secret_len ≤ length store.secret

  open_token-ok :
      (token : Bytes) (p : OpToken) → open_token codec store now token ≡ ok p → Opened token p
  unfolding open_token
  open_token-ok token p h =
      let (u1, h1, k1) = bind-eq-ok (refuse_if (bytes_equal token []) _) _ h in
      let (u2, h2, k2) =
        bind-eq-ok (refuse_if (ltb (length store.secret) op_token_min_secret_len) _) _ k1 in
      let (u3, h3, k3) = bind-eq-ok (refuse_if (bytes_equal store.own_id []) _) _ k2 in
      let ((first, second), h4, k4) = bind-eq-ok (two_parts (split_byte token b'.')) _ k3 in
      let (payload, h5, k5) = bind-eq-ok (require (codec.decode first) _) _ k4 in
      let (signature, h6, k6) = bind-eq-ok (require (codec.decode second) _) _ k5 in
      let (u7, h7, k7) =
        bind-eq-ok (refuse_if (not (bytes_equal signature (codec.mac store.secret payload))) _) _
          k6 in
      let long = refuse_if-ok (ltb (length store.secret) op_token_min_secret_len) no_secret h2 in
      record {
        payload = payload;
        first = first;
        second = second;
        spelled =
            split_byte-two token first second dot
              (two_parts-ok (split_byte token dot) first second h4);
        decoded = require-ok (codec.decode first) _ h5;
        signed =
            require-ok (codec.decode second) _ h6
            ∙ ap some (same_bytes signature (codec.mac store.secret payload) (refuse_if-ok _ _ h7));
        parsed = require-ok (codec.unmarshal payload) _ k7;
        secret_length = ground arith;
      }

  -- An accepted token is a payload and a signature around a dot, the signature is that of the
  -- payload under the secret of the agent, which has at least 32 bytes, and the payload names
  -- this agent, the operation, the instance and the target that were expected and has not
  -- expired.
  pub verify_op_token-Authorizes :
      (token op instance_id target : Bytes)
      → verify_op_token codec store now token op instance_id target ≡ ok tt
      → Authorizes codec store now token op instance_id target
  unfolding verify_op_token
  verify_op_token-Authorizes token op instance_id target h =
      let (p, h1, k1) =
        bind-eq-ok (open_token codec store now token) (check_claims store now op instance_id target)
          h in
      let (same_agent, same_op, same_instance, same_target, live) =
        check_claims-ok store now op instance_id target p tt k1 in
      let o = open_token-ok token p h1 in
      record {
        claims = p;
        payload = o.payload;
        first = o.first;
        second = o.second;
        spelled = o.spelled;
        decoded = o.decoded;
        signed = o.signed;
        parsed = o.parsed;
        this_agent = same_agent;
        this_op = same_op;
        this_instance = same_instance;
        this_target = same_target;
        in_time = live;
        secret_length = o.secret_length;
      }

  -- A token that is accepted for two triples of operation, instance and target, by one agent
  -- at one time, is accepted for the same triple.
  pub verify_op_token_unique :
      (token op instance_id target op' instance_id' target' : Bytes)
      → verify_op_token codec store now token op instance_id target ≡ ok tt
      → verify_op_token codec store now token op' instance_id' target' ≡ ok tt
      → (op ≡ op') × (instance_id ≡ instance_id') × (target ≡ target')
  unfolding verify_op_token
  verify_op_token_unique token op instance_id target op' instance_id' target' h k =
      let (p, h1, h2) =
        bind-eq-ok (open_token codec store now token) (check_claims store now op instance_id target)
          h in
      let (q, k1, k2) =
        bind-eq-ok (open_token codec store now token)
          (check_claims store now op' instance_id' target') k in
      let (a1, o1, i1, t1, l1) = check_claims-ok store now op instance_id target p tt h2 in
      let (a2, o2, i2, t2, l2) = check_claims-ok store now op' instance_id' target' q tt k2 in
      let same : p ≡ q = cc in
      (
        sym o1 ∙ ap (λ x. x.op) same ∙ o2,
        sym i1 ∙ ap (λ x. x.instance_id) same ∙ i2,
        sym t1 ∙ ap (λ x. x.target) same ∙ t2,
      )
