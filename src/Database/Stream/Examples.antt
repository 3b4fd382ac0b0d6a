-- ===== src/Database/Stream/Examples.antt =====
-- A toy AEAD that marks a text with its additional data, and the theorems at small inputs.
use cloudnan_agent.Text.Case.Laws.{bytes_equal_self}
use cloudnan_agent.Base.{
  ℕ, zero, suc, ◌≤◌, true, false, List, [], ◌∷◌, ◌++◌, Option, none, some, ◌==◌, ◌≡◌, ◌≢◌, refl, ap,
  ◌∙◌, arith, length, Bytes, ok, err, take, drop, if◌then◌else◌, ==_iff, inl, inr, Bool-cases,
  length-append,
}
use mathlib.Core.Bool.{false≢true}
use cloudnan_agent.Text.Case.{bytes_equal}
use cloudnan_agent.Database.Stream.Decrypt.{next_frame, drain, new_decrypter, authenticate}
use cloudnan_agent.Database.Stream.Encrypt.{encrypt}
use cloudnan_agent.Database.Stream.Framed.{Framed, framed, frame, no_frames}
use cloudnan_agent.Database.Stream.Frames.{EndsIn, IsFrames, encrypt-EndsIn}
use cloudnan_agent.Database.Stream.Order.{next_frame-displaced}
use cloudnan_agent.Database.Stream.Reading.{whole, take_exactly, drop_exactly}
use cloudnan_agent.Database.Stream.RoundTrip.{drain-encrypt, drain-cut_nonce}
use cloudnan_agent.Database.Stream.{Aead}

abbrev pad : ℕ → Bytes → Bytes
pad zero a = []
pad (suc n) [] = 0 ∷ pad n []
pad (suc n) (c ∷ a) = c ∷ pad n a

length-pad : (n : ℕ) (a : Bytes) → length (pad n a) ≡ n
length-pad zero a = refl
length-pad (suc n) [] = omega (arith, length-pad n [])
length-pad (suc n) (c ∷ a) = omega (arith, length-pad n a)

bytes_equal-cons :
    (x y : ℕ) (xs ys : Bytes)
    → bytes_equal (x ∷ xs) (y ∷ ys) ≡ true
    → (x ≡ y) × (bytes_equal xs ys ≡ true)
unfolding bytes_equal
bytes_equal-cons x y xs ys h = elim (Bool-cases (x == y)) [
  | inl e ↦ ((==_iff x y).0 e, (rw e at h))
  | inr e ↦ absurd (false≢true (rw e at h))
]

pad-injective :
    (n : ℕ) (a b : Bytes)
    → length a ≤ n
    → length a ≡ length b
    → bytes_equal (pad n a) (pad n b) ≡ true
    → a ≡ b
pad-injective n [] [] h k e = refl
pad-injective n [] (d ∷ b) h k e = absurd (omega arith)
pad-injective n (c ∷ a) [] h k e = absurd (omega arith)
pad-injective zero (c ∷ a) (d ∷ b) h k e = absurd (omega arith)
pad-injective (suc n) (c ∷ a) (d ∷ b) h k e =
    let (same, rest) = bytes_equal-cons c d (pad n a) (pad n b) e in
    ap (λ x. x ∷ a) same
    ∙ ap (◌∷◌ d) (pad-injective n a b (omega (arith, h)) (omega (arith, k)) rest)

abbrev toy_seal : Bytes → Bytes → Bytes → Bytes
toy_seal nonce plain aad = pad 16 aad ++ plain

abbrev toy_unseal : Bytes → Bytes → Bytes → Option Bytes
toy_unseal nonce ct aad = if bytes_equal (take 16 ct) (pad 16 aad) then some (drop 16 ct) else none

toy_unseal_seal :
    (nonce plain aad other : Bytes)
    → toy_unseal nonce (toy_seal nonce plain aad) other
      ≡ (if bytes_equal (pad 16 aad) (pad 16 other) then some plain else none)
toy_unseal_seal nonce plain aad other =
    rw
      (
        take_exactly 16 (pad 16 aad) plain (length-pad 16 aad),
        drop_exactly 16 (pad 16 aad) plain (length-pad 16 aad),
      )
      refl

abbrev toy : Aead
toy = record {
  seal = toy_seal;
  unseal = toy_unseal;
  overhead = 16;
  overhead_eq = refl;
  unseal_seal = λ nonce plain aad.
      toy_unseal_seal nonce plain aad aad ∙ rw (bytes_equal_self (pad 16 aad)) refl;
  length_seal =
      λ nonce plain aad. omega (arith, length-append (pad 16 aad) plain, length-pad 16 aad);
}

different :
    (a b : Bytes) → length a ≡ 8 → length b ≡ 8 → a ≢ b → bytes_equal (pad 16 a) (pad 16 b) ≡ false
different a b ha hb d = elim (Bool-cases (bytes_equal (pad 16 a) (pad 16 b))) [
  | inl e ↦ absurd (d (pad-injective 16 a b (omega arith) (omega arith) e))
  | inr e ↦ e
]

toy_authentic :
    (nonce plain aad other : Bytes)
    → length aad ≡ 8
    → length other ≡ 8
    → aad ≢ other
    → toy.unseal nonce (toy.seal nonce plain aad) other ≡ none
toy_authentic nonce plain aad other h k d =
    toy_unseal_seal nonce plain aad other ∙ rw (different aad other h k d) refl

abbrev zero_nonce : Bytes
zero_nonce = pad 12 []

length-zero_nonce : length zero_nonce ≡ 12
length-zero_nonce = refl

abbrev texts : List Bytes
texts = (1 ∷ 2 ∷ []) ∷ [] ∷ (3 ∷ []) ∷ []

encrypt-EndsIn_example :
    EndsIn ⊥
      (IsFrames toy (1 ∷ 2 ∷ 3 ∷ []))
      (encrypt toy (λ k. some zero_nonce) (λ out text. none) texts)
encrypt-EndsIn_example =
    encrypt-EndsIn toy (λ k. some zero_nonce) (λ out text. none) ⊥ (λ k e. cc)
      (λ out text part e. cc) (λ k nonce e. cc length-zero_nonce) texts

drain-encrypt_example :
    EndsIn ⊥
      (λ s. drain toy (suc (length s.out)) 2 (new_decrypter s.out) ≡ some (ok (1 ∷ 2 ∷ 3 ∷ [])))
      (encrypt toy (λ k. some zero_nonce) (λ out text. none) texts)
drain-encrypt_example = drain-encrypt toy (λ k. zero_nonce) texts 2 (λ k. refl) (omega arith)

one_frame : Framed toy 0 1 (framed toy 0 zero_nonce (7 ∷ []) []) (7 ∷ [])
one_frame = frame 0 1 zero_nonce (7 ∷ []) refl (omega arith) (no_frames refl)

drain-cut_nonce_example :
    drain toy
      (suc (length (framed toy 0 zero_nonce (7 ∷ []) [])))
      4
      (new_decrypter (framed toy 0 zero_nonce (7 ∷ []) [] ++ zero_nonce))
    ≡ some (ok (7 ∷ []))
drain-cut_nonce_example =
    drain-cut_nonce toy 4 1 (framed toy 0 zero_nonce (7 ∷ []) []) (7 ∷ []) zero_nonce (omega arith)
      one_frame refl

next_frame-displaced_example :
    next_frame toy 1 (whole (framed toy 0 zero_nonce (7 ∷ []) [])) ≡ err authenticate
next_frame-displaced_example =
    next_frame-displaced toy toy_authentic 0 1 zero_nonce (7 ∷ []) [] (omega arith) (omega arith)
      (omega arith) refl (omega arith)
