-- ===== src/Text/Decimal/RoundTrip.antt =====
-- A number is read back from its digits.
use cloudnan_agent.Base.{
  ℕ, zero, suc, ◌+◌, ◌*◌, ◌/◌, ◌%◌, ◌^◌, ◌<◌, ◌≤◌, ℤ, pos, negsuc, Bool, true, false, [], ◌∷◌, some,
  ◌==◌, ltb, within, Bytes, length, all, ◌≡◌, refl, sym, ap, ◌∙◌, subst, arith, Bool-cases, inl,
  inr,
}
use mathlib.Core.Option
use cloudnan_agent.Text.Space.Laws.{solid}
use cloudnan_agent.Text.Decimal.{
  digits_of, max_digits, format_int, value_of, parse_magnitude, in_range, negated, atoi,
}

value_of-digit :
    (m d : ℕ) (s : Bytes) → d < 10 → value_of m ((b'0' + d) ∷ s) ≡ value_of (m * 10 + d) s
unfolding value_of
value_of-digit m d s h =
    let digit : within b'0' b'9' (b'0' + d) ≡ true = ground arith in
    rw digit (ap (λ x. value_of x s) (omega arith))

first_digit : (n : ℕ) (acc : Bytes) → n < 10 → value_of 0 ((b'0' + n) ∷ acc) ≡ value_of n acc
first_digit n acc h = value_of-digit 0 n acc h ∙ ap (λ x. value_of x acc) (omega arith)

-- The numbers below have at most that many digits.
abbrev bound : ℕ → ℕ
bound zero = 1
bound (suc fuel) = 10 * bound fuel

value_of-digits_of :
    (fuel n : ℕ) (acc : Bytes)
    → n < 10 * bound fuel
    → value_of 0 (digits_of (suc fuel) n acc) ≡ value_of n acc
unfolding digits_of
value_of-digits_of zero n acc h =
    let small : ltb n 10 ≡ true = ground arith in rw small (first_digit n acc h)
value_of-digits_of (suc fuel) n acc h = elim (Bool-cases (ltb n 10)) [
  | inl e ↦ rw e (first_digit n acc (ground arith))
  | inr e ↦ rw e (
      value_of-digits_of fuel (n / 10) ((b'0' + n % 10) ∷ acc) (omega arith)
      ∙ value_of-digit (n / 10) (n % 10) acc (omega arith)
      ∙ ap (λ x. value_of x acc) (omega arith))
]

-- The digits are some text of digits, of at most twenty, in front of the rest.
abbrev digit : ℕ → Bool
digit c = within b'0' b'9' c

record Digits (s : Bytes) (n : ℕ) : Type 0 where
  first : ℕ
  more : Bytes
  split : s ≡ first ∷ more
  digits : all digit (first ∷ more) ≡ true
  few : length (first ∷ more) ≤ n

Digits-here :
    (c : ℕ) (acc : Bytes) (n : ℕ)
    → digit c ≡ true
    → all digit acc ≡ true
    → suc (length acc) ≤ n
    → Digits (c ∷ acc) n
Digits-here c acc n h k l = record {
  first = c;
  more = acc;
  split = refl;
  digits = rw (h, k) refl;
  few = l;
}

digit-mod : (n : ℕ) → digit (b'0' + n % 10) ≡ true
digit-mod n = let small : n % 10 < 10 = omega arith in ground arith

digit-small : (n : ℕ) → ltb n 10 ≡ true → digit (b'0' + n) ≡ true
digit-small n h = ground arith

digits_of-Digits :
    (fuel n : ℕ) (acc : Bytes)
    → all digit acc ≡ true
    → Digits (digits_of (suc fuel) n acc) (suc fuel + length acc)
unfolding digits_of
digits_of-Digits zero n acc h = elim (Bool-cases (ltb n 10)) [
  | inl e ↦ rw e (Digits-here (b'0' + n) acc (1 + length acc) (digit-small n e) h (omega arith))
  | inr e ↦ rw e (Digits-here (b'0' + n % 10) acc (1 + length acc) (digit-mod n) h (omega arith))
]
digits_of-Digits (suc fuel) n acc h = elim (Bool-cases (ltb n 10)) [
  | inl e ↦
      rw e
        (Digits-here (b'0' + n) acc (suc (suc fuel) + length acc) (digit-small n e) h (omega arith))
  | inr e ↦ rw e (
      subst (Digits (digits_of (suc fuel) (n / 10) ((b'0' + n % 10) ∷ acc))) (omega arith)
        (digits_of-Digits fuel (n / 10) ((b'0' + n % 10) ∷ acc) (rw (digit-mod n, h) refl)))
]

-- The 64-bit signed numbers.
pub data IsInt : ℤ → Type 0 where
  not_negative : {n : ℕ} → n < 2 ^ 63 → IsInt (pos n)
  negative : {n : ℕ} → n < 2 ^ 63 → IsInt (negsuc n)

below_bound : (n : ℕ) → n ≤ 2 ^ 63 → n < 10 * bound 19
below_bound n h = omega arith

parse_magnitude-cons : (c : ℕ) (s : Bytes) → parse_magnitude (c ∷ s) ≡ value_of 0 (c ∷ s)
unfolding parse_magnitude
parse_magnitude-cons c s = refl

value_of-nil : (n : ℕ) → value_of n [] ≡ some n
unfolding value_of
value_of-nil n = refl

magnitude : (n : ℕ) → n ≤ 2 ^ 63 → parse_magnitude (digits_of max_digits n []) ≡ some n
magnitude n h =
    let d = digits_of-Digits 19 n [] refl in
    ap parse_magnitude d.split
    ∙ parse_magnitude-cons d.first d.more
    ∙ ap (value_of 0) (sym d.split)
    ∙ value_of-digits_of 19 n [] (below_bound n h)
    ∙ value_of-nil n

in_range-some : (limit n : ℕ) → n < limit → in_range limit (some n) ≡ some n
in_range-some limit n h = let b : ltb n limit ≡ true = ground arith in rw b refl

atoi-digit :
    (c : ℕ) (s : Bytes)
    → digit c ≡ true
    → atoi (c ∷ s) ≡ Option.map pos (in_range (2 ^ 63) (parse_magnitude (c ∷ s)))
unfolding atoi
atoi-digit c s h =
    let no_minus : (c == b'-') ≡ false = ground arith in
    let no_plus : (c == b'+') ≡ false = ground arith in rw (no_minus, no_plus) refl

first_of : (c : ℕ) (s : Bytes) → all digit (c ∷ s) ≡ true → digit c ≡ true
first_of c s h = ground arith

atoi-minus :
    (s : Bytes) → atoi (b'-' ∷ s) ≡ Option.map negated (in_range (2 ^ 63 + 1) (parse_magnitude s))
unfolding atoi
atoi-minus s = refl

pub atoi-format_int : (i : ℤ) → IsInt i → atoi (format_int i) ≡ some i
unfolding format_int
atoi-format_int (pos n) (not_negative h) =
    let d = digits_of-Digits 19 n [] refl in
    ap atoi d.split
    ∙ atoi-digit d.first d.more (first_of d.first d.more d.digits)
    ∙ ap (λ s. Option.map pos (in_range (2 ^ 63) (parse_magnitude s))) (sym d.split)
    ∙ ap (λ o. Option.map pos (in_range (2 ^ 63) o)) (magnitude n (omega arith))
    ∙ ap (Option.map pos) (in_range-some (2 ^ 63) n h)
atoi-format_int (negsuc n) (negative h) =
    atoi-minus (digits_of max_digits (suc n) [])
    ∙ ap (λ o. Option.map negated (in_range (2 ^ 63 + 1) o)) (magnitude (suc n) (omega arith))
    ∙ ap (Option.map negated) (in_range-some (2 ^ 63 + 1) (suc n) (omega arith))

-- A word: some solid bytes, at most 21 of them.
pub record Word (s : Bytes) : Type 0 where
  pub first : ℕ
  pub more : Bytes
  pub split : s ≡ first ∷ more
  pub all_solid : all solid (first ∷ more) ≡ true
  pub few : length (first ∷ more) ≤ 21

digit-solid : (c : ℕ) → digit c ≡ true → solid c ≡ true
unfolding solid
digit-solid c h = ground arith

digits-solid : (s : Bytes) → all digit s ≡ true → all solid s ≡ true
digits-solid [] h = refl
digits-solid (c ∷ s) h = rw (digit-solid c (ground arith), digits-solid s (ground arith)) refl

minus-solid : (s : Bytes) → all solid s ≡ true → all solid (b'-' ∷ s) ≡ true
unfolding solid
minus-solid s h = h

pub format_int-Word : (i : ℤ) → Word (format_int i)
unfolding format_int
format_int-Word (pos n) =
    let d = digits_of-Digits 19 n [] refl in
    record {
      first = d.first;
      more = d.more;
      split = d.split;
      all_solid = digits-solid (d.first ∷ d.more) d.digits;
      few = omega (arith, d.few);
    }
format_int-Word (negsuc n) =
    let d = digits_of-Digits 19 (suc n) [] refl in
    record {
      first = b'-';
      more = d.first ∷ d.more;
      split = ap (◌∷◌ b'-') d.split;
      all_solid = minus-solid (d.first ∷ d.more) (digits-solid (d.first ∷ d.more) d.digits);
      few = omega (arith, d.few);
    }
