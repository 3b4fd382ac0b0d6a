-- ===== src/Text/Decimal.antt =====
-- `strconv.Atoi` and the verb `%d`, for the 64-bit `int`. Twenty digits are enough for every such number.
pub mod RoundTrip
use cloudnan_agent.Base.{
  ℕ, zero, suc, ◌+◌, ◌*◌, ◌/◌, ◌%◌, ◌-◌, ◌^◌, ℤ, pos, negsuc, Bool, true, false, List, [], ◌∷◌,
  Option, none, some, ◌==◌, if◌then◌else◌, ltb, leb, within, Bytes,
}
use mathlib.Core.Option

-- The digits of a number in front of a text.
unfoldable pub digits_of : ℕ → ℕ → Bytes → Bytes
digits_of zero n acc = acc
digits_of (suc fuel) n acc =
    let more = digits_of fuel (n / 10) ((b'0' + n % 10) ∷ acc) in
    if ltb n 10 then (b'0' + n) ∷ acc else more

abbrev pub max_digits : ℕ
max_digits = 20

unfoldable pub format_int : ℤ → Bytes
unfolding digits_of
format_int (pos n) = digits_of max_digits n []
format_int (negsuc n) = b'-' ∷ digits_of max_digits (suc n) []

-- The value of digits behind the value of those in front.
unfoldable pub value_of : ℕ → Bytes → Option ℕ
value_of n [] = some n
value_of n (c ∷ s) =
    let rest = value_of (n * 10 + (c - b'0')) s in if within b'0' b'9' c then rest else none

unfoldable pub parse_magnitude : Bytes → Option ℕ
unfolding value_of
parse_magnitude [] = none
parse_magnitude (c ∷ s) = value_of 0 (c ∷ s)

abbrev pub in_range : ℕ → Option ℕ → Option ℕ
in_range limit none = none
in_range limit (some n) = if ltb n limit then some n else none

abbrev pub negated : ℕ → ℤ
negated zero = pos 0
negated (suc n) = negsuc n

unfoldable pub atoi : Bytes → Option ℤ
unfolding parse_magnitude
atoi [] = none
atoi (c ∷ s) =
    if c == b'-'
    then Option.map negated (in_range (2 ^ 63 + 1) (parse_magnitude s))
    else if c == b'+'
    then Option.map pos (in_range (2 ^ 63) (parse_magnitude s))
    else Option.map pos (in_range (2 ^ 63) (parse_magnitude (c ∷ s)))
