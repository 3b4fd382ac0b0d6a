-- ===== src/Database/Classify/With/Total.antt =====
-- The loop over the CTEs ends: each round takes a byte at least.
use cloudnan_agent.Base.{
  ℕ, zero, suc, ◌≤◌, ◌<◌, Bool, true, false, [], ◌∷◌, Option, none, some, ◌≡◌, refl, arith,
  if◌then◌else◌, length, drop, length-drop, Bytes, codes, Bool-cases, Option-cases, inl, inr,
}
use cloudnan_agent.Database.Classify.Paren.{consume_ident, match_paren, bare_identifier}
use cloudnan_agent.Database.Classify.Skip.{consume_quoted}
use cloudnan_agent.Database.Classify.With.{
  StatementKind, and_then, skip_columns, skip_as, skip_materialized, skip_body, skip_cte, cte_loop,
  body_kind, classify_with, skip_recursive, statement_write,
}
use cloudnan_agent.Database.Quote.{double_quote, backtick}
use cloudnan_agent.Text.Case.{to_lower}
use cloudnan_agent.Text.Search.{has_prefix}
use cloudnan_agent.Text.Space.Laws.{trim_space-le}
use cloudnan_agent.Text.Space.{trim_space}

-- The text is not longer than `n` bytes, if there is one.
abbrev pub FitsIn : ℕ → Option Bytes → Type 0
FitsIn n none = Unit
FitsIn n (some s) = length s ≤ n

trimmed : (k n : ℕ) (s : Bytes) → length s ≤ n → length (trim_space (drop k s)) ≤ n
trimmed k n s h = omega (arith, trim_space-le (drop k s), length-drop k s)

if-le :
    (n : ℕ) (b : Bool) (x y : Bytes) → length x ≤ n → length y ≤ n → length (if b then x else y) ≤ n
if-le n true x y h k = h
if-le n false x y h k = k

skip_columns-fits : (n : ℕ) (rest : Bytes) → length rest ≤ n → FitsIn n (skip_columns rest)
unfolding skip_columns
skip_columns-fits n rest h = elim (Option-cases (match_paren rest)) [
  | inl e ↦ rw e (ground arith)
  | inr (k, e) ↦ rw e (ground (arith, trimmed (suc k) n rest h))
]

skip_body-fits : (n : ℕ) (rest : Bytes) → length rest ≤ n → FitsIn n (skip_body rest)
unfolding skip_body
skip_body-fits n rest h = elim (Option-cases (match_paren rest)) [
  | inl e ↦ rw e (ground arith)
  | inr (k, e) ↦ rw e (ground (arith, trimmed (suc k) n rest h))
]

and_then-fits :
    (n : ℕ) (o : Option Bytes) (f : Bytes → Option Bytes)
    → FitsIn n o
    → ((s : Bytes) → length s ≤ n → FitsIn n (f s))
    → FitsIn n (and_then o f)
and_then-fits n none f h k = tt
and_then-fits n (some s) f h k = k s h

-- An identifier has a byte at least, and lies in the text.
abbrev IsPositive : Option ℕ → Type 0
IsPositive none = Unit
IsPositive (some n) = 0 < n

consume_quoted-IsPositive : (s : Bytes) (q : ℕ) → IsPositive (consume_quoted s q)
unfolding consume_quoted
consume_quoted-IsPositive [] q = tt
consume_quoted-IsPositive (c ∷ s) q = ground arith

consume_ident-IsPositive : (s : Bytes) → IsPositive (consume_ident s)
unfolding consume_ident bare_identifier
consume_ident-IsPositive [] = tt
consume_ident-IsPositive (c ∷ s) = ground (
  arith,
  consume_quoted-IsPositive (c ∷ s) double_quote,
  consume_quoted-IsPositive (c ∷ s) backtick,
)

module _ (unicode_lower : Bytes → Bytes) where
  skip_as-fits : (n : ℕ) (rest : Bytes) → length rest ≤ n → FitsIn n (skip_as unicode_lower rest)
  unfolding skip_as
  skip_as-fits n rest h = ground (arith, trimmed 2 n rest h)

  skip_materialized-le :
      (n : ℕ) (rest : Bytes) → length rest ≤ n → length (skip_materialized unicode_lower rest) ≤ n
  unfolding skip_materialized
  skip_materialized-le n rest h =
      if-le n (has_prefix (to_lower unicode_lower rest) (codes "not materialized")) _ _
        (trimmed 16 n rest h)
        (if-le n (has_prefix (to_lower unicode_lower rest) (codes "materialized")) _ _
          (trimmed 12 n rest h) h)

  -- The text behind one CTE is shorter.
  skip_cte-fits : (c : ℕ) (s : Bytes) → FitsIn (length s) (skip_cte unicode_lower (c ∷ s))
  unfolding skip_cte
  skip_cte-fits c s = elim (Option-cases (consume_ident (c ∷ s))) [
    | inl e ↦ rw e tt
    | inr (n, e) ↦ rw e (
        and_then-fits (length s) (skip_columns (trim_space (drop n (c ∷ s)))) _
          (skip_columns-fits (length s) _ (shorter n (rw e at (consume_ident-IsPositive (c ∷ s)))))
          (λ behind fits.
            and_then-fits (length s) (skip_as unicode_lower behind) _
              (skip_as-fits (length s) behind fits)
              (λ behind_as fits'.
                skip_body-fits (length s) _ (skip_materialized-le (length s) behind_as fits'))))
  ]
    where
      shorter : (n : ℕ) → IsPositive (some n) → length (trim_space (drop n (c ∷ s))) ≤ length s
      shorter n p = omega (arith, trim_space-le (drop n (c ∷ s)), length-drop n (c ∷ s))

  skip_cte-nil : skip_cte unicode_lower [] ≡ none
  unfolding skip_cte
  skip_cte-nil = refl

  -- What is left to the loop behind a CTE.
  skip_cte-lt :
      (s : Bytes) {behind : Bytes}
      → skip_cte unicode_lower s ≡ some behind
      → length (trim_space (drop 1 behind)) < length s
  skip_cte-lt [] h = cc (skip_cte-nil)
  skip_cte-lt (c ∷ s) {behind} h =
      omega (arith, trimmed 1 (length s) behind (rw h at (skip_cte-fits c s)))

  -- The loop returns a verdict whenever its fuel exceeds the length of the text.
  pub cte_loop-total :
      (fuel : ℕ) (rest : Bytes)
      → length rest < fuel
      → (kind : StatementKind) × (cte_loop unicode_lower fuel rest ≡ some kind)
  unfolding cte_loop
  cte_loop-total zero rest h = absurd (omega arith)
  cte_loop-total (suc fuel) rest h = elim (Option-cases (skip_cte unicode_lower rest)) [
    | inl e ↦ (statement_write, rw (e, cte_loop))
    | inr (behind, e) ↦
        let later =
          cte_loop-total fuel (trim_space (drop 1 behind)) (omega (arith, skip_cte-lt rest e)) in
        elim (Bool-cases (has_prefix behind (codes ","))) [
          | inl b ↦ (later.0, rw (e, cte_loop) (rw (b, later.1)))
          | inr b ↦ (body_kind unicode_lower behind, rw (e, cte_loop) (rw b))
        ]
  ]

  pub classify_with-total :
      (rest : Bytes) → (kind : StatementKind) × (classify_with unicode_lower rest ≡ some kind)
  unfolding classify_with
  classify_with-total rest =
      let text = skip_recursive unicode_lower (trim_space rest) in
      cte_loop-total (suc (length text)) text (omega arith)
