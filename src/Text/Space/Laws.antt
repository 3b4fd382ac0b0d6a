-- ===== src/Text/Space/Laws.antt =====
-- What trimming leaves.
use mathlib.Core.List.{reverse, reverse-append, reverse-reverse}
use cloudnan_agent.Base.{
  ℕ, zero, suc, ◌≤◌, Bool, true, false, [], ◌∷◌, ◌++◌, ◌≡◌, refl, sym, ap, ◌∙◌, arith, length,
  Bytes, length-append, append_assoc, within, ℕ-cases, inl, inr, all,
}
use cloudnan_agent.Text.Space.{
  ascii_space, space_width, space_width_back, trim_by, trim_left, trim_right, trim_space,
}

trim_by-le : (width : Bytes → ℕ) (k : ℕ) (s : Bytes) → length (trim_by width k s) ≤ length s
unfolding trim_by
trim_by-le width k [] = omega arith
trim_by-le width (suc k) (c ∷ s) = omega (arith, trim_by-le width k s)
trim_by-le width zero (c ∷ s) = at_width (width (c ∷ s)) (λ k. trim_by-le width k s)
  where
    at_width :
        (n : ℕ)
        → ((k : ℕ) → length (trim_by width k s) ≤ length s)
        → length (elim n [ zero ↦ c ∷ s | suc k ↦ trim_by width k s ]) ≤ suc (length s)
    at_width zero h = omega arith
    at_width (suc k) h = omega (arith, h k)

length-reverse : (s : Bytes) → length (reverse s) ≡ length s
length-reverse [] = refl
length-reverse (c ∷ s) =
    ap length (reverse-append (c ∷ []) s)
    ∙ length-append (reverse s) (c ∷ [])
    ∙ omega (arith, length-reverse s)

-- Trimming never makes a text longer.
pub trim_space-le : (s : Bytes) → length (trim_space s) ≤ length s
unfolding trim_space trim_left trim_right
trim_space-le s = omega (
  arith,
  length-reverse (trim_by space_width_back 0 (reverse (trim_left s))),
  trim_by-le space_width_back 0 (reverse (trim_left s)),
  length-reverse (trim_left s),
  trim_by-le space_width 0 s,
)

-- An ASCII byte that is no white space: where trimming stops.
unfoldable pub solid : ℕ → Bool
solid c = within 33 127 c

pub space_width-solid : (c : ℕ) (s : Bytes) → solid c ≡ true → space_width (c ∷ s) ≡ 0
unfolding space_width solid
space_width-solid c [] h = ground arith
space_width-solid c (d ∷ []) h = ground arith
space_width-solid c (d ∷ e ∷ s) h = ground arith

space_width_back-solid : (c : ℕ) (s : Bytes) → solid c ≡ true → space_width_back (c ∷ s) ≡ 0
unfolding space_width_back solid
space_width_back-solid c [] h = ground arith
space_width_back-solid c (d ∷ []) h = ground arith
space_width_back-solid c (d ∷ e ∷ s) h = ground arith

-- A space at the end does not reach over a solid byte.
space_width_back-le :
    (x : Bytes) (c : ℕ) (s : Bytes) → solid c ≡ true → space_width_back (x ++ (c ∷ s)) ≤ length x
unfolding space_width_back solid
space_width_back-le [] c s h = omega (arith, space_width_back-solid c s h)
space_width_back-le (a ∷ []) c [] h = ground arith
space_width_back-le (a ∷ []) c (d ∷ s) h = ground arith
space_width_back-le (a ∷ b ∷ []) c s h = ground arith
space_width_back-le (a ∷ b ∷ d ∷ x) c s h = ground arith

-- What trimming leaves of `x` in front of `tail`: the end of `x` that it kept.
record KeepsTail (x tail result : Bytes) : Type 0 where
  dropped : Bytes
  kept : Bytes
  splits : x ≡ dropped ++ kept
  leaves : result ≡ kept ++ tail

KeepsTail-cons : (a : ℕ) {x tail r : Bytes} → KeepsTail x tail r → KeepsTail (a ∷ x) tail r
KeepsTail-cons a t = record {
  dropped = a ∷ t.dropped;
  kept = t.kept;
  splits = ap (◌∷◌ a) t.splits;
  leaves = t.leaves;
}

KeepsTail-all : (x tail : Bytes) → KeepsTail x tail (x ++ tail)
KeepsTail-all x tail = record { dropped = []; kept = x; splits = refl; leaves = refl }

-- Trimming an end stops at a solid byte.
trim_by-solid :
    (k : ℕ) (x : Bytes) (c : ℕ) (s : Bytes)
    → solid c ≡ true
    → k ≤ length x
    → KeepsTail x (c ∷ s) (trim_by space_width_back k (x ++ (c ∷ s)))
unfolding trim_by
trim_by-solid zero [] c s h fits =
    rw (space_width_back-solid c s h, trim_by) (KeepsTail-all [] (c ∷ s))
trim_by-solid (suc k) [] c s h fits = absurd (omega arith)
trim_by-solid (suc k) (a ∷ x) c s h fits = KeepsTail-cons a (trim_by-solid k x c s h (omega arith))
trim_by-solid zero (a ∷ x) c s h fits = elim (ℕ-cases (space_width_back (a ∷ (x ++ (c ∷ s))))) [
  | inl e ↦ rw (e, trim_by) (KeepsTail-all (a ∷ x) (c ∷ s))
  | inr (k, e) ↦
      rw (e, trim_by)
        (KeepsTail-cons a
          (trim_by-solid k x c s h (omega (arith, e, space_width_back-le (a ∷ x) c s h))))
]

reverse-middle :
    (s : Bytes) (c : ℕ) (x : Bytes) → reverse (s ++ (c ∷ x)) ≡ reverse x ++ (c ∷ reverse s)
reverse-middle s c x =
    reverse-append s (c ∷ x)
    ∙ ap (λ r. r ++ reverse s) (reverse-append (c ∷ []) x)
    ∙ append_assoc (reverse x) (c ∷ []) (reverse s)

-- A text with a solid byte `c` in it keeps what stands up to `c`; of the rest an end may be lost.
pub trim_right-solid :
    (s : Bytes) (c : ℕ) (x : Bytes)
    → solid c ≡ true
    → (y : Bytes) × (z : Bytes) × (x ≡ y ++ z) × (trim_right (s ++ (c ∷ x)) ≡ s ++ (c ∷ y))
unfolding trim_right
trim_right-solid s c x h =
    let t = trim_by-solid 0 (reverse x) c (reverse s) h (omega arith) in
    (
      reverse t.kept,
      reverse t.dropped,
      sym (reverse-reverse x) ∙ ap reverse t.splits ∙ reverse-append t.dropped t.kept,
      ap (λ r. reverse (trim_by space_width_back 0 r)) (reverse-middle s c x)
          ∙ ap reverse t.leaves
          ∙ reverse-middle t.kept c (reverse s)
          ∙ ap (λ r. r ++ (c ∷ reverse t.kept)) (reverse-reverse s),
    )

pub trim_left-solid : (c : ℕ) (s : Bytes) → solid c ≡ true → trim_left (c ∷ s) ≡ c ∷ s
unfolding trim_left trim_by
trim_left-solid c s h = rw (space_width-solid c s h, trim_by)

pub space_width-ascii_space : (c : ℕ) (s : Bytes) → ascii_space c ≡ true → space_width (c ∷ s) ≡ 1
unfolding space_width
space_width-ascii_space c [] h = rw h
space_width-ascii_space c (d ∷ []) h = rw h
space_width-ascii_space c (d ∷ e ∷ s) h = rw h

-- ASCII white space at the start goes.
pub trim_space-ascii_space :
    (b s : Bytes) → all ascii_space b ≡ true → trim_space (b ++ s) ≡ trim_space s
unfolding trim_space trim_left trim_by
trim_space-ascii_space [] s h = refl
trim_space-ascii_space (c ∷ b) s h =
    rw (space_width-ascii_space c (b ++ s) (ground arith), trim_by)
      (trim_space-ascii_space b s (ground arith))

-- The last byte is solid.
abbrev pub ends_solid : Bytes → Bool
ends_solid [] = false
ends_solid (c ∷ []) = solid c
ends_solid (c ∷ d ∷ s) = ends_solid (d ∷ s)

pub ends_solid-append : (s t : Bytes) → ends_solid t ≡ true → ends_solid (s ++ t) ≡ true
ends_solid-append [] t h = h
ends_solid-append (c ∷ []) [] h = cc
ends_solid-append (c ∷ []) (d ∷ t) h = h
ends_solid-append (c ∷ d ∷ s) t h = ends_solid-append (d ∷ s) t h

nil_part : (y z : Bytes) → [] ≡ y ++ z → y ≡ []
nil_part [] z e = refl
nil_part (c ∷ y) z e = cc

trim_right-ends_solid : (p s : Bytes) → ends_solid s ≡ true → trim_right (p ++ s) ≡ p ++ s
trim_right-ends_solid p [] h = cc
trim_right-ends_solid p (c ∷ []) h =
    let (y, z, e, t) = trim_right-solid p c [] h in t ∙ ap (λ r. p ++ (c ∷ r)) (nil_part y z e)
trim_right-ends_solid p (c ∷ d ∷ s) h =
    ap trim_right (sym (append_assoc p (c ∷ []) (d ∷ s)))
    ∙ trim_right-ends_solid (p ++ (c ∷ [])) (d ∷ s) h
    ∙ append_assoc p (c ∷ []) (d ∷ s)

-- A text with solid ends is left as it is.
pub trim_space-solid_ends :
    (c : ℕ) (s : Bytes) → solid c ≡ true → ends_solid (c ∷ s) ≡ true → trim_space (c ∷ s) ≡ c ∷ s
unfolding trim_space
trim_space-solid_ends c s h e =
    ap trim_right (trim_left-solid c s h) ∙ trim_right-ends_solid [] (c ∷ s) e
