-- ===== src/Text/Space/Trimmed.antt =====
-- A trimmed text has the bytes of the text, and no white space at its end.
use mathlib.Core.List.{reverse, reverse-append, reverse-reverse}
use cloudnan_agent.Base.{
  ℕ, zero, suc, Bool, true, false, [], ◌∷◌, ◌++◌, ◌≡◌, ◌⊎◌, inl, inr, refl, sym, ap, ◌∙◌, arith,
  Bytes, all, all-snoc,
}
use cloudnan_agent.Text.Space.{
  ascii_space, space_width, space_width_back, trim_by, trim_left, trim_right, trim_space,
}

all-trim_by :
    (p : ℕ → Bool) (width : Bytes → ℕ) (k : ℕ) (s : Bytes)
    → all p s ≡ true
    → all p (trim_by width k s) ≡ true
unfolding trim_by
all-trim_by p width k [] h = refl
all-trim_by p width (suc k) (c ∷ s) h = all-trim_by p width k s (ground arith)
all-trim_by p width zero (c ∷ s) h =
    at_width (width (c ∷ s)) (λ k. all-trim_by p width k s (ground arith))
  where
    at_width :
        (n : ℕ)
        → ((k : ℕ) → all p (trim_by width k s) ≡ true)
        → all p (elim n [ zero ↦ c ∷ s | suc k ↦ trim_by width k s ]) ≡ true
    at_width zero rec = h
    at_width (suc k) rec = rec k

all-reverse : (p : ℕ → Bool) (s : Bytes) → all p s ≡ true → all p (reverse s) ≡ true
all-reverse p [] h = refl
all-reverse p (c ∷ s) h =
    ap (all p) (reverse-append (c ∷ []) s)
    ∙ all-snoc p (reverse s) c (all-reverse p s (ground arith)) (ground arith)

pub all-trim_space : (p : ℕ → Bool) (s : Bytes) → all p s ≡ true → all p (trim_space s) ≡ true
unfolding trim_space trim_left trim_right
all-trim_space p s h =
    all-reverse p (trim_by space_width_back 0 (reverse (trim_by space_width 0 s))) (
      all-trim_by p space_width_back 0 (reverse (trim_by space_width 0 s))
        (all-reverse p (trim_by space_width 0 s) (all-trim_by p space_width 0 s h)))

-- Trimming stops where no white space is.
width-trim_by :
    (width : Bytes → ℕ) (k : ℕ) (s : Bytes) → width [] ≡ 0 → width (trim_by width k s) ≡ 0
unfolding trim_by
width-trim_by width k [] e = e
width-trim_by width (suc k) (c ∷ s) e = width-trim_by width k s e
width-trim_by width zero (c ∷ s) e = at_width (width (c ∷ s)) refl (λ k. width-trim_by width k s e)
  where
    at_width :
        (n : ℕ)
        → width (c ∷ s) ≡ n
        → ((k : ℕ) → width (trim_by width k s) ≡ 0)
        → width (elim n [ zero ↦ c ∷ s | suc k ↦ trim_by width k s ]) ≡ 0
    at_width zero h rec = h
    at_width (suc k) h rec = rec k

space_width_back-nil : space_width_back [] ≡ 0
unfolding space_width_back
space_width_back-nil = refl

pub space_width_back-trim_space : (s : Bytes) → space_width_back (reverse (trim_space s)) ≡ 0
unfolding trim_space trim_right
space_width_back-trim_space s =
    ap space_width_back (reverse-reverse (trim_by space_width_back 0 (reverse (trim_left s))))
    ∙ width-trim_by space_width_back 0 (reverse (trim_left s)) space_width_back-nil

ascii_space-space_width_back :
    (c : ℕ) (s : Bytes) → space_width_back (c ∷ s) ≡ 0 → ascii_space c ≡ false
unfolding space_width_back
ascii_space-space_width_back c [] h = ground arith
ascii_space-space_width_back c (d ∷ []) h = ground arith
ascii_space-space_width_back c (d ∷ e ∷ s) h = ground arith

-- A trimmed text is empty or ends in a byte that is no white space.
pub trim_space-cases :
    (s : Bytes)
    → (trim_space s ≡ [])
      ⊎ ((t : Bytes) × (c : ℕ) × (trim_space s ≡ t ++ c ∷ []) × (ascii_space c ≡ false))
trim_space-cases s =
    by_end (reverse (trim_space s)) (sym (reverse-reverse (trim_space s)))
      (space_width_back-trim_space s)
  where
    by_end :
        (r : Bytes)
        → trim_space s ≡ reverse r
        → space_width_back r ≡ 0
        → (trim_space s ≡ [])
          ⊎ ((t : Bytes) × (c : ℕ) × (trim_space s ≡ t ++ c ∷ []) × (ascii_space c ≡ false))
    by_end [] e w = inl e
    by_end (c ∷ r) e w =
        inr (reverse r, c, e ∙ reverse-append (c ∷ []) r, ascii_space-space_width_back c r w)
