-- ===== src/Text/FilePath/Laws.antt =====
-- What a cleaned path looks like.
use mathlib.Core.List.{reverse, reverse-append}
use cloudnan_agent.Base.{
  ℕ, Bool, true, false, ◌&&◌, ◌||◌, not, List, [], ◌∷◌, ◌++◌, Bytes, ◌==◌, ◌≡◌, refl, ap, ◌∙◌,
  arith, all, all-snoc, Bool-cases, inl, inr,
}
use cloudnan_agent.Text.FilePath.{
  slash, is_empty, is_dot, is_dotdot, parent, clean_part, clean_parts, render_path, clean, is_abs,
}
use cloudnan_agent.Text.Lines.{join, split_byte, first_part_with}

unfoldable pub lacks_slash : Bytes → Bool
lacks_slash s = all (λ c. not (c == slash)) s

-- A part that stays: not empty, neither `.` nor `..`, and without a slash.
unfoldable pub normal : Bytes → Bool
normal p = not (is_empty p || is_dot p) && not (is_dotdot p) && lacks_slash p

first_part-lacks_slash :
    (c : ℕ) (parts : List Bytes)
    → (c == slash) ≡ false
    → all lacks_slash parts ≡ true
    → all lacks_slash (first_part_with c parts) ≡ true
unfolding lacks_slash
first_part-lacks_slash c [] h k = ground arith
first_part-lacks_slash c (p ∷ parts) h k = ground arith

pub split_byte-lacks_slash : (s : Bytes) → all lacks_slash (split_byte s slash) ≡ true
unfolding split_byte
split_byte-lacks_slash [] = unfold lacks_slash in refl
split_byte-lacks_slash (c ∷ s) = elim (Bool-cases (c == slash)) [
  | inl e ↦ rw e (lemma (split_byte-lacks_slash s))
  | inr e ↦ rw e (first_part-lacks_slash c (split_byte s slash) e (split_byte-lacks_slash s))
]
  where
    lemma :
        all lacks_slash (split_byte s slash) ≡ true
        → all lacks_slash ([] ∷ split_byte s slash) ≡ true
    lemma h = unfold lacks_slash in h

-- In a rooted path only normal parts are kept.
clean_part-normal :
    (kept : List Bytes) (part : Bytes)
    → lacks_slash part ≡ true
    → all normal kept ≡ true
    → all normal (clean_part true kept part) ≡ true
unfolding clean_part parent
clean_part-normal [] part h k = unfold normal in (ground arith)
clean_part-normal (p ∷ kept) part h k = unfold normal in (ground arith)

clean_parts-normal :
    (kept parts : List Bytes)
    → all lacks_slash parts ≡ true
    → all normal kept ≡ true
    → all normal (clean_parts true kept parts) ≡ true
unfolding clean_parts
clean_parts-normal kept [] h k = k
clean_parts-normal kept (part ∷ parts) h k =
    clean_parts-normal (clean_part true kept part) parts (ground arith)
      (clean_part-normal kept part (ground arith) k)

all-reverse : (p : Bytes → Bool) (xs : List Bytes) → all p xs ≡ true → all p (reverse xs) ≡ true
all-reverse p [] h = refl
all-reverse p (x ∷ xs) h =
    rw (reverse-append (x ∷ []) xs)
      (all-snoc p (reverse xs) x (all-reverse p xs (ground arith)) (ground arith))

-- A rooted path is cleaned to a slash and normal parts with slashes between them.
pub record IsClean (s : Bytes) : Type 0 where
  pub parts : List Bytes
  pub parts_normal : all normal parts ≡ true
  pub spelled : s ≡ slash ∷ join parts (slash ∷ [])

pub clean-IsClean : (s : Bytes) → is_abs s ≡ true → IsClean (clean s)
unfolding clean render_path
clean-IsClean [] h = cc
clean-IsClean (c ∷ s) h = record {
  parts = reverse (clean_parts true [] (split_byte (c ∷ s) slash));
  parts_normal =
      all-reverse normal (clean_parts true [] (split_byte (c ∷ s) slash))
        (clean_parts-normal [] (split_byte (c ∷ s) slash) (split_byte-lacks_slash (c ∷ s)) refl);
  spelled = rw h;
}

split_byte-cons : (s : Bytes) → (p : Bytes) × (ps : List Bytes) × (split_byte s slash ≡ p ∷ ps)
unfolding split_byte
split_byte-cons [] = ([], [], refl)
split_byte-cons (c ∷ s) = elim (Bool-cases (c == slash)) [
  | inl e ↦ ([], split_byte s slash, rw e)
  | inr e ↦ let (p, ps, f) = split_byte-cons s in (c ∷ p, ps, rw e (ap (first_part_with c) f))
]

-- Splitting works on each side of a slash.
pub split_byte-append :
    (a b : Bytes) → split_byte (a ++ (slash ∷ b)) slash ≡ split_byte a slash ++ split_byte b slash
unfolding split_byte
split_byte-append [] b = refl
split_byte-append (c ∷ a) b = elim (Bool-cases (c == slash)) [
  | inl e ↦ rw e (ap (◌∷◌ []) (split_byte-append a b))
  | inr e ↦
      let (p, ps, f) = split_byte-cons a in
      rw e (ap (first_part_with c) (split_byte-append a b) ∙ rw f)
]

split_byte-lacks : (p : Bytes) → lacks_slash p ≡ true → split_byte p slash ≡ p ∷ []
unfolding split_byte lacks_slash
split_byte-lacks [] h = refl
split_byte-lacks (c ∷ p) h = ground (arith, split_byte-lacks p)

normal-lacks_slash : (p : Bytes) → normal p ≡ true → lacks_slash p ≡ true
unfolding normal
normal-lacks_slash p h = ground arith

pub split_byte-join :
    (p : Bytes) (parts : List Bytes)
    → all normal (p ∷ parts) ≡ true
    → split_byte (join (p ∷ parts) (slash ∷ [])) slash ≡ p ∷ parts
unfolding join
split_byte-join p [] h = split_byte-lacks p (normal-lacks_slash p (ground arith))
split_byte-join p (q ∷ parts) h =
    split_byte-append p (join (q ∷ parts) (slash ∷ []))
    ∙ rw (
      split_byte-lacks p (normal-lacks_slash p (ground arith)),
      split_byte-join q parts (ground arith),
    )
