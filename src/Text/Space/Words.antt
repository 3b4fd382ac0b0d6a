-- ===== src/Text/Space/Words.antt =====
-- The words of a text that is made of words.
use cloudnan_agent.Base.{
  ℕ, true, [], ◌∷◌, ◌++◌, ◌≡◌, refl, sym, ap, ◌∙◌, arith, Bytes, all, append_assoc, append-nil,
}
use cloudnan_agent.Text.Space.{ascii_space, flush, fields_from, fields, trim_space}
use cloudnan_agent.Text.Space.Laws.{
  solid, ends_solid, ends_solid-append, space_width-solid, space_width-ascii_space,
  trim_space-solid_ends,
}

fields_from-word :
    (word w s : Bytes)
    → all solid w ≡ true
    → fields_from 0 word (w ++ s) ≡ fields_from 0 (word ++ w) s
unfolding fields_from
fields_from-word word [] s h = ap (λ x. fields_from 0 x s) (sym (append-nil word))
fields_from-word word (c ∷ w) s h =
    rw (space_width-solid c (w ++ s) (ground arith), fields_from)
      (fields_from-word (word ++ c ∷ []) w s (ground arith)
        ∙ ap (λ x. fields_from 0 x s) (append_assoc word (c ∷ []) w))

ascii_blank : ascii_space b' ' ≡ true
unfolding ascii_space
ascii_blank = refl

fields_from-blank :
    (word s : Bytes) → fields_from 0 word (b' ' ∷ s) ≡ flush word (fields_from 0 [] s)
unfolding fields_from
fields_from-blank word s = rw (space_width-ascii_space b' ' s ascii_blank, fields_from) refl

fields_from-end : (word : Bytes) → fields_from 0 word [] ≡ flush word []
unfolding fields_from
fields_from-end word = refl

-- Two words with a blank between them.
pub fields-two :
    (a b : ℕ) (v w : Bytes)
    → all solid (a ∷ v) ≡ true
    → all solid (b ∷ w) ≡ true
    → fields ((a ∷ v) ++ (b' ' ∷ b ∷ w)) ≡ (a ∷ v) ∷ (b ∷ w) ∷ []
unfolding fields
fields-two a b v w h k =
    fields_from-word [] (a ∷ v) (b' ' ∷ b ∷ w) h
    ∙ fields_from-blank (a ∷ v) (b ∷ w)
    ∙ ap (◌∷◌ (a ∷ v)) (
        ap (fields_from 0 []) (sym (append-nil (b ∷ w)))
        ∙ fields_from-word [] (b ∷ w) [] k
        ∙ fields_from-end (b ∷ w))

solid-ends_solid : (c : ℕ) (s : Bytes) → all solid (c ∷ s) ≡ true → ends_solid (c ∷ s) ≡ true
solid-ends_solid c [] h = ground arith
solid-ends_solid c (d ∷ s) h = solid-ends_solid d s (ground arith)

pub trim_space-two :
    (a b : ℕ) (v w : Bytes)
    → all solid (a ∷ v) ≡ true
    → all solid (b ∷ w) ≡ true
    → trim_space ((a ∷ v) ++ (b' ' ∷ b ∷ w)) ≡ (a ∷ v) ++ (b' ' ∷ b ∷ w)
trim_space-two a b v w h k =
    trim_space-solid_ends a (v ++ (b' ' ∷ b ∷ w)) (ground arith)
      (ends_solid-append (a ∷ v) (b' ' ∷ b ∷ w) (solid-ends_solid b w k))
