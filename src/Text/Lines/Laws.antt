-- ===== src/Text/Lines/Laws.antt =====
-- Splitting at a byte, put together again.
use cloudnan_agent.Base.{
  ℕ, true, List, [], ◌∷◌, ◌++◌, ◌==◌, Bytes, ◌≡◌, refl, sym, ap, ◌∙◌, inl, inr, Bool-cases, ==_iff,
  ==_refl, all, not, arith,
}
use cloudnan_agent.Text.Lines.{join, first_part_with, split_byte}

split_byte-cons :
    (s : Bytes) (sep : ℕ) → (p : Bytes) × (ps : List Bytes) × (split_byte s sep ≡ p ∷ ps)
unfolding split_byte
split_byte-cons [] sep = ([], [], refl)
split_byte-cons (c ∷ s) sep =
    let (p, ps, e) = split_byte-cons s sep in
    elim (Bool-cases (c == sep)) [
      | inl h ↦ ([], p ∷ ps, rw (h, e) refl)
      | inr h ↦ (c ∷ p, ps, rw (h, e) refl)
    ]

join-first_part_with :
    (c : ℕ) (p : Bytes) (ps : List Bytes) (sep : Bytes)
    → join (first_part_with c (p ∷ ps)) sep ≡ c ∷ join (p ∷ ps) sep
unfolding join
join-first_part_with c p [] sep = refl
join-first_part_with c p (q ∷ ps) sep = refl

join-empty :
    (p : Bytes) (ps : List Bytes) (sep : ℕ)
    → join ([] ∷ p ∷ ps) (sep ∷ []) ≡ sep ∷ join (p ∷ ps) (sep ∷ [])
unfolding join
join-empty p ps sep = refl

pub join-split_byte : (s : Bytes) (sep : ℕ) → join (split_byte s sep) (sep ∷ []) ≡ s
unfolding split_byte
join-split_byte [] sep = unfold join in refl
join-split_byte (c ∷ s) sep =
    let (p, ps, e) = split_byte-cons s sep in
    let again : join (p ∷ ps) (sep ∷ []) ≡ s =
      ap (λ x. join x (sep ∷ [])) (sym e) ∙ join-split_byte s sep in
    elim (Bool-cases (c == sep)) [
      | inl h ↦
          rw (h, e)
            (join-empty p ps sep ∙ ap (◌∷◌ sep) again ∙ ap (λ x. x ∷ s) (sym ((==_iff c sep).0 h)))
      | inr h ↦ rw (h, e) (join-first_part_with c p ps (sep ∷ []) ∙ ap (◌∷◌ c) again)
    ]

-- Two parts stand around the byte.
pub split_byte-two : (s a b : Bytes) (sep : ℕ) → split_byte s sep ≡ a ∷ b ∷ [] → s ≡ a ++ (sep ∷ b)
unfolding join
split_byte-two s a b sep h = sym (join-split_byte s sep) ∙ ap (λ x. join x (sep ∷ [])) h

pub split_byte-lacks :
    (s : Bytes) (sep : ℕ) → all (λ c. not (c == sep)) s ≡ true → split_byte s sep ≡ s ∷ []
unfolding split_byte
split_byte-lacks [] sep h = refl
split_byte-lacks (c ∷ s) sep h = ground (arith, split_byte-lacks s sep)

-- A byte that is in neither part separates them.
pub split_byte-around :
    (a b : Bytes) (sep : ℕ)
    → all (λ c. not (c == sep)) a ≡ true
    → all (λ c. not (c == sep)) b ≡ true
    → split_byte (a ++ (sep ∷ b)) sep ≡ a ∷ b ∷ []
unfolding split_byte
split_byte-around [] b sep h k = rw (==_refl sep, split_byte-lacks b sep k) refl
split_byte-around (c ∷ a) b sep h k = ground (arith, split_byte-around a b sep)
