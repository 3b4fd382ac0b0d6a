-- ===== src/Text/Regex/Matches.antt =====
-- What it means for a pattern to match from one place to another, with no order of search in it.
use cloudnan_agent.Base.{
  ℕ, ◌<◌, Bool, true, ◌∷◌, Option, some, ◌≡◌, ◌⊎◌, inl, inr, refl, ◌∙◌, arith, length, Bytes,
}
use cloudnan_agent.Text.Regex.{
  Place, Regex, empty, class, seq, alt, star, word_boundary, text_end, at_boundary, at_end,
}

pub data Matches : Regex → Place → Place → Type 0 where
  nothing : {at : Place} → Matches empty at at
  byte :
      {f : ℕ → Bool} {p : Option ℕ} {c : ℕ} {s : Bytes}
      → f c ≡ true
      → Matches (class f) (p, c ∷ s) (some c, s)
  both : {r q : Regex} {a b c : Place} → Matches r a b → Matches q b c → Matches (seq r q) a c
  left : {r q : Regex} {a b : Place} → Matches r a b → Matches (alt r q) a b
  right : {r q : Regex} {a b : Place} → Matches q a b → Matches (alt r q) a b
  leave : {r : Regex} {at : Place} → Matches (star r) at at
  again : {r : Regex} {a b c : Place} → Matches r a b → Matches (star r) b c → Matches (star r) a c
  boundary : {at : Place} → at_boundary at ≡ true → Matches word_boundary at at
  stop : {at : Place} → at_end at ≡ true → Matches text_end at at

-- A match stays at its place or takes some of the text.
abbrev pub Onward : Place → Place → Type 0
Onward a b = (a ≡ b) ⊎ (length b.1 < length a.1)

Onward-trans : (a b c : Place) → Onward a b → Onward b c → Onward a c
Onward-trans a b c (inl e) (inl f) = inl (e ∙ f)
Onward-trans a b c (inl e) (inr g) = inr (rw e g)
Onward-trans a b c (inr g) (inl f) = inr (rw (← f) g)
Onward-trans a b c (inr g) (inr h) = inr (omega arith)

pub Matches-Onward : {r : Regex} {a b : Place} → Matches r a b → Onward a b
Matches-Onward nothing = inl refl
Matches-Onward (byte h) = inr (omega arith)
Matches-Onward (both {a} {b} {c} d e) = Onward-trans a b c (Matches-Onward d) (Matches-Onward e)
Matches-Onward (left d) = Matches-Onward d
Matches-Onward (right d) = Matches-Onward d
Matches-Onward leave = inl refl
Matches-Onward (again {a} {b} {c} d e) = Onward-trans a b c (Matches-Onward d) (Matches-Onward e)
Matches-Onward (boundary h) = inl refl
Matches-Onward (stop h) = inl refl

-- The text holds a match: at some place that is reached by stepping over bytes.
pub data Holds (r : Regex) : Option ℕ → Bytes → Type 0 where
  here : {p : Option ℕ} {s : Bytes} {b : Place} → Matches r (p, s) b → Holds r p s
  behind : {p : Option ℕ} {c : ℕ} {s : Bytes} → Holds r (some c) s → Holds r p (c ∷ s)
