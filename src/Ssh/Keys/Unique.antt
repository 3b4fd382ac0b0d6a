-- ===== src/Ssh/Keys/Unique.antt =====
-- Of the lines with one id the first is kept.
use cloudnan_agent.Base.{
  Every, true, false, List, [], ◌∷◌, ◌++◌, ◌≡◌, ◌⊎◌, inl, inr, refl, sym, ap, ◌∙◌, Bool-cases,
  Bytes,
}
use cloudnan_agent.Ssh.Keys.{key_id, seen_before, unique_from}
use cloudnan_agent.Text.Case.{bytes_equal}
use cloudnan_agent.Text.Case.Laws.{bytes_equal-eq, bytes_equal_self}

-- One of the lines has the id.
pub data HasId (id : Bytes) : List Bytes → Type 0 where
  here : {line : Bytes} {lines : List Bytes} → key_id line ≡ id → HasId id (line ∷ lines)
  there : {line : Bytes} {lines : List Bytes} → HasId id lines → HasId id (line ∷ lines)

-- No two of the lines have the same id.
pub data Distinct : List Bytes → Type 0 where
  no_lines : Distinct []
  new_line :
      {line : Bytes} {lines : List Bytes}
      → ¬ HasId (key_id line) lines
      → Distinct lines
      → Distinct (line ∷ lines)

pub HasId-left :
    {id : Bytes} {xs : List Bytes} (ys : List Bytes) → HasId id xs → HasId id (xs ++ ys)
HasId-left ys (here e) = here e
HasId-left ys (there h) = there (HasId-left ys h)

pub HasId-right :
    {id : Bytes} (xs : List Bytes) {ys : List Bytes} → HasId id ys → HasId id (xs ++ ys)
HasId-right [] h = h
HasId-right (x ∷ xs) h = there (HasId-right xs h)

seen_before-cons :
    (id x : Bytes) (seen : List Bytes)
    → seen_before id (x ∷ seen) ≡ true
    → (id ≡ x) ⊎ (seen_before id seen ≡ true)
unfolding seen_before
seen_before-cons id x seen h = elim (Bool-cases (bytes_equal id x)) [
  | inl e ↦ inl (bytes_equal-eq id x e)
  | inr e ↦ inr (rw e at h)
]

seen_before-later :
    (id x : Bytes) (seen : List Bytes)
    → seen_before id (x ∷ seen) ≡ false
    → seen_before id seen ≡ false
unfolding seen_before
seen_before-later id x seen h = elim (Bool-cases (bytes_equal id x)) [
  | inl e ↦ absurd (cc (rw e at h))
  | inr e ↦ rw e at h
]

seen_before_self : (id : Bytes) (seen : List Bytes) → seen_before id (id ∷ seen) ≡ true
unfolding seen_before
seen_before_self id seen = rw (bytes_equal_self id) refl

-- No id is lost.
HasId-unique_from :
    {id : Bytes} {lines : List Bytes} (seen : List Bytes)
    → HasId id lines
    → (seen_before id seen ≡ true) ⊎ HasId id (unique_from seen lines)
unfolding unique_from
HasId-unique_from seen (here {line} {lines} e) =
    elim (Bool-cases (seen_before (key_id line) seen)) [
      | inl b ↦ inl (ap (λ x. seen_before x seen) (sym e) ∙ b)
      | inr b ↦ inr (rw b (here e))
    ]
HasId-unique_from {id} seen (there {line} {lines} h) =
    elim (Bool-cases (seen_before (key_id line) seen)) [
      | inl b ↦ rw b (HasId-unique_from seen h)
      | inr b ↦ rw b (by_rest (HasId-unique_from (key_id line ∷ seen) h))
    ]
  where
    by_rest :
        (seen_before id (key_id line ∷ seen) ≡ true)
          ⊎ HasId id (unique_from (key_id line ∷ seen) lines)
        → (seen_before id seen ≡ true) ⊎ HasId id (line ∷ unique_from (key_id line ∷ seen) lines)
    by_rest (inr r) = inr (there r)
    by_rest (inl s) = elim (seen_before-cons id (key_id line) seen s) [
      | inl e ↦ inr (here (sym e))
      | inr t ↦ inl t
    ]

-- What is kept was not seen before.
unique_from-new :
    {id : Bytes} (seen lines : List Bytes)
    → HasId id (unique_from seen lines)
    → seen_before id seen ≡ false
unfolding unique_from
unique_from-new {id = id} seen [] h = elim h [ ]
unique_from-new {id = id} seen (line ∷ lines) h =
    elim (Bool-cases (seen_before (key_id line) seen)) [
      | inl b ↦ unique_from-new seen lines (rw b at h)
      | inr b ↦ by_line b (rw b at h) (unique_from-new (key_id line ∷ seen) lines)
    ]
  where
    by_line :
        seen_before (key_id line) seen ≡ false
        → HasId id (line ∷ unique_from (key_id line ∷ seen) lines)
        → (HasId id (unique_from (key_id line ∷ seen) lines)
            → seen_before id (key_id line ∷ seen) ≡ false)
        → seen_before id seen ≡ false
    by_line b (here e) rec = ap (λ x. seen_before x seen) (sym e) ∙ b
    by_line b (there h) rec = seen_before-later id (key_id line) seen (rec h)

unique_from-Distinct : (seen lines : List Bytes) → Distinct (unique_from seen lines)
unfolding unique_from
unique_from-Distinct seen [] = no_lines
unique_from-Distinct seen (line ∷ lines) = elim (Bool-cases (seen_before (key_id line) seen)) [
  | inl b ↦ rw b (unique_from-Distinct seen lines)
  | inr b ↦ rw b (
      new_line
        (λ h.
          cc (seen_before_self (key_id line) seen, unique_from-new (key_id line ∷ seen) lines h))
        (unique_from-Distinct (key_id line ∷ seen) lines))
]

pub unique_from-Every :
    (P : Bytes → Type 0) (seen lines : List Bytes)
    → Every P lines
    → Every P (unique_from seen lines)
unfolding unique_from
unique_from-Every P seen [] h = tt
unique_from-Every P seen (line ∷ lines) (f, h) =
    elim (Bool-cases (seen_before (key_id line) seen)) [
      | inl b ↦ rw b (unique_from-Every P seen lines h)
      | inr b ↦ rw b (f, unique_from-Every P (key_id line ∷ seen) lines h)
    ]

unseen : (id : Bytes) → ¬ (seen_before id [] ≡ true)
unfolding seen_before
unseen id h = cc

-- Every id of `lines` is kept, in one line, and the lines that are kept are among `lines`.
pub record Represents (kept lines : List Bytes) : Type 1 where
  pub covers : (id : Bytes) → HasId id lines → HasId id kept
  pub distinct : Distinct kept
  pub among : (P : Bytes → Type 0) → Every P lines → Every P kept

pub unique_from-Represents : (lines : List Bytes) → Represents (unique_from [] lines) lines
unique_from-Represents lines = record {
  covers = λ id h. not_seen id (HasId-unique_from [] h);
  distinct = unique_from-Distinct [] lines;
  among = λ P h. unique_from-Every P [] lines h;
}
  where
    not_seen :
        (id : Bytes)
        → (seen_before id [] ≡ true) ⊎ HasId id (unique_from [] lines)
        → HasId id (unique_from [] lines)
    not_seen id (inl h) = absurd (unseen id h)
    not_seen id (inr h) = h
