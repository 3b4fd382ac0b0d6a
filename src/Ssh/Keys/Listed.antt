-- ===== src/Ssh/Keys/Listed.antt =====
-- The lists of lines that the code puts together hold the lines that are wanted.
use cloudnan_agent.Base.{
  Among, first, next, subst, true, false, ◌||◌, List, [], ◌∷◌, ltb, length, Bytes, Bool-cases, ◌≡◌,
  inl, inr, refl, sym, ap, ◌∙◌,
}
use cloudnan_agent.Ssh.Keys.{
  KeyEntry, is_empty, key_line, active_lines, existing_lines, managed_mark, lines_without,
}
use cloudnan_agent.Ssh.Keys.Wanted.{
  KeyLine, nameless, has_name, short, commented, Unmanaged, unmanaged, Unmarked, unmarked,
  ActiveCount, no_keys, active, inactive,
}
use cloudnan_agent.Text.Search.{contains}
use cloudnan_agent.Text.Space.{fields, trim_space}

key_line-KeyLine : (key : KeyEntry) → KeyLine key (key_line key)
unfolding key_line
key_line-KeyLine key = elim (Bool-cases (is_empty key.name)) [
  | inl e ↦ rw e (nameless e refl)
  | inr e ↦ elim (Bool-cases (contains (trim_space key.public_key) key.name)) [
    | inl f ↦ rw (e, f) (has_name f refl)
    | inr f ↦ elim (Bool-cases (ltb 1 (length (fields (trim_space key.public_key))))) [
      | inl g ↦ rw (e, f, g) (commented e f g refl)
      | inr g ↦ rw (e, f, g) (short g refl)
    ]
  ]
]

key_line_unique : (key : KeyEntry) (line : Bytes) → KeyLine key line → line ≡ key_line key
unfolding key_line
key_line_unique key line (nameless e h) = rw e h
key_line_unique key line (has_name f h) = elim (Bool-cases (is_empty key.name)) [
  | inl e ↦ rw e h
  | inr e ↦ rw (e, f) h
]
key_line_unique key line (short g h) = elim (Bool-cases (is_empty key.name)) [
  | inl e ↦ rw e h
  | inr e ↦ elim (Bool-cases (contains (trim_space key.public_key) key.name)) [
    | inl f ↦ rw (e, f) h
    | inr f ↦ rw (e, f, g) h
  ]
]
key_line_unique key line (commented e f g h) = rw (e, f, g) h

pub active_lines-key :
    (line : Bytes) (keys : List KeyEntry)
    → Among line (active_lines keys)
    → (key : KeyEntry) × Among key keys × (key.is_active ≡ true) × KeyLine key line
unfolding active_lines
active_lines-key line [] a = elim a [ ]
active_lines-key line (key ∷ keys) a = elim (Bool-cases key.is_active) [
  | inl e ↦ by_first e (rw e at a) (active_lines-key line keys)
  | inr e ↦ later (active_lines-key line keys (rw e at a))
]
  where
    later :
        (k : KeyEntry) × Among k keys × (k.is_active ≡ true) × KeyLine k line
        → (k : KeyEntry) × Among k (key ∷ keys) × (k.is_active ≡ true) × KeyLine k line
    later (k, b, e, l) = (k, next b, e, l)

    by_first :
        key.is_active ≡ true
        → Among line (key_line key ∷ active_lines keys)
        → (Among line (active_lines keys)
            → (k : KeyEntry) × Among k keys × (k.is_active ≡ true) × KeyLine k line)
        → (k : KeyEntry) × Among k (key ∷ keys) × (k.is_active ≡ true) × KeyLine k line
    by_first e (first h) rec =
        (key, first refl, e, subst (KeyLine key) (sym h) (key_line-KeyLine key))
    by_first e (next b) rec = later (rec b)

pub active_lines-Among :
    (line : Bytes) (key : KeyEntry) (keys : List KeyEntry)
    → Among key keys
    → key.is_active ≡ true
    → KeyLine key line
    → Among line (active_lines keys)
unfolding active_lines
active_lines-Among line key [] a h l = elim a [ ]
active_lines-Among line key (k ∷ keys) (first e) h l =
    rw (ap (λ x. x.is_active) (sym e) ∙ h) (first (key_line_unique key line l ∙ ap key_line e))
active_lines-Among line key (k ∷ keys) (next a) h l = elim (Bool-cases k.is_active) [
  | inl e ↦ rw e (next (active_lines-Among line key keys a h l))
  | inr e ↦ rw e (active_lines-Among line key keys a h l)
]

pub active_lines-ActiveCount :
    (keys : List KeyEntry) → ActiveCount keys (length (active_lines keys))
unfolding active_lines
active_lines-ActiveCount [] = no_keys
active_lines-ActiveCount (key ∷ keys) = elim (Bool-cases key.is_active) [
  | inl e ↦ simp e (active e (active_lines-ActiveCount keys))
  | inr e ↦ simp e (inactive e (active_lines-ActiveCount keys))
]

Unmanaged-next :
    {t line : Bytes} {texts : List Bytes} → Unmanaged texts line → Unmanaged (t ∷ texts) line
Unmanaged-next (unmanaged text a h e f) = unmanaged text (next a) h e f

pub existing_lines-Unmanaged :
    (line : Bytes) (texts : List Bytes) → Among line (existing_lines texts) → Unmanaged texts line
unfolding existing_lines
existing_lines-Unmanaged line [] a = elim a [ ]
existing_lines-Unmanaged line (text ∷ texts) a = elim (Bool-cases (is_empty (trim_space text))) [
  | inl e ↦ Unmanaged-next (existing_lines-Unmanaged line texts (rw e at a))
  | inr e ↦ elim (Bool-cases (contains (trim_space text) managed_mark)) [
    | inl f ↦ Unmanaged-next (existing_lines-Unmanaged line texts (rw (e, f) at a))
    | inr f ↦ by_first e f (rw (e, f) at a) (existing_lines-Unmanaged line texts)
  ]
]
  where
    by_first :
        is_empty (trim_space text) ≡ false
        → contains (trim_space text) managed_mark ≡ false
        → Among line (trim_space text ∷ existing_lines texts)
        → (Among line (existing_lines texts) → Unmanaged texts line)
        → Unmanaged (text ∷ texts) line
    by_first e f (first h) rec =
        unmanaged text (first refl) h (ap is_empty h ∙ e) (ap (λ l. contains l managed_mark) h ∙ f)
    by_first e f (next b) rec = Unmanaged-next (rec b)

pub existing_lines-Among :
    (line : Bytes) (texts : List Bytes) → Unmanaged texts line → Among line (existing_lines texts)
unfolding existing_lines
existing_lines-Among line [] (unmanaged text a h e f) = elim a [ ]
existing_lines-Among line (t ∷ texts) (unmanaged text (first s) h e f) =
    let same : line ≡ trim_space t = h ∙ ap trim_space s in
    rw (ap is_empty (sym same) ∙ e, ap (λ l. contains l managed_mark) (sym same) ∙ f) (first same)
existing_lines-Among line (t ∷ texts) (unmanaged text (next a) h e f) =
    elim (Bool-cases (is_empty (trim_space t) || contains (trim_space t) managed_mark)) [
      | inl g ↦ rw g (existing_lines-Among line texts (unmanaged text a h e f))
      | inr g ↦ rw g (next (existing_lines-Among line texts (unmanaged text a h e f)))
    ]

Unmarked-next :
    {mark t line : Bytes} {texts : List Bytes}
    → Unmarked mark texts line
    → Unmarked mark (t ∷ texts) line
Unmarked-next (unmarked a h) = unmarked (next a) h

pub lines_without-Unmarked :
    (mark line : Bytes) (texts : List Bytes)
    → Among line (lines_without mark texts)
    → Unmarked mark texts line
unfolding lines_without
lines_without-Unmarked mark line [] a = elim a [ ]
lines_without-Unmarked mark line (t ∷ texts) a = elim (Bool-cases (contains t mark)) [
  | inl e ↦ Unmarked-next (lines_without-Unmarked mark line texts (rw e at a))
  | inr e ↦ by_first e (rw e at a) (lines_without-Unmarked mark line texts)
]
  where
    by_first :
        contains t mark ≡ false
        → Among line (t ∷ lines_without mark texts)
        → (Among line (lines_without mark texts) → Unmarked mark texts line)
        → Unmarked mark (t ∷ texts) line
    by_first e (first h) rec = unmarked (first h) (ap (λ l. contains l mark) h ∙ e)
    by_first e (next b) rec = Unmarked-next (rec b)

pub lines_without-Among :
    (mark line : Bytes) (texts : List Bytes)
    → Unmarked mark texts line
    → Among line (lines_without mark texts)
unfolding lines_without
lines_without-Among mark line [] (unmarked a h) = elim a [ ]
lines_without-Among mark line (t ∷ texts) (unmarked (first s) h) =
    rw (ap (λ l. contains l mark) (sym s) ∙ h) (first s)
lines_without-Among mark line (t ∷ texts) (unmarked (next a) h) =
    elim (Bool-cases (contains t mark)) [
      | inl e ↦ rw e (lines_without-Among mark line texts (unmarked a h))
      | inr e ↦ rw e (next (lines_without-Among mark line texts (unmarked a h)))
    ]
