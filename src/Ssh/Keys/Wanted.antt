-- ===== src/Ssh/Keys/Wanted.antt =====
-- Which lines the file of keys is to hold, said without the code that puts them together.
use cloudnan_agent.Base.{
  Among, first, next, Among-Every, Every-Among, subst, ℕ, suc, Bool, true, false, List, [], ◌∷◌,
  ◌++◌, ltb, length, Bytes, codes, ◌≡◌, refl, sym, ap, ◌∙◌,
}
use cloudnan_agent.Ssh.Keys.{KeyEntry, is_empty, id_of_fields, key_id}
use cloudnan_agent.Ssh.Keys.Unique.{HasId, here, there, Distinct, no_lines, new_line, Represents}
use cloudnan_agent.Text.Search.{contains}
use cloudnan_agent.Text.Space.{fields, trim_space}

-- What a line is told apart by: its first two words with a blank between them, or the whole line if
-- it has fewer.
pub data IdText (line id : Bytes) : Type 0 where
  two_words :
      (a b : Bytes) (more : List Bytes)
      → fields line ≡ a ∷ b ∷ more
      → id ≡ a ++ (b' ' ∷ b)
      → IdText line id
  one_word : (a : Bytes) → fields line ≡ a ∷ [] → id ≡ line → IdText line id
  no_word : fields line ≡ [] → id ≡ line → IdText line id

abbrev pub SameId : Bytes → Bytes → Type 0
SameId l m = (id : Bytes) × IdText l id × IdText m id

-- No two of the lines are told apart by the same text.
pub data Different : List Bytes → Type 0 where
  no_more : Different []
  one_more :
      {line : Bytes} {lines : List Bytes}
      → ((m : Bytes) → Among m lines → ¬ SameId line m)
      → Different lines
      → Different (line ∷ lines)

-- The line of a key: its text, trimmed, with a comment if it has a name that the text does not hold
-- and the text has two words at least.
pub data KeyLine (key : KeyEntry) (line : Bytes) : Type 0 where
  nameless : is_empty key.name ≡ true → line ≡ trim_space key.public_key → KeyLine key line
  has_name :
      contains (trim_space key.public_key) key.name ≡ true
      → line ≡ trim_space key.public_key
      → KeyLine key line
  short :
      ltb 1 (length (fields (trim_space key.public_key))) ≡ false
      → line ≡ trim_space key.public_key
      → KeyLine key line
  commented :
      is_empty key.name ≡ false
      → contains (trim_space key.public_key) key.name ≡ false
      → ltb 1 (length (fields (trim_space key.public_key))) ≡ true
      → line
        ≡ trim_space key.public_key
          ++ (codes " # managed-by-cloudnan id=" ++ (key.id ++ (codes " name=" ++ key.name)))
      → KeyLine key line

-- A line of the file, trimmed, that is neither empty nor marked as managed.
pub data Unmanaged (texts : List Bytes) (line : Bytes) : Type 0 where
  unmanaged :
      (text : Bytes)
      → Among text texts
      → line ≡ trim_space text
      → is_empty line ≡ false
      → contains line (codes "managed-by-cloudnan") ≡ false
      → Unmanaged texts line

-- A line of the file that does not have the mark.
pub data Unmarked (mark : Bytes) (texts : List Bytes) (line : Bytes) : Type 0 where
  unmarked : Among line texts → contains line mark ≡ false → Unmarked mark texts line

-- The lines of the active keys and, unless all are replaced, the unmanaged lines of the file.
pub data Wanted (keys : List KeyEntry) (replace_all : Bool) (texts : List Bytes) (line : Bytes)
    : Type 0 where
  of_key :
      (key : KeyEntry)
      → Among key keys
      → key.is_active ≡ true
      → KeyLine key line
      → Wanted keys replace_all texts line
  of_file : replace_all ≡ false → Unmanaged texts line → Wanted keys replace_all texts line

pub data ActiveCount : List KeyEntry → ℕ → Type 0 where
  no_keys : ActiveCount [] 0
  active :
      {key : KeyEntry} {keys : List KeyEntry} {n : ℕ}
      → key.is_active ≡ true
      → ActiveCount keys n
      → ActiveCount (key ∷ keys) (suc n)
  inactive :
      {key : KeyEntry} {keys : List KeyEntry} {n : ℕ}
      → key.is_active ≡ false
      → ActiveCount keys n
      → ActiveCount (key ∷ keys) n

-- The lines `kept` stand for the wanted ones: each of these shares its id with one of them, each of
-- them is wanted, and no two share an id.
pub record Stores (wanted : Bytes → Type 0) (kept : List Bytes) : Type 0 where
  pub covers : (line : Bytes) → wanted line → (k : Bytes) × Among k kept × SameId line k
  pub only : (k : Bytes) → Among k kept → wanted k
  pub different : Different kept

IdText-key_id : (line : Bytes) → IdText line (key_id line)
unfolding key_id
IdText-key_id line = by_fields (fields line) refl
  where
    by_fields :
        (words : List Bytes) → fields line ≡ words → IdText line (id_of_fields line (fields line))
    by_fields [] e = no_word e (ap (id_of_fields line) e)
    by_fields (a ∷ []) e = one_word a e (ap (id_of_fields line) e)
    by_fields (a ∷ b ∷ more) e = two_words a b more e (ap (id_of_fields line) e)

key_id-IdText : (line id : Bytes) → IdText line id → id ≡ key_id line
unfolding key_id
key_id-IdText line id (two_words a b more e h) = h ∙ sym (ap (id_of_fields line) e)
key_id-IdText line id (one_word a e h) = h ∙ sym (ap (id_of_fields line) e)
key_id-IdText line id (no_word e h) = h ∙ sym (ap (id_of_fields line) e)

SameId-of : (l m : Bytes) → key_id m ≡ key_id l → SameId l m
SameId-of l m e = (key_id m, rw e (IdText-key_id l), IdText-key_id m)

of_SameId : (l m : Bytes) → SameId l m → key_id m ≡ key_id l
of_SameId l m (id, a, b) = sym (key_id-IdText m id b) ∙ key_id-IdText l id a

HasId-Among :
    {id : Bytes} (lines : List Bytes)
    → HasId id lines
    → (k : Bytes) × Among k lines × (key_id k ≡ id)
HasId-Among [] h = elim h [ ]
HasId-Among (line ∷ lines) (here e) = (line, first refl, e)
HasId-Among (line ∷ lines) (there h) = let (k, a, e) = HasId-Among lines h in (k, next a, e)

Among-HasId : {k : Bytes} (lines : List Bytes) → Among k lines → HasId (key_id k) lines
Among-HasId [] h = elim h [ ]
Among-HasId (line ∷ lines) (first e) = here (ap key_id (sym e))
Among-HasId (line ∷ lines) (next h) = there (Among-HasId lines h)

Distinct-Different : {lines : List Bytes} → Distinct lines → Different lines
Distinct-Different no_lines = no_more
Distinct-Different (new_line {line} {lines} fresh d) =
    one_more
      (λ m a s. fresh (subst (λ x. HasId x lines) (of_SameId line m s) (Among-HasId lines a)))
      (Distinct-Different d)

-- Lines that represent a list store what is on the list.
pub Represents-Stores :
    (wanted : Bytes → Type 0) {kept : List Bytes} (lines : List Bytes)
    → Represents kept lines
    → ((line : Bytes) → wanted line → Among line lines)
    → ((line : Bytes) → Among line lines → wanted line)
    → Stores wanted kept
Represents-Stores wanted {kept} lines r into out = record {
  covers = λ line w.
      (let (k, a, e) =
          HasId-Among kept (r.covers (key_id line) (Among-HasId lines (into line w))) in
        (k, a, SameId-of line k e));
  only = λ k a. Among-Every wanted kept (r.among wanted (Every-Among wanted lines out)) a;
  different = Distinct-Different r.distinct;
}
