-- ===== src/Text/Scanner/Laws.antt =====
-- Lines that are written one behind the other, each with a newline, are read back.
use cloudnan_agent.Base.{
  Every, ℕ, ◌≤◌, Bool, true, false, not, List, [], ◌∷◌, ◌++◌, ◌==◌, ◌≡◌, refl, ap, ◌∙◌, arith, inl,
  inr, Bool-cases, Bytes, all, length, ltb, append_assoc, ==_refl,
}
use cloudnan_agent.Text.Lines.{join, split_byte, first_part_with}
use cloudnan_agent.Text.Scanner.{
  newline, drop_cr, max_token_size, scan_part, scan_parts, scan_lines,
}
use cloudnan_agent.Text.Space.{ascii_space, trim_space}
use cloudnan_agent.Text.Space.Laws.{trim_space-le}
use cloudnan_agent.Text.Space.Trimmed.{all-trim_space, trim_space-cases}

-- A text that a scanner reads back as one line: it holds no newline, does not end in a carriage return
-- and is shorter than the buffer.
pub record FitsLine (line : Bytes) : Type 0 where
  pub one_line : all (λ c. not (c == newline)) line ≡ true
  pub short : ltb (length line) max_token_size ≡ true
  pub no_cr : drop_cr line ≡ line

pub split_byte-behind :
    (a b : Bytes) (sep : ℕ)
    → all (λ c. not (c == sep)) a ≡ true
    → split_byte (a ++ (sep ∷ b)) sep ≡ a ∷ split_byte b sep
unfolding split_byte
split_byte-behind [] b sep h = rw (==_refl sep) refl
split_byte-behind (c ∷ a) b sep h = ground (arith, split_byte-behind a b sep)

-- The lines, each with a newline behind it.
abbrev pub lines_text : List Bytes → Bytes
lines_text [] = []
lines_text (line ∷ lines) = line ++ (newline ∷ lines_text lines)

pub join-lines_text :
    (line : Bytes) (lines : List Bytes)
    → join (line ∷ lines) (newline ∷ []) ++ newline ∷ [] ≡ lines_text (line ∷ lines)
unfolding join
join-lines_text line [] = refl
join-lines_text line (next ∷ lines) =
    append_assoc line (newline ∷ join (next ∷ lines) (newline ∷ [])) (newline ∷ [])
    ∙ ap (λ x. line ++ (newline ∷ x)) (join-lines_text next lines)

split_byte-lines_text :
    (lines : List Bytes)
    → Every FitsLine lines
    → split_byte (lines_text lines) newline ≡ lines ++ [] ∷ []
split_byte-lines_text [] h = unfold split_byte in refl
split_byte-lines_text (line ∷ lines) (f, h) =
    split_byte-behind line (lines_text lines) newline f.one_line
    ∙ ap (◌∷◌ line) (split_byte-lines_text lines h)

pub scan_part-fits :
    (line : Bytes) {o : List Bytes × Bool} {lines : List Bytes}
    → FitsLine line
    → o ≡ (lines, false)
    → scan_part line o ≡ (line ∷ lines, false)
scan_part-fits line {lines} f h = rw (h, f.short, f.no_cr) refl

scan_parts-lines :
    (lines : List Bytes) → Every FitsLine lines → scan_parts (lines ++ [] ∷ []) ≡ (lines, false)
unfolding scan_parts
scan_parts-lines [] h = refl
scan_parts-lines (line ∷ []) (f, h) = scan_part-fits line f refl
scan_parts-lines (line ∷ next ∷ lines) (f, h) =
    scan_part-fits line f (scan_parts-lines (next ∷ lines) h)

pub scan_lines-lines_text :
    (lines : List Bytes) → Every FitsLine lines → scan_lines (lines_text lines) ≡ (lines, false)
unfolding scan_lines
scan_lines-lines_text lines h =
    ap scan_parts (split_byte-lines_text lines h) ∙ scan_parts-lines lines h

-- Every scanned line is free of newlines and shorter than the buffer.
pub record Scanned (line : Bytes) : Type 0 where
  pub one_line : all (λ c. not (c == newline)) line ≡ true
  pub short : ltb (length line) max_token_size ≡ true

all-drop_cr : (p : ℕ → Bool) (s : Bytes) → all p s ≡ true → all p (drop_cr s) ≡ true
unfolding drop_cr
all-drop_cr p [] h = refl
all-drop_cr p (c ∷ []) h = ground arith
all-drop_cr p (c ∷ d ∷ s) h = ground (arith, all-drop_cr p (d ∷ s))

drop_cr-le : (s : Bytes) → length (drop_cr s) ≤ length s
unfolding drop_cr
drop_cr-le [] = omega arith
drop_cr-le (c ∷ []) = ground arith
drop_cr-le (c ∷ d ∷ s) = omega (arith, drop_cr-le (d ∷ s))

abbrev NoNewline : Bytes → Type 0
NoNewline part = all (λ c. not (c == newline)) part ≡ true

first_part_with-Every :
    (c : ℕ) (parts : List Bytes)
    → (c == newline) ≡ false
    → Every NoNewline parts
    → Every NoNewline (first_part_with c parts)
first_part_with-Every c [] e h = (rw e, tt)
first_part_with-Every c (p ∷ parts) e (f, h) = (rw (e, f), h)

split_byte-Every : (s : Bytes) → Every NoNewline (split_byte s newline)
unfolding split_byte
split_byte-Every [] = (refl, tt)
split_byte-Every (c ∷ s) = elim (Bool-cases (c == newline)) [
  | inl e ↦ rw e (refl, split_byte-Every s)
  | inr e ↦ rw e (first_part_with-Every c (split_byte s newline) e (split_byte-Every s))
]

ltb-le : (a b n : ℕ) → a ≤ b → ltb b n ≡ true → ltb a n ≡ true
ltb-le a b n h k = ground arith

scan_part-Every :
    (part : Bytes) (o : List Bytes × Bool)
    → NoNewline part
    → Every Scanned o.0
    → Every Scanned (scan_part part o).0
scan_part-Every part (lines, too_long) f h = elim (Bool-cases (ltb (length part) max_token_size)) [
  | inl e ↦ rw e (
    record {
      one_line = all-drop_cr (λ c. not (c == newline)) part f;
      short = ltb-le (length (drop_cr part)) (length part) max_token_size (drop_cr-le part) e;
    },
    h,
  )
  | inr e ↦ rw e tt
]

scan_parts-Every : (parts : List Bytes) → Every NoNewline parts → Every Scanned (scan_parts parts).0
unfolding scan_parts
scan_parts-Every [] h = tt
scan_parts-Every ([] ∷ []) h = tt
scan_parts-Every ((c ∷ s) ∷ []) (f, h) = scan_part-Every (c ∷ s) ([], false) f tt
scan_parts-Every (part ∷ next ∷ parts) (f, h) =
    scan_part-Every part (scan_parts (next ∷ parts)) f (scan_parts-Every (next ∷ parts) h)

pub scan_lines-Every : (s : Bytes) → Every Scanned (scan_lines s).0
unfolding scan_lines
scan_lines-Every s = scan_parts-Every (split_byte s newline) (split_byte-Every s)

pub drop_cr-snoc : (s : Bytes) (c : ℕ) → (c == 13) ≡ false → drop_cr (s ++ c ∷ []) ≡ s ++ c ∷ []
unfolding drop_cr
drop_cr-snoc [] c h = rw h refl
drop_cr-snoc (d ∷ []) c h = rw h refl
drop_cr-snoc (d ∷ e ∷ s) c h = ap (◌∷◌ d) (drop_cr-snoc (e ∷ s) c h)

ascii_space-cr : (c : ℕ) → ascii_space c ≡ false → (c == 13) ≡ false
unfolding ascii_space
ascii_space-cr c h = ground arith

drop_cr-trim_space : (s : Bytes) → drop_cr (trim_space s) ≡ trim_space s
drop_cr-trim_space s = elim (trim_space-cases s) [
  | inl e ↦ rw e (unfold drop_cr in refl)
  | inr (t, c, e, h) ↦ rw e (drop_cr-snoc t c (ascii_space-cr c h))
]

-- A scanned line, trimmed, fits into a line again.
pub trim_space-FitsLine : (line : Bytes) → Scanned line → FitsLine (trim_space line)
trim_space-FitsLine line h = record {
  one_line = all-trim_space (λ c. not (c == newline)) line h.one_line;
  short =
      ltb-le (length (trim_space line)) (length line) max_token_size (trim_space-le line) h.short;
  no_cr = drop_cr-trim_space line;
}
