-- ===== src/Text/Scanner.antt =====
-- `bufio.Scanner` with the default split by lines and the default buffer of 65536 bytes, over the bytes
-- that a reader gives. A line that fills the buffer ends the scan with an error.
pub mod Laws
use cloudnan_agent.Base.{
  ℕ, Bool, true, false, List, [], ◌∷◌, ◌==◌, if◌then◌else◌, ltb, length, Bytes,
}
use cloudnan_agent.Text.Lines.{split_byte}

abbrev pub newline : ℕ
newline = 10

abbrev pub carriage_return : ℕ
carriage_return = 13

unfoldable pub drop_cr : Bytes → Bytes
drop_cr [] = []
drop_cr (c ∷ []) = if c == carriage_return then [] else c ∷ []
drop_cr (c ∷ d ∷ s) = c ∷ drop_cr (d ∷ s)

abbrev pub max_token_size : ℕ
max_token_size = 65536

-- A line in front of the lines behind it, unless it is too long.
abbrev pub scan_part : Bytes → List Bytes × Bool → List Bytes × Bool
scan_part part (lines, too_long) =
    if ltb (length part) max_token_size then (drop_cr part ∷ lines, too_long) else ([], true)

-- The lines up to one that is too long, and whether there is one. Nothing is given for an empty text
-- behind the last newline.
unfoldable pub scan_parts : List Bytes → List Bytes × Bool
unfolding drop_cr
scan_parts [] = ([], false)
scan_parts ([] ∷ []) = ([], false)
scan_parts ((c ∷ s) ∷ []) = scan_part (c ∷ s) ([], false)
scan_parts (part ∷ next ∷ parts) = let rest = scan_parts (next ∷ parts) in scan_part part rest

unfoldable pub scan_lines : Bytes → List Bytes × Bool
unfolding split_byte scan_parts
scan_lines s = scan_parts (split_byte s newline)
