-- ===== src/Text/Lines.antt =====
-- `strings.Join` and `strings.Split` at one byte.
pub mod Laws
use cloudnan_agent.Base.{ℕ, List, [], ◌∷◌, ◌++◌, ◌==◌, if◌then◌else◌, Bytes}

unfoldable pub join : List Bytes → Bytes → Bytes
join [] sep = []
join (p ∷ []) sep = p
join (p ∷ q ∷ parts) sep = p ++ (sep ++ join (q ∷ parts) sep)

-- A byte in front of the first part.
abbrev pub first_part_with : ℕ → List Bytes → List Bytes
first_part_with c [] = (c ∷ []) ∷ []
first_part_with c (p ∷ parts) = (c ∷ p) ∷ parts

unfoldable pub split_byte : Bytes → ℕ → List Bytes
split_byte [] sep = [] ∷ []
split_byte (c ∷ s) sep =
    let parts = split_byte s sep in if c == sep then [] ∷ parts else first_part_with c parts
