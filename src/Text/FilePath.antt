-- ===== src/Text/FilePath.antt =====
-- `filepath.Clean`, `filepath.Join`, `filepath.Dir`, `filepath.Base` and `filepath.IsAbs` of Go on
-- Unix. A path is worked through part by part; the parts that stay are kept innermost first.
pub mod Laws
use mathlib.Core.List.{reverse}
use cloudnan_agent.Base.{
  ℕ, Bool, true, false, ◌&&◌, ◌||◌, not, List, [], ◌∷◌, ◌++◌, if◌then◌else◌, Bytes, codes, ◌==◌,
}
use cloudnan_agent.Text.Case.{bytes_equal}
use cloudnan_agent.Text.Lines.{join, split_byte}
use cloudnan_agent.Text.Search.{has_prefix}

abbrev pub slash : ℕ
slash = b'/'

abbrev pub is_empty : Bytes → Bool
is_empty [] = true
is_empty (c ∷ s) = false

unfoldable pub is_dot : Bytes → Bool
unfolding bytes_equal
is_dot p = bytes_equal p (codes ".")

unfoldable pub is_dotdot : Bytes → Bool
unfolding bytes_equal
is_dotdot p = bytes_equal p (codes "..")

-- `..` takes the innermost part away; a path that is not rooted keeps what leads out of it.
unfoldable pub parent : Bool → List Bytes → List Bytes
unfolding is_dotdot
parent rooted [] = if rooted then [] else codes ".." ∷ []
parent rooted (p ∷ kept) = if is_dotdot p then codes ".." ∷ p ∷ kept else kept

unfoldable pub clean_part : Bool → List Bytes → Bytes → List Bytes
unfolding parent is_dot is_dotdot
clean_part rooted kept part =
    if is_empty part || is_dot part
    then kept
    else if is_dotdot part
    then parent rooted kept
    else part ∷ kept

unfoldable pub clean_parts : Bool → List Bytes → List Bytes → List Bytes
unfolding clean_part
clean_parts rooted kept [] = kept
clean_parts rooted kept (part ∷ parts) = clean_parts rooted (clean_part rooted kept part) parts

unfoldable pub render_path : Bool → List Bytes → Bytes
unfolding join
render_path true kept = slash ∷ join (reverse kept) (slash ∷ [])
render_path false [] = codes "."
render_path false (p ∷ kept) = join (reverse (p ∷ kept)) (slash ∷ [])

abbrev pub is_abs : Bytes → Bool
is_abs [] = false
is_abs (c ∷ s) = c == slash

unfoldable pub clean : Bytes → Bytes
unfolding clean_parts render_path split_byte
clean [] = codes "."
clean (c ∷ s) =
    render_path (is_abs (c ∷ s)) (clean_parts (is_abs (c ∷ s)) [] (split_byte (c ∷ s) slash))

-- `filepath.Join` of two elements and more: empty ones in front are ignored.
unfoldable pub join_paths : List Bytes → Bytes
unfolding clean join
join_paths [] = []
join_paths ([] ∷ elems) = join_paths elems
join_paths ((c ∷ s) ∷ elems) = clean (join ((c ∷ s) ∷ elems) (slash ∷ []))

-- The text up to the last slash, with it, and the text behind it.
unfoldable pub split_path : Bytes → Bytes × Bytes
split_path [] = ([], [])
split_path (c ∷ s) =
    let (front, name) = split_path s in
    if is_empty front && not (c == slash) then ([], c ∷ name) else (c ∷ front, name)

unfoldable pub dir : Bytes → Bytes
unfolding split_path clean
dir path = clean (split_path path).0

abbrev drop_slashes : Bytes → Bytes
drop_slashes [] = []
drop_slashes (c ∷ s) = if c == slash then drop_slashes s else c ∷ s

unfoldable pub base : Bytes → Bytes
unfolding split_path
base [] = codes "."
base (c ∷ s) = elim (reverse (drop_slashes (reverse (c ∷ s)))) [
  | [] ↦ codes "/"
  | d ∷ t ↦ (split_path (d ∷ t)).1
]
