-- ===== src/Text/Search.antt =====
-- `strings.HasPrefix`, `IndexByte`, `Index`, `Contains` and `ReplaceAll`; -1 is `none`.
pub mod Laws
use cloudnan_agent.Base.{
  ℕ, zero, suc, Bool, true, false, ◌&&◌, ◌||◌, List, [], ◌∷◌, ◌++◌, Option, none, some, ◌==◌,
  if◌then◌else◌, Bytes,
}
use mathlib.Core.Option

unfoldable pub has_prefix : Bytes → Bytes → Bool
has_prefix s [] = true
has_prefix [] (p ∷ ps) = false
has_prefix (c ∷ s) (p ∷ ps) = c == p && has_prefix s ps

unfoldable pub index_byte : Bytes → ℕ → Option ℕ
index_byte [] b = none
index_byte (c ∷ s) b = if c == b then some 0 else Option.map suc (index_byte s b)

unfoldable pub index : Bytes → Bytes → Option ℕ
unfolding has_prefix
index [] sub = if has_prefix [] sub then some 0 else none
index (c ∷ s) sub = if has_prefix (c ∷ s) sub then some 0 else Option.map suc (index s sub)

unfoldable pub contains : Bytes → Bytes → Bool
unfolding index
contains s sub = elim (index s sub) [ none ↦ false | some at ↦ true ]

-- `ReplaceAll` of one byte by a text.
unfoldable pub replace_byte : Bytes → ℕ → Bytes → Bytes
replace_byte [] old new = []
replace_byte (c ∷ s) old new = (if c == old then new else c ∷ []) ++ replace_byte s old new
