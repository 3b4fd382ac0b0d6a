-- ===== src/Text/Search/Laws.antt =====
-- Where the first occurrence of a byte or of a two-byte mark stands.
use cloudnan_agent.Base.{
  ℕ, false, [], ◌∷◌, ◌++◌, none, some, ◌≡◌, ◌≢◌, arith, length, Bytes, ==_refl,
}
use cloudnan_agent.Text.Search.{has_prefix, index_byte, index}

-- A byte that the text in front of it does not hold is found behind that text.
pub index_byte-append :
    (text : Bytes) (b : ℕ) (s : Bytes)
    → index_byte text b ≡ none
    → index_byte (text ++ (b ∷ s)) b ≡ some (length text)
unfolding index_byte
index_byte-append [] b s h = rw (==_refl b)
index_byte-append (c ∷ text) b s h = ground (arith, index_byte-append text b s)

mark_behind :
    (text : Bytes) (a b : ℕ) (s : Bytes)
    → a ≢ b
    → has_prefix text (b ∷ []) ≡ false
    → has_prefix (text ++ (a ∷ b ∷ s)) (b ∷ []) ≡ false
unfolding has_prefix
mark_behind [] a b s ne h = ground arith
mark_behind (c ∷ text) a b s ne h = h

-- So is a mark of two different bytes.
pub index-append :
    (text : Bytes) (a b : ℕ) (s : Bytes)
    → a ≢ b
    → index text (a ∷ b ∷ []) ≡ none
    → index (text ++ (a ∷ b ∷ s)) (a ∷ b ∷ []) ≡ some (length text)
unfolding index has_prefix
index-append [] a b s ne h = rw (==_refl a, ==_refl b)
index-append (c ∷ text) a b s ne h =
    ground (arith, index-append text a b s ne, mark_behind text a b s ne)
