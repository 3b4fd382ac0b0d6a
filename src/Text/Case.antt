-- ===== src/Text/Case.antt =====
-- Letter case: `strings.ToLower` and `strings.EqualFold`. On ASCII both work byte by byte; for
-- other texts Go maps code points by the Unicode tables, which are not modelled.
pub mod Laws
use cloudnan_agent.Base.{
  ℕ, ◌+◌, Bool, true, false, ◌&&◌, [], ◌∷◌, map, ltb, ◌==◌, if◌then◌else◌, within, all, Bytes,
}

unfoldable pub lower_byte : ℕ → ℕ
lower_byte c = if within b'A' b'Z' c then c + 32 else c

unfoldable pub is_ascii : Bytes → Bool
is_ascii s = all (λ c. ltb c 128) s

-- `strings.ToLower`: Go takes the byte-by-byte way only if the text is ASCII. `unicode_lower` is
-- its mapping of any other text.
unfoldable pub to_lower : (Bytes → Bytes) → Bytes → Bytes
unfolding is_ascii lower_byte
to_lower unicode_lower s = if is_ascii s then map lower_byte s else unicode_lower s

unfoldable pub bytes_equal : Bytes → Bytes → Bool
bytes_equal [] [] = true
bytes_equal (x ∷ xs) (y ∷ ys) = x == y && bytes_equal xs ys
bytes_equal _ _ = false

-- `strings.EqualFold` against an ASCII text without the letters `k` and `s`, which are the only
-- ASCII letters with a case variant outside ASCII.
unfoldable pub equal_fold : Bytes → Bytes → Bool
unfolding lower_byte
equal_fold [] [] = true
equal_fold (x ∷ xs) (y ∷ ys) = lower_byte x == lower_byte y && equal_fold xs ys
equal_fold _ _ = false
