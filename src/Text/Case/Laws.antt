-- ===== src/Text/Case/Laws.antt =====
-- The comparison of two texts decides whether they are equal.
use cloudnan_agent.Base.{true, [], ◌∷◌, Bytes, ◌≡◌, refl, arith, ==_refl}
use cloudnan_agent.Text.Case.{bytes_equal}

pub bytes_equal-eq : (a b : Bytes) → bytes_equal a b ≡ true → a ≡ b
unfolding bytes_equal
bytes_equal-eq [] [] h = refl
bytes_equal-eq [] (y ∷ b) h = cc
bytes_equal-eq (x ∷ a) [] h = cc
bytes_equal-eq (x ∷ a) (y ∷ b) h = ground (arith, bytes_equal-eq a b)

pub bytes_equal_self : (a : Bytes) → bytes_equal a a ≡ true
unfolding bytes_equal
bytes_equal_self [] = refl
bytes_equal_self (c ∷ a) = rw (==_refl c) (bytes_equal_self a)
