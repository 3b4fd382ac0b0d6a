-- ===== src/Base/Integers.antt =====
-- Signed numbers over the native naturals: `negsuc n` is -(n + 1).
use Prim.Native.Nat.{ℕ}
use mathlib.Core.Bool.{Bool, true, false}
use cloudnan_agent.Base.Tests.{leb}

pub data ℤ : Type 0 where
  pos : ℕ → ℤ
  negsuc : ℕ → ℤ

abbrev pub leb_int : ℤ → ℤ → Bool
leb_int (pos a) (pos b) = leb a b
leb_int (pos a) (negsuc b) = false
leb_int (negsuc a) (pos b) = true
leb_int (negsuc a) (negsuc b) = leb b a
