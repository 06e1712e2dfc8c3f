-- ===== src/Base/Integers.antt =====
-- Signed integers over the native numbers, under the library's names.
use Prim.Native.Nat.{ℕ, suc}

-- `negsuc n` is -(n + 1).
pub data ℤ : Type 0 where
  pos : ℕ → ℤ
  negsuc : ℕ → ℤ

abbrev pub neg : ℤ → ℤ
neg (pos n) = negate n
  where
    negate : ℕ → ℤ
    negate = elim [ ℕ.zero ↦ pos 0 | suc m ↦ negsuc m ]
neg (negsuc n) = pos (suc n)
