-- ===== src/Base/Int.antt =====
-- Signed integers over the native numbers, as the library spells them.
use Prim.Native.Nat.{ℕ}

-- `negsuc n` is -(n + 1).
pub data ℤ : Type 0 where
  pos : ℕ → ℤ
  negsuc : ℕ → ℤ
