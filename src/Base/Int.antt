-- ===== src/Base/Int.antt =====
-- Signed integers over the native numbers, as far as the program reads them: by their sign.
use Prim.Native.Nat.{ℕ}

-- `negsuc n` is -(n + 1).
pub data ℤ : Type 0 where
  pos : ℕ → ℤ
  negsuc : ℕ → ℤ
