-- ===== src/Common/Int.antt =====
-- Python's unbounded integers, where the program only stores and prints them.
use Prim.Native.Nat.{ℕ}

-- `negsuc n` is -(n + 1).
pub data ℤ : Type 0 where
  pos : ℕ → ℤ
  negsuc : ℕ → ℤ
