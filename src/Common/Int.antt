-- ===== src/Common/Int.antt =====
-- Signed machine integers that the sources only store (`i32` exit codes).
use Prim.Native.Nat.{ℕ}

-- `negsuc n` is -(n + 1).
pub data ℤ : Type 0 where
  pos : ℕ → ℤ
  negsuc : ℕ → ℤ
