-- ===== src/Prelude/Int.antt =====
-- Signed integers of the program (`i32`, `i64`), which it passes on and tests for zero at most.
use Prim.Native.Nat.{ℕ}

-- `negsuc n` is -(n + 1).
pub data ℤ : Type 0 where
  pos : ℕ → ℤ
  negsuc : ℕ → ℤ
