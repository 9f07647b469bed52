-- ===== src/Prelude/Int.antt =====
-- Signed machine integers (`i64`, `i32`) as integers; their range is stated where it matters.
use Prim.Native.Nat.{ℕ}

-- `negsuc n` is -(n + 1).
pub data ℤ : Type 0 where
  pos : ℕ → ℤ
  negsuc : ℕ → ℤ
