-- ===== src/Prelude/Int.antt =====
-- The signed integers that the database stores in nullable columns (i64).
use Prim.Native.Nat.{ℕ}

-- `negsuc n` is -(n + 1).
pub data ℤ : Type 0 where
  pos : ℕ → ℤ
  negsuc : ℕ → ℤ
