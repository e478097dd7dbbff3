-- ===== src/Base/Int.antt =====
-- Go's signed integers.
use openclaw_cortex.Base.{ℕ}

-- `negsuc n` is -(n + 1).
pub data ℤ : Type 0 where
  pos : ℕ → ℤ
  negsuc : ℕ → ℤ
