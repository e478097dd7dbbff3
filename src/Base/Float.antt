-- ===== src/Base/Float.antt =====
-- Go's float64, as a type with its operations. `lit n k` is the constant n / 10 ^ k, `of_nat` the
-- conversion of a count; `exp` and `log2` are those of the package math.
use openclaw_cortex.Base.{ℕ, Bool}

pub record Float : Type 1 where
  pub Number : Type 0
  pub lit : ℕ → ℕ → Number
  pub of_nat : ℕ → Number
  pub plus : Number → Number → Number
  pub minus : Number → Number → Number
  pub times : Number → Number → Number
  pub divide : Number → Number → Number
  pub neg : Number → Number
  pub sqrt : Number → Number
  pub exp : Number → Number
  pub log2 : Number → Number
  pub lt : Number → Number → Bool
  pub eq : Number → Number → Bool
