-- ===== src/Base/Float.antt =====
-- Go's float32 and float64. antt has no floating-point numbers, so the type and the operations that
-- the source applies to it are a parameter of the components that compute with them.
use Prim.Native.Nat.{ℕ}
use mathlib.Core.Bool.{Bool}

pub record FloatOps : Type 1 where
  pub Num : Type 0
  -- The conversion of a number, and of the decimal n / 10^d that a constant of the source spells.
  pub of_nat : ℕ → Num
  -- The conversion of an int64, given as its bit pattern.
  pub of_i64 : ℕ → Num
  pub decimal : ℕ → ℕ → Num
  pub add : Num → Num → Num
  pub sub : Num → Num → Num
  pub mul : Num → Num → Num
  pub div : Num → Num → Num
  pub sqrt : Num → Num
  -- `int(math.Floor(x))`, for the arguments that the source gives, which are not negative.
  pub floor : Num → ℕ
  -- `<`, `<=` and `==`.
  pub lt : Num → Num → Bool
  pub le : Num → Num → Bool
  pub eq : Num → Num → Bool
