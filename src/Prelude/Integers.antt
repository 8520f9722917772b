-- ===== src/Prelude/Integers.antt =====
-- Signed integers of the columns and the queries, over the native numbers.
use Prim.Native.Nat.{ℕ, zero, suc, min, max}
use mathlib.Core.Bool.{Bool, true, false}

-- `negsuc n` is -(n + 1).
pub data ℤ : Type 0 where
  pos negsuc : ℕ → ℤ

-- `n < 1`
abbrev pub below_one : ℤ → Bool
below_one (pos zero) = true
below_one (pos (suc n)) = false
below_one (negsuc n) = true

-- The number as a count: a negative one is 0.
abbrev pub count_of : ℤ → ℕ
count_of (pos n) = n
count_of (negsuc n) = zero

-- The greatest `i64`.
abbrev pub max_i64 : ℕ
max_i64 = 9_223_372_036_854_775_807

-- `n.max(1)` on an `i64`.
abbrev pub at_least_one : ℤ → ℕ
at_least_one n = max 1 (count_of n)

-- `saturating_mul`
abbrev pub saturating : ℕ → ℕ
saturating n = min n max_i64
