-- ===== src/Base/Ints.antt =====
-- Go's int: a number that may be negative. Only comparisons are used of it.
use Prim.Native.Nat.{ℕ}
use mathlib.Core.Bool.{Bool, true, false}
use go_pass.Base.Tests.{ltb, ◌==◌}

pub data ℤ : Type 0 where
  pos : ℕ → ℤ
  -- minus one more than the number
  negsuc : ℕ → ℤ

-- `x < n` and `n < x` for a number that is not negative.
abbrev pub below : ℤ → ℕ → Bool
below (pos x) n = ltb x n
below (negsuc x) n = true

abbrev pub above : ℤ → ℕ → Bool
above (pos x) n = ltb n x
above (negsuc x) n = false

abbrev pub is_zero : ℤ → Bool
is_zero (pos x) = x == 0
is_zero (negsuc x) = false
