-- ===== src/Prelude/Int.antt =====
-- Python's unbounded `int` over the native numbers, as far as the program compares and clamps.
use Prim.Native.Nat.{ℕ}
use wterm.Prelude.Tests.{ltb, if◌then◌else◌}

-- `negsuc n` is -(n + 1).
pub data ℤ : Type 0 where
  pos : ℕ → ℤ
  negsuc : ℕ → ℤ

-- `min(a, n)` for a bound that is not negative.
abbrev pub min_ℕ : ℤ → ℕ → ℤ
min_ℕ (pos m) n = if ltb n m then pos n else pos m
min_ℕ (negsuc m) n = negsuc m

-- `max(0, a)`, which is a number.
abbrev pub max_zero : ℤ → ℕ
max_zero (pos m) = m
max_zero (negsuc m) = 0
