-- ===== src/Prelude/Texts.antt =====
-- Python's `str` and `bytes` as lists of code points or bytes.
use Prim.Native.Nat.{ℕ}
use Prim.Native.Char.{code}
use Prim.Native.String.{String}
use mathlib.Core.List.{List, [], ◌∷◌}

abbrev pub Text : Type 0
Text = List ℕ

abbrev pub codes : String → Text
codes String.[] = []
codes (String.◌∷◌ c s) = code c ∷ codes s

-- The clock counts milliseconds.
abbrev pub second : ℕ
second = 1000
