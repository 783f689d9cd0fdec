-- ===== src/Prelude/Utf8.antt =====
-- `str.encode()`: UTF-8, which has no form for a lone surrogate.
use Prim.Native.Nat.{ℕ, ◌+◌, ◌/◌, ◌%◌}
use mathlib.Core.Bool.{Bool, ◌&&◌}
use mathlib.Core.Option.{Option, none, some}
use mathlib.Core.List.{List, [], ◌∷◌, ◌++◌}
use wterm.Prelude.Tests.{ltb, leb, if◌then◌else◌}
use wterm.Prelude.Texts.{Text}

abbrev pub is_surrogate : ℕ → Bool
is_surrogate c = leb 0xd800 c && leb c 0xdfff

-- A continuation byte with the lowest six bits.
abbrev tail_byte : ℕ → ℕ
tail_byte c = 0x80 + c % 64

unfoldable pub encode_char : ℕ → Option (List ℕ)
encode_char c =
    if ltb c 0x80
    then some (c ∷ [])
    else if ltb c 0x800
    then some ((0xc0 + c / 64) ∷ tail_byte c ∷ [])
    else if is_surrogate c
    then none
    else if ltb c 0x10000
    then some ((0xe0 + c / 4096) ∷ tail_byte (c / 64) ∷ tail_byte c ∷ [])
    else some ((0xf0 + c / 262144) ∷ tail_byte (c / 4096) ∷ tail_byte (c / 64) ∷ tail_byte c ∷ [])

abbrev both : Option (List ℕ) → Option (List ℕ) → Option (List ℕ)
both none other = none
both (some bytes) none = none
both (some bytes) (some more) = some (bytes ++ more)

-- `none` is the UnicodeEncodeError.
unfoldable pub encode : Text → Option (List ℕ)
unfolding encode_char
encode [] = some []
encode (c ∷ text) = both (encode_char c) (encode text)
