-- ===== src/Prelude/Decimal.antt =====
-- `str(n)` and `int(text)` on numbers that are not negative.
use Prim.Native.Nat.{ℕ, zero, suc, ◌+◌, ◌-◌, ◌*◌, ◌/◌, ◌%◌, ◌≤◌, ◌<◌}
use mathlib.Core.Path.{◌≡◌, ap, ◌∙◌}
use mathlib.Core.List.{[], ◌∷◌}
use mathlib.Core.Bool.{Bool, true, ◌&&◌, ◌||◌, not}
use mathlib.Core.Option.{Option, none, some}
use mathlib.Core.Logic.{inl, inr}
use native.Mathlib.Omega.{arith}
use wterm.Prelude.Tests.{ltb, leb, eqb, if◌then◌else◌, Bool-cases, tests}
use wterm.Prelude.Lists.{All, is_nil}
use wterm.Prelude.Texts.{Text}

-- The digits of `n` in front of `acc`; the fuel counts the divisions by ten that are left.
unfoldable pub decimal_onto : ℕ → ℕ → Text → Text
decimal_onto zero n acc = acc
decimal_onto (suc fuel) n acc =
    let more = decimal_onto fuel (n / 10) ((b'0' + n % 10) ∷ acc) in
    if ltb n 10 then (b'0' + n) ∷ acc else more

-- str(n)
unfoldable pub decimal : ℕ → Text
unfolding decimal_onto
decimal n = decimal_onto (suc n) n []

-- int(text) for a text of decimal digits, `value` being that of the digits already read.
unfoldable pub read_onto : ℕ → Text → ℕ
read_onto value [] = value
read_onto value (c ∷ text) = read_onto (value * 10 + (c - b'0')) text

read_onto-decimal_onto :
    (fuel n : ℕ) (acc : Text) → n < fuel → read_onto 0 (decimal_onto fuel n acc) ≡ read_onto n acc
unfolding decimal_onto read_onto
read_onto-decimal_onto zero n acc h = absurd (omega arith)
read_onto-decimal_onto (suc fuel) n acc h = elim (Bool-cases (ltb n 10)) [
  | inl small ↦ rw small (ap (λ k. read_onto k acc) (omega arith))
  | inr big ↦ rw big (
      read_onto-decimal_onto fuel (n / 10) ((b'0' + n % 10) ∷ acc) (omega tests)
      ∙ ap (λ k. read_onto k acc) (omega arith))
]

-- The fuel of `decimal` is enough: what it prints is read back.
pub read_onto-decimal : (n : ℕ) → read_onto 0 (decimal n) ≡ n
unfolding decimal read_onto
read_onto-decimal n = read_onto-decimal_onto (suc n) n [] (omega arith)

pub IsDigit : ℕ → Type 0
IsDigit c = (b'0' ≤ c) × (c ≤ b'9')

decimal_onto-IsDigit :
    (fuel n : ℕ) (acc : Text) → All IsDigit acc → All IsDigit (decimal_onto fuel n acc)
unfolding decimal_onto IsDigit
decimal_onto-IsDigit zero n acc h = h
decimal_onto-IsDigit (suc fuel) n acc h = elim (Bool-cases (ltb n 10)) [
  | inl small ↦ rw small ((omega arith, omega tests), h)
  | inr big ↦ rw big (decimal_onto-IsDigit fuel (n / 10) _ ((omega arith, omega arith), h))
]

pub decimal-IsDigit : (n : ℕ) → All IsDigit (decimal n)
unfolding decimal
decimal-IsDigit n = decimal_onto-IsDigit (suc n) n [] tt

-- `str.isdigit` on one Latin-1 character of a header: the digits, and ², ³ and ¹.
unfoldable pub is_digit : ℕ → Bool
is_digit c = (leb b'0' c && leb c b'9') || eqb c 0xb2 || eqb c 0xb3 || eqb c 0xb9

unfoldable pub all_chars : (ℕ → Bool) → Text → Bool
all_chars p [] = true
all_chars p (c ∷ t) = p c && all_chars p t

unfoldable pub isdigit : Text → Bool
unfolding is_digit all_chars
isdigit t = not (is_nil t) && all_chars is_digit t

-- `int(text)` for a text of such characters: a ValueError if one is no decimal digit.
unfoldable pub to_int : Text → Option ℕ
unfolding all_chars read_onto
to_int t = if all_chars (λ c. leb b'0' c && leb c b'9') t then some (read_onto 0 t) else none
