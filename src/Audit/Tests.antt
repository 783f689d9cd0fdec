-- ===== src/Audit/Tests.antt =====
-- Runs of the audit lines and of the folding at concrete inputs.
use wterm.Prelude.{
  ℕ, ◌+◌, ◌≤◌, ◌≡◌, refl, none, some, ◌*◌, List, [], ◌∷◌, All, arith, Text, codes, second, nat_key,
  list_key, pair_key, join, decimal, decimal_onto,
}
use wterm.OrderedDict.{get, put, move_to_end, remove, trim}
use wterm.Audit.{
  Fields, text, number, str, is_unsafe, scrub, value_text, shown_fields, audit, Key, Throttle,
  fold_call,
}
use wterm.Audit.Line.{IsPrintable, audit-IsPrintable}
use wterm.Audit.Folding.{pending}
use wterm.Audit.Throttle.{IsSound, run, made, reported, run-reported-le}

-- A value that tries to forge a second line.
abbrev forged : Text
forged = codes "x\nlogin-ok client=1"

abbrev fields : Fields
fields =
    (codes "reason", some (text forged))
    ∷ (codes "fails", some (number 12))
    ∷ (codes "host", none)
    ∷ []

line : audit (codes "login") fields ≡ codes "login reason=x?login-ok client=1 fails=12"
unfolding audit shown_fields value_text scrub is_unsafe str decimal decimal_onto join
line = refl

audit-IsPrintable_example : All IsPrintable (audit (codes "login") fields)
audit-IsPrintable_example = audit-IsPrintable (codes "login") fields (ground arith) (ground arith)

abbrev a : Key
a = (codes "10.0.0.1", codes "origin")

abbrev b : Key
b = (codes "10.0.0.2", codes "auth")

-- Three refusals of one client within a minute, one of another, and one after the window.
abbrev calls : List (Key × ℕ)
calls = (a, 0) ∷ (a, 1 * second) ∷ (b, 2 * second) ∷ (a, 3 * second) ∷ (a, 61 * second) ∷ []

abbrev empty : Throttle
empty = []

written : (run calls empty).1 ≡ (a, 0) ∷ (b, 0) ∷ (a, 2) ∷ []
unfolding run fold_call get put move_to_end remove trim
written = refl

empty-IsSound : IsSound empty
empty-IsSound = record { bounded = omega arith; distinct = tt }

run-reported-le_example :
    reported a (run calls empty).1 + pending a (run calls empty).0 ≤ pending a empty + made a calls
run-reported-le_example = run-reported-le a calls empty empty-IsSound
