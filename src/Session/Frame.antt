-- ===== src/Session/Frame.antt =====
-- server/session.py: the JSON texts that `send_status` and `_notify_and_terminate` send, as Python's
-- `json.dumps` writes them: every character outside printable ASCII is escaped.
use wterm.Prelude.{
  ℕ, ◌+◌, ◌-◌, ◌/◌, ◌%◌, ◌≤◌, ◌<◌, ◌≡◌, refl, Bool, ◌&&◌, true, false, [], ◌∷◌, ◌++◌, All,
  All-append, arith, ltb, leb, eqb, if◌then◌else◌, Text, codes,
}

abbrev pub hex_digit : ℕ → ℕ
hex_digit d = if ltb d 10 then b'0' + d else b'a' + (d - 10)

-- '\\u{0:04x}'
abbrev pub unicode_escape : ℕ → Text
unicode_escape n =
    92
    ∷ b'u'
    ∷ hex_digit (n / 4096 % 16)
    ∷ hex_digit (n / 256 % 16)
    ∷ hex_digit (n / 16 % 16)
    ∷ hex_digit (n % 16)
    ∷ []

abbrev pub is_plain : ℕ → Bool
is_plain c = leb 0x20 c && leb c 0x7e

-- A character in a JSON string; one beyond the first plane becomes two surrogates.
unfoldable pub escape : ℕ → Text
escape c =
    if eqb c 34
    then 92 ∷ 34 ∷ []
    else if eqb c 92
    then 92 ∷ 92 ∷ []
    else if eqb c 10
    then 92 ∷ b'n' ∷ []
    else if eqb c 13
    then 92 ∷ b'r' ∷ []
    else if eqb c 9
    then 92 ∷ b't' ∷ []
    else if eqb c 12
    then 92 ∷ b'f' ∷ []
    else if eqb c 8
    then 92 ∷ b'b' ∷ []
    else if is_plain c
    then c ∷ []
    else if ltb c 0x10000
    then unicode_escape c
    else unicode_escape (0xd800 + (c - 0x10000) / 1024)
      ++ unicode_escape (0xdc00 + (c - 0x10000) % 1024)

unfoldable pub escapes : Text → Text
unfolding escape
escapes [] = []
escapes (c ∷ t) = escape c ++ escapes t

-- json.dumps({"type": "status", "message": message})
unfoldable pub status_message : Text → Text
unfolding escapes
status_message message =
    codes "{\"type\": \"status\", \"message\": \"" ++ (escapes message ++ codes "\"}")

abbrev pub IsAscii : ℕ → Type 0
IsAscii c = (0x20 ≤ c) × (c ≤ 0x7e)

hex_digit-IsAscii : (d : ℕ) → d < 16 → IsAscii (hex_digit d)
hex_digit-IsAscii d h = ground arith

unicode_escape-IsAscii : (n : ℕ) → All IsAscii (unicode_escape n)
unicode_escape-IsAscii n = (
  (omega arith, omega arith),
  (
    (omega arith, omega arith),
    (
      hex_digit-IsAscii _ (omega arith),
      (
        hex_digit-IsAscii _ (omega arith),
        (hex_digit-IsAscii _ (omega arith), (hex_digit-IsAscii _ (omega arith), tt)),
      ),
    ),
  ),
)

-- Both ends of a conditional.
either :
    (b : Bool) (x y : Text)
    → (b ≡ true → All IsAscii x)
    → All IsAscii y
    → All IsAscii (if b then x else y)
either true x y h k = h refl
either false x y h k = k

short_escape : (c : ℕ) → IsAscii c → All IsAscii (92 ∷ c ∷ [])
short_escape c h = ((omega arith, omega arith), (h, tt))

escape-IsAscii : (c : ℕ) → All IsAscii (escape c)
unfolding escape
escape-IsAscii c =
    either (eqb c 34) _ _ (λ _. short_escape 34 (ground arith))
      (either (eqb c 92) _ _ (λ _. short_escape 92 (ground arith))
        (either (eqb c 10) _ _ (λ _. short_escape b'n' (ground arith))
          (either (eqb c 13) _ _ (λ _. short_escape b'r' (ground arith))
            (either (eqb c 9) _ _ (λ _. short_escape b't' (ground arith))
              (either (eqb c 12) _ _ (λ _. short_escape b'f' (ground arith))
                (either (eqb c 8) _ _ (λ _. short_escape b'b' (ground arith))
                  (either (is_plain c) _ _ (λ plain. (ground arith, tt))
                    (either (ltb c 0x10000) _ _ (λ _. unicode_escape-IsAscii c)
                      (All-append IsAscii (unicode_escape (0xd800 + (c - 0x10000) / 1024))
                        (unicode_escape (0xdc00 + (c - 0x10000) % 1024))
                        (unicode_escape-IsAscii (0xd800 + (c - 0x10000) / 1024))
                        (unicode_escape-IsAscii (0xdc00 + (c - 0x10000) % 1024)))))))))))

escapes-IsAscii : (t : Text) → All IsAscii (escapes t)
unfolding escapes
escapes-IsAscii [] = tt
escapes-IsAscii (c ∷ t) =
    All-append IsAscii (escape c) (escapes t) (escape-IsAscii c) (escapes-IsAscii t)

-- A status frame holds nothing but printable ASCII, whatever the message is: it can be sent as
-- UTF-8 even where the message holds a lone surrogate.
pub status_message-IsAscii : (message : Text) → All IsAscii (status_message message)
unfolding status_message
status_message-IsAscii message =
    All-append IsAscii (codes "{\"type\": \"status\", \"message\": \"") _ (ground arith)
      (All-append IsAscii (escapes message) (codes "\"}") (escapes-IsAscii message) (ground arith))
