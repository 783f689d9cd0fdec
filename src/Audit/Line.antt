-- ===== src/Audit/Line.antt =====
-- What can stand in an audit line, whatever the peer sends.
use wterm.Prelude.{
  ℕ, ◌≤◌, ◌≢◌, none, some, [], ◌∷◌, map, arith, leb, length, take, Text, join, join-All, All,
  All-append, All-take, Bool-cases, inl, inr, is_nil,
}
use wterm.Audit.{str, scrub, value_max, ellipsis, value_text, Fields, shown_fields, audit}

-- No ASCII control character.
abbrev pub IsPrintable : ℕ → Type 0
IsPrintable c = (0x20 ≤ c) × (c ≢ 0x7f)

scrub-IsPrintable : (c : ℕ) → IsPrintable (scrub c)
unfolding scrub
scrub-IsPrintable c = ground arith

map-scrub-IsPrintable : (t : Text) → All IsPrintable (map scrub t)
map-scrub-IsPrintable [] = tt
map-scrub-IsPrintable (c ∷ t) = (scrub-IsPrintable c, map-scrub-IsPrintable t)

pub value_text-IsPrintable : (t : Text) → All IsPrintable (value_text t)
unfolding value_text
value_text-IsPrintable t = elim (Bool-cases (leb (length (map scrub t)) value_max)) [
  | inl short ↦ rw short (map-scrub-IsPrintable t)
  | inr long ↦ rw long (
      All-append IsPrintable (take value_max (map scrub t)) (ellipsis ∷ [])
        (All-take IsPrintable value_max (map scrub t) (map-scrub-IsPrintable t)) (omega arith))
]

shown_fields-IsPrintable :
    (fields : Fields)
    → All (λ f. All IsPrintable f.0) fields
    → All (All IsPrintable) (shown_fields fields)
unfolding shown_fields
shown_fields-IsPrintable [] h = tt
shown_fields-IsPrintable ((key, none) ∷ fields) h = shown_fields-IsPrintable fields h.1
shown_fields-IsPrintable ((key, some value) ∷ fields) h = (
  All-append IsPrintable key (b'=' ∷ value_text (str value)) h.0
      ((omega arith, omega arith), value_text-IsPrintable (str value)),
  shown_fields-IsPrintable fields h.1,
)

-- With an event and field names without ASCII control characters, an audit line has none either,
-- whatever the values are: no line feed, no carriage return, no escape and no DEL. The control
-- characters from U+0080 to U+009F are not meant.
pub audit-IsPrintable :
    (event : Text) (fields : Fields)
    → All IsPrintable event
    → All (λ f. All IsPrintable f.0) fields
    → All IsPrintable (audit event fields)
unfolding audit
audit-IsPrintable event fields he hf =
    elim (Bool-cases (is_nil (join (b' ' ∷ []) (shown_fields fields)))) [
      | inl empty ↦ rw empty he
      | inr full ↦ rw full (
          All-append IsPrintable event _ he (
            (omega arith, omega arith),
            join-All IsPrintable (b' ' ∷ []) (shown_fields fields) ((omega arith, omega arith), tt)
                (shown_fields-IsPrintable fields hf),
          ))
    ]
