-- ===== src/Config/Values.antt =====
-- The numbers and texts of a configuration that is accepted.
use wterm.Prelude.{
  ℕ, ◌≤◌, ◌≡◌, ◌≢◌, ◌⊎◌, refl, sym, ap, ◌∙◌, false, ◌&&◌, none, some, [], ◌∷◌, Text, is_nil,
  Bool-cases, Option-cases, inl, inr, arith, nat_key, list_key,
}
use wterm.Prelude.Int.{pos, negsuc}
use wterm.Json.{Json, Members, find}
use wterm.Config.{
  in_range, checked_integer, integer, is_space, lstrip, rstrip, strip, non_empty, optional_value,
  optional_string,
}

in_range-bounds :
    (minimum maximum value n : ℕ)
    → in_range minimum maximum value ≡ some n
    → (value ≡ n) × (minimum ≤ n) × (n ≤ maximum)
in_range-bounds minimum maximum value n h = ground arith

checked_integer-bounds :
    (minimum maximum n : ℕ) (v : Json)
    → checked_integer minimum maximum v ≡ some n
    → (v ≡ Json.int (pos n)) × (minimum ≤ n) × (n ≤ maximum)
unfolding checked_integer
checked_integer-bounds minimum maximum n (Json.int (pos value)) h =
    let (same, low, high) = in_range-bounds minimum maximum value n h in
    (ap (λ k. Json.int (pos k)) same, low, high)
checked_integer-bounds minimum maximum n (Json.int (negsuc value)) h = absurd (cc)
checked_integer-bounds minimum maximum n Json.null h = absurd (cc)
checked_integer-bounds minimum maximum n (Json.bool b) h = absurd (cc)
checked_integer-bounds minimum maximum n Json.float h = absurd (cc)
checked_integer-bounds minimum maximum n (Json.str t) h = absurd (cc)
checked_integer-bounds minimum maximum n (Json.array items) h = absurd (cc)
checked_integer-bounds minimum maximum n (Json.object members) h = absurd (cc)

-- A number that is accepted is within its bounds, and is the integer of the file, or the default
-- where the file has none: no Boolean, fraction or text is taken for a number.
pub integer-bounds :
    (raw : Members) (name : Text) (default minimum maximum n : ℕ)
    → integer raw name default minimum maximum ≡ some n
    → (minimum ≤ n)
      × (n ≤ maximum)
      × ((find name raw ≡ some (Json.int (pos n))) ⊎ ((find name raw ≡ none) × (default ≡ n)))
unfolding integer
integer-bounds raw name default minimum maximum n h = elim (Option-cases (find name raw)) [
  | inl missing ↦
      let (same, low, high) =
        in_range-bounds minimum maximum default n (rw (missing, integer) at h) in
      (low, high, inr (missing, same))
  | inr (v, found) ↦
      let (same, low, high) =
        checked_integer-bounds minimum maximum n v (rw (found, integer) at h) in
      (low, high, inl (found ∙ ap some same))
]

-- Empty, or beginning with a character that is no space.
abbrev Headed : Text → Type 0
Headed [] = Unit
Headed (c ∷ t) = is_space c ≡ false

lstrip-Headed : (t : Text) → Headed (lstrip t)
unfolding lstrip
lstrip-Headed [] = tt
lstrip-Headed (c ∷ t) = elim (Bool-cases (is_space c)) [
  | inl space ↦ rw space (lstrip-Headed t)
  | inr other ↦ rw other other
]

Headed-lstrip : (t : Text) → Headed t → lstrip t ≡ t
unfolding lstrip
Headed-lstrip [] h = refl
Headed-lstrip (c ∷ t) h = rw h

rstrip-Headed : (t : Text) → Headed t → Headed (rstrip t)
unfolding rstrip
rstrip-Headed [] h = tt
rstrip-Headed (c ∷ t) h = elim (Bool-cases (is_nil (rstrip t) && is_space c)) [
  | inl gone ↦ rw gone tt
  | inr kept ↦ rw kept h
]

rstrip_idem : (t : Text) → rstrip (rstrip t) ≡ rstrip t
unfolding rstrip
rstrip_idem [] = refl
rstrip_idem (c ∷ t) = elim (Bool-cases (is_nil (rstrip t) && is_space c)) [
  | inl gone ↦ rw gone
  | inr kept ↦ rw (kept, rstrip, rstrip_idem t, kept)
]

strip_idem : (t : Text) → strip (strip t) ≡ strip t
unfolding strip
strip_idem t =
    ap rstrip (Headed-lstrip (rstrip (lstrip t)) (rstrip-Headed (lstrip t) (lstrip-Headed t)))
    ∙ rstrip_idem (lstrip t)

non_empty-text : (t v : Text) → non_empty t ≡ some v → (t ≡ v) × (v ≢ [])
non_empty-text [] v h = absurd (cc)
non_empty-text (c ∷ t) v h = (cc, λ e. cc)

optional_value-text :
    (value : Json) (v : Text)
    → optional_value value ≡ some (some v)
    → (t : Text) × (value ≡ Json.str t) × (strip t ≡ v) × (v ≢ [])
unfolding optional_value
optional_value-text (Json.str t) v h =
    let same : non_empty (strip t) ≡ some v = cc in
    let (text, full) = non_empty-text (strip t) v same in (t, refl, text, full)
optional_value-text Json.null v h = absurd (cc)
optional_value-text (Json.bool b) v h = absurd (cc)
optional_value-text (Json.int n) v h = absurd (cc)
optional_value-text Json.float v h = absurd (cc)
optional_value-text (Json.array items) v h = absurd (cc)
optional_value-text (Json.object members) v h = absurd (cc)

-- An optional text that is accepted and given is not empty, has no white space at either end, and is
-- a text of the file without its white space.
pub optional_string-text :
    (raw : Members) (name v : Text)
    → optional_string raw name ≡ some (some v)
    → (v ≢ []) × (strip v ≡ v) × ((t : Text) × (find name raw ≡ some (Json.str t)) × (strip t ≡ v))
unfolding optional_string
optional_string-text raw name v h = elim (Option-cases (find name raw)) [
  | inl missing ↦
      absurd (let no : some none ≡ some (some v) = (rw (missing, optional_string) at h) in cc)
  | inr (value, found) ↦
      let (t, text, stripped, full) =
        optional_value-text value v (rw (found, optional_string) at h) in
      (full, ap strip (sym stripped) ∙ strip_idem t ∙ stripped, (t, found ∙ ap some text, stripped))
]
