-- ===== src/Audit.antt =====
-- server/audit.py: audit lines, and the folding of refusals that anybody can cause before login.
-- Texts are lists of code points. The clock `time.monotonic()` is an argument, in milliseconds.
pub mod Line
pub mod Folding
pub mod Throttle
mod Tests
use wterm.Prelude.{
  ℕ, suc, ◌+◌, ◌-◌, ◌*◌, ◌≡◌, Bool, true, false, ◌||◌, Option, none, some, List, [], ◌∷◌, ◌++◌, map,
  ltb, leb, eqb, if◌then◌else◌, length, take, Text, codes, decimal, join, is_nil, second, nat_key,
  list_key, pair_key,
}
use wterm.OrderedDict.{OrderedDict, get, put, move_to_end, trim}

abbrev pub value_max : ℕ
value_max = 128

abbrev pub throttle_window : ℕ
throttle_window = 60 * second

abbrev pub throttle_keys : ℕ
throttle_keys = 256

-- What the callers pass as a field's value.
pub data Value : Type 0 where
  text : Text → Value
  number : ℕ → Value
  flag : Bool → Value

-- str(value)
unfoldable pub str : Value → Text
str (text t) = t
str (number n) = decimal n
str (flag true) = codes "True"
str (flag false) = codes "False"

-- the character class [\x00-\x1f\x7f]
unfoldable pub is_unsafe : ℕ → Bool
is_unsafe c = leb c 0x1f || eqb c 0x7f

unfoldable pub scrub : ℕ → ℕ
unfolding is_unsafe
scrub c = if is_unsafe c then b'?' else c

-- "…"
abbrev pub ellipsis : ℕ
ellipsis = 0x2026

unfoldable pub value_text : Text → Text
value_text shown =
    let clean = map scrub shown in
    if leb (length clean) value_max then clean else take value_max clean ++ ellipsis ∷ []

abbrev pub Fields : Type 0
Fields = List (Text × Option Value)

unfoldable pub shown_fields : Fields → List Text
shown_fields [] = []
shown_fields ((key, none) ∷ fields) = shown_fields fields
shown_fields ((key, some value) ∷ fields) =
    (key ++ (b'=' ∷ value_text (str value))) ∷ shown_fields fields

-- The line that `audit` writes.
unfoldable pub audit : Text → Fields → Text
unfolding shown_fields
audit event fields =
    let detail = join (b' ' ∷ []) (shown_fields fields) in
    if is_nil detail then event else event ++ (b' ' ∷ detail)

-- The list `[start, suppressed]` of a key.
pub record Slot : Type 0 where
  pub since : ℕ
  pub suppressed : ℕ

abbrev pub Key : Type 0
Key = Text × Text

abbrev pub Throttle : Type 0
Throttle = OrderedDict Key Slot

abbrev pub is_fresh : Option Slot → ℕ → Bool
is_fresh none now = false
is_fresh (some slot) now = ltb (now - slot.since) throttle_window

abbrev pub suppressed_so_far : Option Slot → ℕ
suppressed_so_far none = 0
suppressed_so_far (some slot) = slot.suppressed

abbrev pub count_one : Option Slot → Key → Throttle → Throttle
count_one none key table = table
count_one (some slot) key table = put key (record slot { suppressed = slot.suppressed + 1 }) table

-- The table after a call, and the number of folded calls that its line reports, if it writes one.
unfoldable pub fold_call : Key → ℕ → Throttle → Throttle × Option ℕ
fold_call key now table =
    let entry = get key table in
    if is_fresh entry now then (count_one entry key table, none) else (
      trim throttle_keys (move_to_end key (put key (record { since = now; suppressed = 0 }) table)),
      some (suppressed_so_far entry),
    )

-- `suppressed or None`
abbrev or_none : ℕ → Option Value
or_none n = if eqb n 0 then none else some (number n)

-- The table after the call, and the line that is written.
unfoldable pub audit_throttled : Text → Text → Text → Fields → ℕ → Throttle → Throttle × Option Text
unfolding fold_call audit
audit_throttled event client reason fields now table =
    let (table', written) = fold_call (client, reason) now table in
    (
      table',
      elim written [
        | none ↦ none
        | some n ↦ some (
            audit event (
              (codes "reason", some (text reason))
              ∷ (codes "client", some (text client))
              ∷ (fields ++ (codes "suppressed", or_none n) ∷ [])))
      ],
    )
