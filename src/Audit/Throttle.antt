-- ===== src/Audit/Throttle.antt =====
-- Histories of refusals that anybody can cause: what the log says of them afterwards.
use wterm.Prelude.{
  ℕ, ◌+◌, ◌≤◌, ◌≡◌, ap, Option, none, some, List, [], ◌∷◌, ◌++◌, arith, if◌then◌else◌, length, ◌==◌,
  ==_cases, ◌∙◌, subst, Option-cases, Bool-cases, inl, inr, nat_key, list_key, pair_key,
}
use wterm.OrderedDict.{get, put, move_to_end, trim}
use wterm.OrderedDict.Laws.{get-put, get-move_to_end}
use wterm.OrderedDict.Distinct.{
  Distinct, get-trim, trim-Distinct, put-Distinct, move_to_end-Distinct,
}
use wterm.Audit.{Slot, Key, Throttle, is_fresh, suppressed_so_far, fold_call, throttle_keys}
use wterm.Audit.Folding.{pending, length-fold_call-le}

pub record IsSound (table : Throttle) : Type 0 where
  pub bounded : length table ≤ throttle_keys
  pub distinct : Distinct table

pub fold_call-IsSound :
    (key : Key) (now : ℕ) (table : Throttle) → IsSound table → IsSound (fold_call key now table).0
unfolding fold_call
fold_call-IsSound key now table s = record {
  bounded = length-fold_call-le key now table s.bounded;
  distinct = elim (Option-cases (get key table)) [
    | inl missing ↦
        rw (missing, fold_call)
          (trim-Distinct throttle_keys _
            (move_to_end-Distinct key _ (put-Distinct key _ table s.distinct)))
    | inr (slot, found) ↦
        rw (found, fold_call)
          (elim (Bool-cases (is_fresh (some slot) now)) [
            | inl fresh ↦ rw fresh (put-Distinct key _ table s.distinct)
            | inr stale ↦ rw stale (
                trim-Distinct throttle_keys _
                  (move_to_end-Distinct key _ (put-Distinct key _ table s.distinct)))
          ])
  ];
}

-- A line that was written about a key, with the number of folded calls that it reports.
abbrev pub Line : Type 0
Line = Key × ℕ

abbrev line_of : Key → Option ℕ → List Line
line_of key none = []
line_of key (some n) = (key, n) ∷ []

-- The calls in their order, each with its key and time.
unfoldable pub run : List (Key × ℕ) → Throttle → Throttle × List Line
run [] table = (table, [])
run ((key, now) ∷ calls) table =
    let (table', written) = fold_call key now table in
    let (last, lines) = run calls table' in (last, line_of key written ++ lines)

-- How many calls about `key` there were, and how many the lines account for.
unfoldable pub made : Key → List (Key × ℕ) → ℕ
made key [] = 0
made key ((k, now) ∷ calls) = (if k == key then 1 else 0) + made key calls

unfoldable pub reported : Key → List Line → ℕ
reported key [] = 0
reported key ((k, n) ∷ lines) = (if k == key then 1 + n else 0) + reported key lines

reported-line_of :
    (key k : Key) (w : Option ℕ) (lines : List Line)
    → reported key (line_of k w ++ lines) ≡ reported key (line_of k w) + reported key lines
unfolding reported
reported-line_of key k none lines = omega arith
reported-line_of key k (some n) lines = ground arith

pending-trim-le :
    (key : Key) (limit : ℕ) (table : Throttle)
    → Distinct table
    → pending key (trim limit table) ≤ pending key table
pending-trim-le key limit table d = elim (get-trim key limit table d) [
  | inl same ↦ rw same (omega arith)
  | inr gone ↦ rw gone (omega arith)
]

pending-put :
    (key k : Key) (slot : Slot) (table : Throttle)
    → pending key (put k slot table) ≡ (if k == key then slot.suppressed else pending key table)
pending-put key k slot table = elim (Bool-cases (k == key)) [
  | inl same ↦ rw (get-put k key slot table, same)
  | inr other ↦ rw (get-put k key slot table, other)
]

-- The table with a new window for `k`, before it is trimmed.
abbrev opened : Key → ℕ → Throttle → Throttle
opened k now table = move_to_end k (put k (record { since = now; suppressed = 0 }) table)

pending-opened :
    (key k : Key) (now : ℕ) (table : Throttle)
    → pending key (opened k now table) ≡ (if k == key then 0 else pending key table)
pending-opened key k now table =
    rw (get-move_to_end k key (put k (record { since = now; suppressed = 0 }) table))
      (pending-put key k (record { since = now; suppressed = 0 }) table)

pending-written-le :
    (key k : Key) (now n : ℕ) (table : Throttle)
    → Distinct table
    → n ≡ pending k table
    → reported key ((k, n) ∷ []) + pending key (trim throttle_keys (opened k now table))
      ≤ pending key table + (if k == key then 1 else 0)
unfolding reported
pending-written-le key k now n table d e =
    let after : pending key (trim throttle_keys (opened k now table))
        ≤ pending key (opened k now table) =
      pending-trim-le key throttle_keys _ (move_to_end-Distinct k _ (put-Distinct k _ table d)) in
    elim (==_cases k key) [
      | inl (same, p) ↦
          let here : n ≡ pending key table = subst (λ j. n ≡ pending j table) p e in
          let none_left : pending key (opened k now table) ≡ 0 =
            pending-opened key k now table ∙ rw same in
          rw same (omega arith)
      | inr other ↦
          let kept : pending key (opened k now table) ≡ pending key table =
            pending-opened key k now table ∙ rw other in
          rw other (omega arith)
    ]

pending-folded-le :
    (key k : Key) (slot : Slot) (table : Throttle)
    → get k table ≡ some slot
    → pending key (put k (record slot { suppressed = slot.suppressed + 1 }) table)
      ≤ pending key table + (if k == key then 1 else 0)
pending-folded-le key k slot table found = elim (==_cases k key) [
  | inl (same, p) ↦
      let here : pending key table ≡ slot.suppressed =
        subst (λ j. pending j table ≡ slot.suppressed) p (ap suppressed_so_far found) in
      rw (pending-put key k _ table, same) (omega arith)
  | inr other ↦ rw (pending-put key k _ table, other) (omega arith)
]

-- One call adds at most itself to what is reported or still pending.
fold_call-le :
    (key k : Key) (now : ℕ) (table : Throttle)
    → Distinct table
    → reported key (line_of k (fold_call k now table).1) + pending key (fold_call k now table).0
      ≤ pending key table + (if k == key then 1 else 0)
unfolding fold_call reported
fold_call-le key k now table d = elim (Option-cases (get k table)) [
  | inl missing ↦ rw (missing, fold_call) (pending-written-le key k now 0 table d (rw missing))
  | inr (slot, found) ↦ elim (Bool-cases (is_fresh (some slot) now)) [
    | inl fresh ↦
        rw (found, fold_call, fresh) (omega (arith, pending-folded-le key k slot table found))
    | inr stale ↦
        rw (found, fold_call, stale)
          (pending-written-le key k now slot.suppressed table d (rw found))
  ]
]

-- From a sound table, after any history of calls, in any order and at any times: the lines about a
-- key and the folded calls that they report, with what its entry has still to report, are at most
-- the calls that were made about it and what was pending before. No refusal is counted twice.
pub run-reported-le :
    (key : Key) (calls : List (Key × ℕ)) (table : Throttle)
    → IsSound table
    → reported key (run calls table).1 + pending key (run calls table).0
      ≤ pending key table + made key calls
unfolding run made reported
run-reported-le key [] table s = omega arith
run-reported-le key ((k, now) ∷ calls) table s = omega (
  arith,
  reported-line_of key k (fold_call k now table).1 (run calls (fold_call k now table).0).1,
  fold_call-le key k now table s.distinct,
  run-reported-le key calls (fold_call k now table).0 (fold_call-IsSound k now table s),
)

-- Any history of calls keeps a sound table within its limit of 256 keys, with no key twice.
pub run-IsSound :
    (calls : List (Key × ℕ)) (table : Throttle) → IsSound table → IsSound (run calls table).0
unfolding run
run-IsSound [] table s = s
run-IsSound ((k, now) ∷ calls) table s =
    run-IsSound calls (fold_call k now table).0 (fold_call-IsSound k now table s)
