-- ===== src/Audit/Folding.antt =====
-- The table of folded refusals: its size, and what one call does to each key.
use wterm.Prelude.{
  ℕ, ◌+◌, ◌≤◌, ◌<◌, ◌≡◌, refl, true, false, none, some, arith, length, ==_refl, Option-cases, inl,
  inr, nat_key, list_key, pair_key,
}
use wterm.OrderedDict.{get, put, move_to_end}
use wterm.OrderedDict.Laws.{
  length-trim-le, trim_small, get-put, get-move_to_end, length-put-le, length-put_known,
  length-move_to_end-le,
}
use wterm.Audit.{Slot, Key, Throttle, is_fresh, suppressed_so_far, fold_call, throttle_keys}

-- The table never grows past its limit, whoever calls and how often.
pub length-fold_call-le :
    (key : Key) (now : ℕ) (table : Throttle)
    → length table ≤ throttle_keys
    → length (fold_call key now table).0 ≤ throttle_keys
unfolding fold_call
length-fold_call-le key now table h = elim (Option-cases (get key table)) [
  | inl missing ↦ rw (missing, fold_call) (length-trim-le throttle_keys _)
  | inr (slot, found) ↦
      rw (found, fold_call)
        (ground (
          arith,
          length-put_known key (record slot { suppressed = slot.suppressed + 1 }) slot table found,
          length-trim-le throttle_keys
              (move_to_end key (put key (record { since = now; suppressed = 0 }) table)),
        ))
]

-- What the table still has to report of a key.
abbrev pub pending : Key → Throttle → ℕ
pending key table = suppressed_so_far (get key table)

-- A call within the window of its key's last line writes nothing and adds one to what is pending.
pub fold_call_fresh :
    (key : Key) (now : ℕ) (table : Throttle)
    → is_fresh (get key table) now ≡ true
    → ((fold_call key now table).1 ≡ none)
      × (pending key (fold_call key now table).0 ≡ pending key table + 1)
unfolding fold_call
fold_call_fresh key now table fresh = elim (Option-cases (get key table)) [
  | inl missing ↦ absurd (ground arith)
  | inr (slot, found) ↦
      rw (found, fold_call)
        (ground (
          arith,
          found,
          ==_refl key,
          get-put key key (record slot { suppressed = slot.suppressed + 1 }) table,
        ))
]

-- Any other call writes a line with all that was pending, and opens a new window.
pub fold_call_stale :
    (key : Key) (now : ℕ) (table : Throttle)
    → is_fresh (get key table) now ≡ false
    → length table < throttle_keys
    → ((fold_call key now table).1 ≡ some (pending key table))
      × (get key (fold_call key now table).0 ≡ some (record { since = now; suppressed = 0 }))
unfolding fold_call
fold_call_stale key now table stale h =
    let start : Slot = record { since = now; suppressed = 0 } in
    let small : length (move_to_end key (put key start table)) ≤ throttle_keys =
      omega
        (arith, length-put-le key start table, length-move_to_end-le key (put key start table)) in
    rw (stale, fold_call, trim_small throttle_keys _ small)
      (
        refl,
        rw (
          get-move_to_end key key (put key start table),
          get-put key key start table,
          ==_refl key,
        ),
      )
