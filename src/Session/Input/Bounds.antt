-- ===== src/Session/Input/Bounds.antt =====
-- The input buffer is bounded, the overflow is told once, and sizes fit a `winsize`.
use wterm.Prelude.{
  ℕ, ◌+◌, ◌≤◌, ◌<◌, ◌≡◌, refl, true, false, not, some, List, [], ◌∷◌, ◌++◌, arith, tests, ltb, min,
  length, drop, length-append, length-drop, Text, is_nil, is_some, encode, Bool-cases, Option-cases,
  inl, inr, lt→ltb,
}
use wterm.Prelude.Int.{ℤ, pos, negsuc, min_ℕ, max_zero}
use wterm.Session.{Session, Bytes, write_buffer_limit, is_open}
use wterm.Session.Input.{
  WriteResult, wrote, would_block, os_error, drain, after_drain, flush_write, returned, take_in,
  write_input, resize, winsize_max,
}

-- What holds of the input side between two operations.
pub record IsInput (s : Session) : Type 0 where
  pub bounded : length s.write_buffer ≤ write_buffer_limit
  -- the event loop watches for writability exactly while something is left to write
  pub watched : s.writer_registered ≡ not (is_nil s.write_buffer)

length-drain-le :
    (answers : List WriteResult) (buffer : Bytes) → length (drain answers buffer).1 ≤ length buffer
unfolding drain
length-drain-le [] buffer = omega arith
length-drain-le (answer ∷ answers) [] = omega arith
length-drain-le (would_block ∷ answers) (b ∷ buffer) = omega arith
length-drain-le (os_error ∷ answers) (b ∷ buffer) = omega arith
length-drain-le (wrote n ∷ answers) (b ∷ buffer) =
    omega (arith, length-drain-le answers (drop n (b ∷ buffer)), length-drop n (b ∷ buffer))

after_drain-IsInput :
    (left : Bytes) (s : Session) → length left ≤ write_buffer_limit → IsInput (after_drain left s)
after_drain-IsInput [] s h = record { bounded = omega arith; watched = refl }
after_drain-IsInput (b ∷ left) s h = record { bounded = h; watched = refl }

-- With the PTY open, a flush restores the invariant from any buffer that is within the limit.
flush_write-IsInput :
    (answers : List WriteResult) (s : Session)
    → is_some s.master_fd ≡ true
    → length s.write_buffer ≤ write_buffer_limit
    → IsInput (flush_write answers s).0
unfolding flush_write
flush_write-IsInput answers s there h =
    rw (there, flush_write)
      (after_drain-IsInput _ s (omega (arith, length-drain-le answers s.write_buffer)))

pub flush_write_keeps :
    (answers : List WriteResult) (s : Session) → IsInput s → IsInput (flush_write answers s).0
unfolding flush_write
flush_write_keeps answers s i = elim (Bool-cases (is_some s.master_fd)) [
  | inl there ↦ flush_write-IsInput answers s there i.bounded
  | inr closed ↦ simp (closed, flush_write) i
]

is_open-fd : (s : Session) → is_open s ≡ true → is_some s.master_fd ≡ true
is_open-fd s h = ground arith

take_in-IsInput :
    (answers : List WriteResult) (encoded : Bytes) (s : Session)
    → is_some s.master_fd ≡ true
    → IsInput s
    → IsInput (take_in answers encoded s).0
take_in-IsInput answers encoded s there i =
    elim (Bool-cases (ltb write_buffer_limit (length s.write_buffer + length encoded))) [
      | inl over ↦ rw over (record { bounded = i.bounded; watched = i.watched })
      | inr fits ↦ rw fits (
          flush_write-IsInput answers (record s { write_buffer = s.write_buffer ++ encoded }) there
            (omega (tests, length-append s.write_buffer encoded)))
    ]

-- Whatever a client types and however little the PTY takes, an input keeps the buffer within its
-- limit, and the writability watched exactly while something is buffered.
pub write_input-IsInput :
    (now : ℕ) (answers : List WriteResult) (typed : Text) (s : Session)
    → IsInput s
    → IsInput (write_input now answers typed s).0
unfolding write_input
write_input-IsInput now answers typed s i = elim (Bool-cases (is_open s)) [
  | inr closed ↦ simp (closed, write_input) i
  | inl opened ↦ elim (Option-cases (encode typed)) [
    | inl broken ↦
        simp (opened, broken, write_input) (record { bounded = i.bounded; watched = i.watched })
    | inr (encoded, fine) ↦
        simp (opened, fine, write_input)
          (take_in-IsInput answers encoded (record s { last_activity = now }) (is_open-fd s opened)
            (record { bounded = i.bounded; watched = i.watched }))
  ]
]

write_input_dropped :
    (now : ℕ) (answers : List WriteResult) (typed : Text) (encoded : Bytes) (s : Session)
    → is_open s ≡ true
    → encode typed ≡ some encoded
    → write_buffer_limit < length s.write_buffer + length encoded
    → write_input now answers typed s
      ≡ (record s { last_activity = now; input_dropped = true }, [], returned (not s.input_dropped))
unfolding write_input
write_input_dropped now answers typed encoded s opened e over =
    simp (opened, e, write_input, lt→ltb _ _ over)

-- An input into an open session that does not fit is dropped as a whole: the session keeps its
-- buffer, and the caller is told unless the last input was dropped. The same input once more is
-- dropped without a word, also where the buffer is empty.
pub write_input_overflow :
    (now : ℕ) (answers : List WriteResult) (typed : Text) (encoded : Bytes) (s : Session)
    → is_open s ≡ true
    → encode typed ≡ some encoded
    → write_buffer_limit < length s.write_buffer + length encoded
    → let result = write_input now answers typed s in
      (result.0 ≡ record s { last_activity = now; input_dropped = true })
      × (result.1 ≡ [])
      × (result.2 ≡ returned (not s.input_dropped))
      × ((write_input now answers typed result.0).2 ≡ returned false)
write_input_overflow now answers typed encoded s opened e over =
    rw (write_input_dropped now answers typed encoded s opened e over) (
      refl,
      refl,
      refl,
      rw (
          write_input_dropped now answers typed encoded
            (record s { last_activity = now; input_dropped = true }) opened e over),
    )

-- What an integer becomes in a `winsize`: a negative one 0, one that is too large the limit.
abbrev pub IsClamped : ℤ → ℕ → Type 0
IsClamped (pos m) n = n ≡ min m winsize_max
IsClamped (negsuc m) n = n ≡ 0

clamp-IsClamped :
    (a : ℤ) → let n = max_zero (min_ℕ a winsize_max) in (n ≤ winsize_max) × IsClamped a n
clamp-IsClamped (pos m) = ground arith
clamp-IsClamped (negsuc m) = ground arith

-- While the PTY is open, a size is always set, for any integers that a client sends: each fits an
-- unsigned short of a `winsize`, and is the nearest one to what the client asked for.
pub resize_fits :
    (cols rows : ℤ) (s : Session)
    → is_open s ≡ true
    → (r : ℕ) × (c : ℕ) × (resize cols rows s ≡ some (r, c))
      × (r ≤ winsize_max)
      × (c ≤ winsize_max)
      × IsClamped rows r
      × IsClamped cols c
unfolding resize
resize_fits cols rows s opened = (
  max_zero (min_ℕ rows winsize_max),
  max_zero (min_ℕ cols winsize_max),
  simp (opened, resize),
  (clamp-IsClamped rows).0,
  (clamp-IsClamped cols).0,
  (clamp-IsClamped rows).1,
  (clamp-IsClamped cols).1,
)
