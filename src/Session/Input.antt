-- ===== src/Session/Input.antt =====
-- server/session.py: `write_input`, `_flush_write` and `resize`, from the client to the PTY.
pub mod Bounds
pub mod Stream
use wterm.Prelude.{
  ℕ, suc, ◌+◌, ◌-◌, Bool, true, false, not, ◌&&◌, Option, none, some, List, [], ◌∷◌, ◌++◌, ltb,
  if◌then◌else◌, length, take, drop, Text, is_nil, is_some, encode,
}
use wterm.Prelude.Int.{ℤ, min_ℕ, max_zero}
use wterm.Session.{Session, Bytes, write_buffer_limit, is_open}

-- What `os.write` answers.
pub data WriteResult : Type 0 where
  wrote : ℕ → WriteResult
  would_block os_error : WriteResult

-- The loop of `_flush_write`: the kernel's answers, and EAGAIN after the last one. The result is
-- what was written and what is left in the buffer.
unfoldable pub drain : List WriteResult → Bytes → Bytes × Bytes
drain [] buffer = ([], buffer)
drain (answer ∷ answers) [] = ([], [])
drain (would_block ∷ answers) (b ∷ buffer) = ([], b ∷ buffer)
drain (os_error ∷ answers) (b ∷ buffer) = ([], [])
drain (wrote n ∷ answers) (b ∷ buffer) =
    let (written, left) = drain answers (drop n (b ∷ buffer)) in
    (take n (b ∷ buffer) ++ written, left)

-- The end of `_flush_write`: the writer is registered as long as something is left.
abbrev pub after_drain : Bytes → Session → Session
after_drain left s =
    if is_nil left
    then record s { write_buffer = []; input_dropped = false; writer_registered = false }
    else record s { write_buffer = left; writer_registered = true }

unfoldable pub flush_write : List WriteResult → Session → Session × Bytes
unfolding drain
flush_write answers s =
    if is_some s.master_fd
    then (let (written, left) = drain answers s.write_buffer in (after_drain left s, written))
    else (s, [])

-- What `write_input` does to its caller: it returns, or it raises a UnicodeEncodeError.
pub data Accepted : Type 0 where
  returned : Bool → Accepted
  raised : Accepted

abbrev pub take_in : List WriteResult → Bytes → Session → Session × Bytes × Accepted
take_in answers encoded s =
    if ltb write_buffer_limit (length s.write_buffer + length encoded)
    then (record s { input_dropped = true }, [], returned (not s.input_dropped))
    else let (s', written) =
        flush_write answers (record s { write_buffer = s.write_buffer ++ encoded }) in
      (s', written, returned false)

-- The session, what went to the PTY, and the answer: `returned true` where an overflow begins.
unfoldable pub write_input : ℕ → List WriteResult → Text → Session → Session × Bytes × Accepted
unfolding encode
write_input now answers typed s =
    if is_open s
    then (elim (encode typed) [
      | none ↦ (record s { last_activity = now }, [], raised)
      | some encoded ↦ take_in answers encoded (record s { last_activity = now })
    ])
    else (s, [], returned false)

abbrev pub winsize_max : ℕ
winsize_max = 0xffff

-- The rows and columns that `resize` packs for the ioctl, if it makes one.
unfoldable pub resize : ℤ → ℤ → Session → Option (ℕ × ℕ)
resize cols rows s =
    if is_open s
    then some (max_zero (min_ℕ rows winsize_max), max_zero (min_ℕ cols winsize_max))
    else none
