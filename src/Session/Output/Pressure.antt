-- ===== src/Session/Output/Pressure.antt =====
-- Back-pressure: how much output can wait for a slow client, and that the reader wakes up again.
use wterm.Prelude.{ℕ, Text, ◌≤◌, ◌≡◌, Bool, true, [], ◌∷◌, is_some, length, nat_key}
use wterm.Session.{Session, text, close, read_chunk}
use wterm.Session.Output.{
  ReadResult, got, nothing_yet, read_error, on_pty_readable, enqueue_outbound, writer_take,
  writer_done, stop_outbound_writer,
}
use wterm.Session.Output.Balance.{
  IsBalanced, tell-IsBalanced, close-IsBalanced, end_of_output-IsBalanced, receive-IsBalanced,
  take-IsBalanced, done-IsBalanced, stop-IsBalanced,
}

-- What happens on the output side: a read, a status or exit message, a close, and the
-- writer's steps.
pub data Event : Type 0 where
  reads : ℕ → ReadResult → Event
  tells : Text → Event
  closes : ℕ → Text → Event
  takes : Event
  sends : Bool → Event
  stops : ℕ → Event

-- The event loop reads only what it watches, and a read returns a chunk at most.
abbrev pub FitsChunk : ReadResult → Type 0
FitsChunk (got chunk) = length chunk ≤ read_chunk
FitsChunk other = Unit

abbrev pub IsPossible : Event → Session → Type 0
IsPossible (reads now r) s =
    (s.reader_registered ≡ true) × (is_some s.master_fd ≡ true) × FitsChunk r
IsPossible other s = Unit

unfoldable pub step : Event → Session → Session
step (reads now r) s = on_pty_readable now r s
step (tells message) s = enqueue_outbound (text message) s
step (closes code reason) s = enqueue_outbound (close code reason) s
step takes s = writer_take s
step (sends sent) s = writer_done sent s
step (stops ws) s = stop_outbound_writer ws s

read-IsBalanced :
    (now : ℕ) (r : ReadResult) (s : Session)
    → IsPossible (reads now r) s
    → IsBalanced s
    → IsBalanced (on_pty_readable now r s)
unfolding on_pty_readable
read-IsBalanced now nothing_yet s p i = i
read-IsBalanced now read_error s p i = end_of_output-IsBalanced s i
read-IsBalanced now (got []) s p i = end_of_output-IsBalanced s i
read-IsBalanced now (got (b ∷ chunk)) s p i = receive-IsBalanced now (b ∷ chunk) s p.2 p.0 p.1 i

-- Every step that the event loop can take on the output side keeps the balance of a session: what
-- waits for a slow client never exceeds the high mark by more than one read, the counter is exactly
-- what waits, and the reader sleeps only while more than the low mark waits.
pub step-IsBalanced :
    (e : Event) (s : Session) → IsPossible e s → IsBalanced s → IsBalanced (step e s)
unfolding step
step-IsBalanced (reads now r) s p i = read-IsBalanced now r s p i
step-IsBalanced (tells message) s p i = tell-IsBalanced message s i
step-IsBalanced (closes code reason) s p i = close-IsBalanced code reason s i
step-IsBalanced takes s p i = take-IsBalanced s i
step-IsBalanced (sends sent) s p i = done-IsBalanced sent s i
step-IsBalanced (stops ws) s p i = stop-IsBalanced ws s i
