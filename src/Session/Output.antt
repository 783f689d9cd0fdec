-- ===== src/Session/Output.antt =====
-- server/session.py: from the PTY to the client. The reader, the queue of the socket's only
-- writer, and the back-pressure between them. `add_reader` of the event loop is taken not to fail.
pub mod Replay
pub mod Balance
pub mod Pressure
pub mod Stop
pub mod Stream
use wterm.Prelude.{
  ℕ, suc, ◌+◌, ◌-◌, Bool, true, false, not, ◌&&◌, Option, none, some, List, [], ◌∷◌, ◌++◌, ltb, leb,
  if◌then◌else◌, length, drop, sum_by, Text, is_nil, is_some, ◌==◌, nat_key,
}
use wterm.Session.{
  Session, Bytes, Outbound, bytes, text, close, buffer_limit, output_high_watermark,
  output_low_watermark,
}

-- `_pause_pty_reader`
unfoldable pub pause_pty_reader : Session → Session
pause_pty_reader s =
    if not s.pty_reader_paused && is_some s.master_fd
    then record s { reader_registered = false; pty_reader_paused = true }
    else s

-- `_resume_pty_reader`
unfoldable pub resume_pty_reader : Session → Session
resume_pty_reader s =
    if s.pty_reader_paused
    then record s {
      reader_registered =
          if s.alive && not s.terminating && is_some s.master_fd then true else s.reader_registered;
      pty_reader_paused = false;
    }
    else s

-- The bytes of an item; only PTY output counts for the back-pressure.
abbrev pub weight : Outbound → ℕ
weight (bytes chunk) = length chunk
weight (text t) = 0
weight (close code reason) = 0

abbrev pub weight? : Option Outbound → ℕ
weight? none = 0
weight? (some item) = weight item

abbrev pub queued : Option (List Outbound) → ℕ
queued none = 0
queued (some queue) = sum_by weight queue

-- The bytes are counted before the item is put into the queue.
abbrev pub count_in : Outbound → Session → Session
count_in (bytes chunk) s =
    let counted = record s { out_pending_bytes = s.out_pending_bytes + length chunk } in
    if leb output_high_watermark counted.out_pending_bytes
    then pause_pty_reader counted
    else counted
count_in other s = s

-- `_enqueue_outbound`: without a writer the item is dropped.
unfoldable pub enqueue_outbound : Outbound → Session → Session
unfolding pause_pty_reader
enqueue_outbound item s = elim s.out_queue [
  | none ↦ s
  | some queue ↦ record (count_in item s) { out_queue = some (queue ++ item ∷ []) }
]

-- What `os.read` of the PTY answers.
pub data ReadResult : Type 0 where
  got : Bytes → ReadResult
  nothing_yet read_error : ReadResult

-- `self.buffer`, cut to its last BUFFER_LIMIT bytes
unfoldable pub keep_recent : Bytes → Bytes
keep_recent buffer =
    if ltb buffer_limit (length buffer) then drop (length buffer - buffer_limit) buffer else buffer

abbrev pub end_of_output : Session → Session
end_of_output s = record s {
  reader_registered =
      if s.reader_registered && is_some s.master_fd then false else s.reader_registered;
  exit_task = true;
}

abbrev pub receive : ℕ → Bytes → Session → Session
receive now chunk s =
    let kept = record s { last_activity = now; buffer = keep_recent (s.buffer ++ chunk) } in
    if is_some s.websocket then enqueue_outbound (bytes chunk) kept else kept

-- `_on_pty_readable`; an error and an empty read both say that the child is gone.
unfoldable pub on_pty_readable : ℕ → ReadResult → Session → Session
unfolding enqueue_outbound keep_recent
on_pty_readable now nothing_yet s = s
on_pty_readable now read_error s = end_of_output s
on_pty_readable now (got chunk) s = if is_nil chunk then end_of_output s else receive now chunk s

-- The writer takes the next item: `await queue.get()`.
unfoldable pub writer_take : Session → Session
writer_take s = elim s.in_flight [
  | some item ↦ s
  | none ↦ elim s.out_queue [
    | none ↦ s
    | some [] ↦ s
    | some (item ∷ queue) ↦ record s { in_flight = some item; out_queue = some queue }
  ]
]

abbrev pub resume_if_low : Session → Session
resume_if_low s = if leb s.out_pending_bytes output_low_watermark then resume_pty_reader s else s

-- The inner `finally`: the item is no longer pending, sent or not.
abbrev pub settle : Outbound → Session → Session
settle (bytes chunk) s =
    resume_if_low
      (record s { out_pending_bytes = s.out_pending_bytes - length chunk; in_flight = none })
settle other s = record s { in_flight = none }

-- The outer `finally`: what is queued is dropped, and the writer is gone.
unfoldable pub writer_end : Session → Session
unfolding resume_pty_reader
writer_end s =
    record (resume_if_low
      (record s { out_pending_bytes = s.out_pending_bytes - queued s.out_queue })) {
        out_queue = none;
        out_writer_ws = none;
      }

abbrev pub ends_writer : Outbound → Bool
ends_writer (close code reason) = true
ends_writer other = false

-- The send of the current item is over. After a close, or a send that failed, the writer ends.
unfoldable pub writer_done : Bool → Session → Session
unfolding resume_pty_reader writer_end
writer_done sent s = elim s.in_flight [
  | none ↦ s
  | some item ↦ if sent && not (ends_writer item) then settle item s else writer_end (settle item s)
]

abbrev pub settle_current : Option Outbound → Session → Session
settle_current none s = s
settle_current (some item) s = settle item s

-- `_stop_outbound_writer`: the task is cancelled wherever it waits, if it is the one of the socket.
unfoldable pub stop_outbound_writer : ℕ → Session → Session
unfolding resume_pty_reader writer_end
stop_outbound_writer ws s = elim s.out_writer_ws [
  | none ↦ s
  | some owner ↦ if owner == ws then writer_end (settle_current s.in_flight s) else s
]
