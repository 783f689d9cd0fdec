-- ===== src/Session/Output/Balance.antt =====
-- Back-pressure: the balance between the PTY and a slow client, and each operation that keeps it.
use wterm.Prelude.{
  ℕ, Text, ◌+◌, ◌-◌, ◌≤◌, ◌<◌, ◌≡◌, refl, ap, Bool, true, false, not, ◌&&◌, Option, List, [], ◌∷◌,
  ◌++◌, arith, is_some, some, none, length, sum_by, sum_by-append, Option-cases, Bool-cases, inl,
  inr, ◌==◌, nat_key,
}
use wterm.Session.{
  Session, Bytes, Outbound, bytes, text, close, read_chunk, output_high_watermark,
  output_low_watermark,
}
use wterm.Session.Output.{
  keep_recent, enqueue_outbound, receive, end_of_output, resume_pty_reader, weight, weight?, queued,
  writer_take, writer_done, writer_end, settle, resume_if_low, stop_outbound_writer, ends_writer,
  settle_current,
}

-- The most that can be pending: one read on top of an amount below the high mark.
abbrev pub pending_max : ℕ
pending_max = output_high_watermark + read_chunk

pub record IsBalanced (s : Session) : Type 0 where
  -- the counter is what is queued and what is being sent
  pub counted : s.out_pending_bytes ≡ weight? s.in_flight + queued s.out_queue
  pub bounded : s.out_pending_bytes ≤ pending_max
  -- with the PTY open, a reader that is not paused has room for a read
  pub room :
      is_some s.master_fd ≡ true
      → s.pty_reader_paused ≡ false
      → s.out_pending_bytes < output_high_watermark
  -- a paused reader waits for a writer that has more than the low mark to send
  pub waiting : s.pty_reader_paused ≡ true → output_low_watermark < s.out_pending_bytes
  -- the event loop watches the PTY of a live session exactly while the reader is not paused
  pub watched :
      s.alive ≡ true
      → s.terminating ≡ false
      → is_some s.master_fd ≡ true
      → s.exit_task ≡ false
      → s.reader_registered ≡ not s.pty_reader_paused
  pub quiet : s.pty_reader_paused ≡ true → s.reader_registered ≡ false

resume_if_low-IsBalanced :
    (s : Session)
    → s.out_pending_bytes ≡ weight? s.in_flight + queued s.out_queue
    → s.out_pending_bytes ≤ pending_max
    → (is_some s.master_fd ≡ true
        → s.pty_reader_paused ≡ false
        → s.out_pending_bytes < output_high_watermark)
    → (s.alive ≡ true
        → s.terminating ≡ false
        → is_some s.master_fd ≡ true
        → s.exit_task ≡ false
        → s.reader_registered ≡ not s.pty_reader_paused)
    → (s.pty_reader_paused ≡ true → s.reader_registered ≡ false)
    → IsBalanced (resume_if_low s)
unfolding resume_pty_reader
resume_if_low-IsBalanced s counted bounded room watched quiet = ground arith

weight-append :
    (queue : List Outbound) (item : Outbound)
    → sum_by weight (queue ++ item ∷ []) ≡ sum_by weight queue + weight item
weight-append queue item = omega (arith, sum_by-append weight queue (item ∷ []))

enqueue_bytes-IsBalanced :
    (chunk : Bytes) (queue : List Outbound) (s : Session)
    → s.out_queue ≡ some queue
    → length chunk ≤ read_chunk
    → s.pty_reader_paused ≡ false
    → is_some s.master_fd ≡ true
    → IsBalanced s
    → IsBalanced (enqueue_outbound (bytes chunk) s)
unfolding enqueue_outbound
enqueue_bytes-IsBalanced chunk queue s there fits awake opened i =
    ground (arith, weight-append queue (bytes chunk))

pub tell-IsBalanced :
    (message : Text) (s : Session) → IsBalanced s → IsBalanced (enqueue_outbound (text message) s)
unfolding enqueue_outbound
tell-IsBalanced message s i = elim (Option-cases s.out_queue) [
  | inl gone ↦ simp (gone, enqueue_outbound) i
  | inr (queue, there) ↦ ground (arith, weight-append queue (text message))
]

pub close-IsBalanced :
    (code : ℕ) (reason : Text) (s : Session)
    → IsBalanced s
    → IsBalanced (enqueue_outbound (close code reason) s)
unfolding enqueue_outbound
close-IsBalanced code reason s i = elim (Option-cases s.out_queue) [
  | inl gone ↦ simp (gone, enqueue_outbound) i
  | inr (queue, there) ↦ ground (arith, weight-append queue (close code reason))
]

pub end_of_output-IsBalanced : (s : Session) → IsBalanced s → IsBalanced (end_of_output s)
end_of_output-IsBalanced s i = ground arith

awake : (s : Session) → s.reader_registered ≡ true → IsBalanced s → s.pty_reader_paused ≡ false
awake s watched i = elim (Bool-cases s.pty_reader_paused) [
  | inl paused ↦ absurd (let q = i.quiet paused in cc)
  | inr running ↦ running
]

enqueue_chunk-IsBalanced :
    (chunk : Bytes) (s : Session)
    → length chunk ≤ read_chunk
    → s.pty_reader_paused ≡ false
    → is_some s.master_fd ≡ true
    → IsBalanced s
    → IsBalanced (enqueue_outbound (bytes chunk) s)
unfolding enqueue_outbound
enqueue_chunk-IsBalanced chunk s fits running opened i = elim (Option-cases s.out_queue) [
  | inl gone ↦ simp (gone, enqueue_outbound) i
  | inr (queue, there) ↦ enqueue_bytes-IsBalanced chunk queue s there fits running opened i
]

pub receive-IsBalanced :
    (now : ℕ) (chunk : Bytes) (s : Session)
    → length chunk ≤ read_chunk
    → s.reader_registered ≡ true
    → is_some s.master_fd ≡ true
    → IsBalanced s
    → IsBalanced (receive now chunk s)
receive-IsBalanced now chunk s fits watched opened i =
    let kept : Session = record s {
      last_activity = now;
      buffer = keep_recent (s.buffer ++ chunk);
    } in
    let kept_i : IsBalanced kept = record {
      counted = i.counted;
      bounded = i.bounded;
      room = i.room;
      waiting = i.waiting;
      watched = i.watched;
      quiet = i.quiet;
    } in
    elim (Bool-cases (is_some s.websocket)) [
      | inr alone ↦ simp (alone) kept_i
      | inl attached ↦
          simp (attached)
            (enqueue_chunk-IsBalanced chunk kept fits (awake s watched i) opened kept_i)
    ]

pub take-IsBalanced : (s : Session) → IsBalanced s → IsBalanced (writer_take s)
unfolding writer_take
take-IsBalanced s i = ground arith

settle-IsBalanced :
    (item : Outbound) (s : Session)
    → s.in_flight ≡ some item
    → IsBalanced s
    → IsBalanced (settle item s)
settle-IsBalanced (bytes chunk) s current i =
    resume_if_low-IsBalanced
      (record s { out_pending_bytes = s.out_pending_bytes - length chunk; in_flight = none })
      (omega (arith, i.counted, ap weight? current)) (omega (arith, i.bounded))
      (λ opened running. omega (arith, i.room opened running)) i.watched i.quiet
settle-IsBalanced (text t) s current i = ground arith
settle-IsBalanced (close code reason) s current i = ground arith

pub end_last :
    (s : Session)
    → writer_end s
      ≡ resume_if_low (record s {
        out_pending_bytes = s.out_pending_bytes - queued s.out_queue;
        out_queue = none;
        out_writer_ws = none;
      })
unfolding writer_end
end_last s = ground arith

end-IsBalanced : (s : Session) → s.in_flight ≡ none → IsBalanced s → IsBalanced (writer_end s)
unfolding writer_end
end-IsBalanced s idle i =
    let ended : Session = record s {
      out_pending_bytes = s.out_pending_bytes - queued s.out_queue;
      out_queue = none;
      out_writer_ws = none;
    } in
    let same : writer_end s ≡ resume_if_low ended = end_last s in
    rw same (
      resume_if_low-IsBalanced ended (omega (arith, i.counted, ap weight? idle))
        (omega (arith, i.bounded)) (λ opened running. omega (arith, i.room opened running))
        i.watched i.quiet)

pub settle-in_flight : (item : Outbound) (s : Session) → (settle item s).in_flight ≡ none
unfolding resume_pty_reader
settle-in_flight (bytes chunk) s = ground arith
settle-in_flight (text t) s = refl
settle-in_flight (close code reason) s = refl

pub done-IsBalanced : (sent : Bool) (s : Session) → IsBalanced s → IsBalanced (writer_done sent s)
unfolding writer_done
done-IsBalanced sent s i = elim (Option-cases s.in_flight) [
  | inl idle ↦ simp (idle, writer_done) i
  | inr (item, current) ↦
      let settled = settle-IsBalanced item s current i in
      elim (Bool-cases (sent && not (ends_writer item))) [
        | inl goes_on ↦ rw (current, writer_done, goes_on) settled
        | inr ends ↦
            rw (current, writer_done, ends)
              (end-IsBalanced (settle item s) (settle-in_flight item s) settled)
      ]
]

pub current-IsBalanced :
    (current : Option Outbound) (s : Session)
    → s.in_flight ≡ current
    → IsBalanced s
    → IsBalanced (writer_end (settle_current current s))
current-IsBalanced none s e i = end-IsBalanced s e i
current-IsBalanced (some item) s e i =
    end-IsBalanced (settle item s) (settle-in_flight item s) (settle-IsBalanced item s e i)

pub stop-IsBalanced : (ws : ℕ) (s : Session) → IsBalanced s → IsBalanced (stop_outbound_writer ws s)
unfolding stop_outbound_writer
stop-IsBalanced ws s i = elim (Option-cases s.out_writer_ws) [
  | inl gone ↦ simp (gone, stop_outbound_writer) i
  | inr (owner, there) ↦ elim (Bool-cases (owner == ws)) [
    | inr other ↦ simp (there, stop_outbound_writer, other) i
    | inl mine ↦ simp (there, stop_outbound_writer, mine) (current-IsBalanced s.in_flight s refl i)
  ]
]
