-- ===== src/Session/Output/Replay.antt =====
-- The replay buffer: what a client that comes back is shown.
use wterm.Prelude.{
  ℕ, ◌+◌, ◌-◌, ◌≤◌, ◌≡◌, refl, sym, ap, ◌∙◌, List, [], ◌∷◌, ◌++◌, arith, tests, ltb, is_some,
  length, drop, drop_zero, drop-drop, drop-append_le, length-append, length-drop, append_assoc,
  append-nil, take_last, Option-cases, Bool-cases, inl, inr,
}
use wterm.Session.{Session, Bytes, buffer_limit, Outbound, bytes, text, close}
use wterm.Session.Output.{
  ReadResult, got, nothing_yet, read_error, keep_recent, on_pty_readable, enqueue_outbound, receive,
  count_in, pause_pty_reader,
}

keep_recent-take_last : (b : Bytes) → keep_recent b ≡ take_last buffer_limit b
unfolding keep_recent
keep_recent-take_last b = elim (Bool-cases (ltb buffer_limit (length b))) [
  | inl long ↦ rw long
  | inr short ↦ rw short (sym (drop_zero (length b - buffer_limit) b (omega tests)))
]

-- Cutting a stream again after each piece is the same as cutting it once.
take_last-append :
    (n : ℕ) (xs ys : Bytes) → take_last n (take_last n xs ++ ys) ≡ take_last n (xs ++ ys)
take_last-append n xs ys =
    let k = length xs - n in
    let whole = drop k (xs ++ ys) in
    let total : k + (length whole - n) ≡ length (xs ++ ys) - n =
      omega (arith, length-drop k (xs ++ ys), length-append xs ys) in
    ap (take_last n) (sym (drop-append_le k xs ys (omega arith)))
    ∙ drop-drop (length whole - n) k (xs ++ ys)
    ∙ ap (λ m. drop m (xs ++ ys)) total

-- All output of the child, as the reads give it.
unfoldable pub output_of : List ReadResult → Bytes
output_of [] = []
output_of (got chunk ∷ reads) = chunk ++ output_of reads
output_of (nothing_yet ∷ reads) = output_of reads
output_of (read_error ∷ reads) = output_of reads

unfoldable pub read_all : ℕ → List ReadResult → Session → Session
read_all now [] s = s
read_all now (r ∷ reads) s = read_all now reads (on_pty_readable now r s)

abbrev chunk_of : ReadResult → Bytes
chunk_of (got chunk) = chunk
chunk_of other = []

-- Queueing an item does not touch the replay buffer.
count_in-buffer : (item : Outbound) (s : Session) → (count_in item s).buffer ≡ s.buffer
unfolding pause_pty_reader
count_in-buffer (bytes chunk) s = ground arith
count_in-buffer (text t) s = refl
count_in-buffer (close code reason) s = refl

enqueue_outbound-buffer :
    (item : Outbound) (s : Session) → (enqueue_outbound item s).buffer ≡ s.buffer
unfolding enqueue_outbound
enqueue_outbound-buffer item s = elim (Option-cases s.out_queue) [
  | inl gone ↦ simp (gone, enqueue_outbound)
  | inr (queue, there) ↦ simp (there, enqueue_outbound) (count_in-buffer item s)
]

receive-buffer :
    (now : ℕ) (chunk : Bytes) (s : Session)
    → (receive now chunk s).buffer ≡ take_last buffer_limit (s.buffer ++ chunk)
receive-buffer now chunk s = elim (Bool-cases (is_some s.websocket)) [
  | inl attached ↦ simp (attached) (
      enqueue_outbound-buffer (bytes chunk)
        (record s { last_activity = now; buffer = keep_recent (s.buffer ++ chunk) })
      ∙ keep_recent-take_last (s.buffer ++ chunk))
  | inr alone ↦ simp (alone) (keep_recent-take_last (s.buffer ++ chunk))
]

on_pty_readable-buffer :
    (now : ℕ) (r : ReadResult) (s : Session)
    → length s.buffer ≤ buffer_limit
    → (on_pty_readable now r s).buffer ≡ take_last buffer_limit (s.buffer ++ chunk_of r)
unfolding on_pty_readable
on_pty_readable-buffer now nothing_yet s h =
    rw append-nil (sym (drop_zero _ s.buffer (omega arith)))
on_pty_readable-buffer now read_error s h = rw append-nil (sym (drop_zero _ s.buffer (omega arith)))
on_pty_readable-buffer now (got []) s h = rw append-nil (sym (drop_zero _ s.buffer (omega arith)))
on_pty_readable-buffer now (got (b ∷ chunk)) s h = receive-buffer now (b ∷ chunk) s

output_of-cons :
    (r : ReadResult) (reads : List ReadResult)
    → output_of (r ∷ reads) ≡ chunk_of r ++ output_of reads
unfolding output_of
output_of-cons (got chunk) reads = refl
output_of-cons nothing_yet reads = refl
output_of-cons read_error reads = refl

length-take_last-le : (n : ℕ) (b : Bytes) → length (take_last n b) ≤ n
length-take_last-le n b = omega (arith, length-drop (length b - n) b)

-- What a client that comes back is shown. For a session whose replay buffer is within its limit:
-- after any reads, whatever their sizes and whether or not a client is attached, the buffer holds
-- the last 256 KiB of what it held before and all that the child has written since.
pub read_all-buffer :
    (now : ℕ) (reads : List ReadResult) (s : Session)
    → length s.buffer ≤ buffer_limit
    → (read_all now reads s).buffer ≡ take_last buffer_limit (s.buffer ++ output_of reads)
unfolding read_all output_of
read_all-buffer now [] s h = rw append-nil (sym (drop_zero _ s.buffer (omega arith)))
read_all-buffer now (r ∷ reads) s h =
    let step = on_pty_readable-buffer now r s h in
    let small : length (on_pty_readable now r s).buffer ≤ buffer_limit =
      omega (arith, ap length step, length-take_last-le buffer_limit (s.buffer ++ chunk_of r)) in
    read_all-buffer now reads (on_pty_readable now r s) small
    ∙ ap (λ b. take_last buffer_limit (b ++ output_of reads)) step
    ∙ take_last-append buffer_limit (s.buffer ++ chunk_of r) (output_of reads)
    ∙ ap (take_last buffer_limit) (
        append_assoc s.buffer (chunk_of r) (output_of reads)
        ∙ ap (◌++◌ s.buffer) (sym (output_of-cons r reads)))
