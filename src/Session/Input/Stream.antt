-- ===== src/Session/Input/Stream.antt =====
-- What the PTY receives: the accepted inputs in their order, each as a whole.
use wterm.Prelude.{
  ℕ, ◌+◌, ◌≡◌, refl, sym, ◌∙◌, Option, none, some, List, [], ◌∷◌, ◌++◌, ltb, leb, le→leb, lt→leb,
  ltb→lt, ltb→le, if◌then◌else◌, length, drop, take-append-drop, append-nil, append_assoc, Text,
  is_some, encode, All, Bool-cases, Option-cases, inl, inr,
}
use wterm.Session.{Session, Bytes, write_buffer_limit, is_open}
use wterm.Session.Input.{
  WriteResult, wrote, would_block, os_error, drain, after_drain, flush_write, take_in, write_input,
}

-- A write that did not fail, as long as the other end of the PTY is there.
abbrev pub IsFine : WriteResult → Type 0
IsFine os_error = ⊥
IsFine other = Unit

pub drain-append :
    (answers : List WriteResult) (buffer : Bytes)
    → All IsFine answers
    → (drain answers buffer).0 ++ (drain answers buffer).1 ≡ buffer
unfolding drain
drain-append [] buffer h = refl
drain-append (answer ∷ answers) [] h = refl
drain-append (would_block ∷ answers) (b ∷ buffer) h = refl
drain-append (os_error ∷ answers) (b ∷ buffer) h = absurd h.0
drain-append (wrote n ∷ answers) (b ∷ buffer) h =
    rw (append_assoc, drain-append answers (drop n (b ∷ buffer)) h.1)
      (take-append-drop n (b ∷ buffer))

-- The events that touch the input side.
pub data Event : Type 0 where
  types : ℕ → List WriteResult → Text → Event
  writable : List WriteResult → Event

abbrev pub IsFineEvent : Event → Type 0
IsFineEvent (types now answers text) = All IsFine answers
IsFineEvent (writable answers) = All IsFine answers

unfoldable pub step : Event → Session → Session × Bytes
step (types now answers text) s =
    let (s', written, _) = write_input now answers text s in (s', written)
step (writable answers) s = flush_write answers s

-- The session after the events, and all that the PTY was given.
unfoldable pub run : List Event → Session → Session × Bytes
run [] s = (s, [])
run (e ∷ events) s =
    let (s', written) = step e s in let (last, rest) = run events s' in (last, written ++ rest)

-- What an event adds to the stream: its text as a whole if there is room for it, or nothing.
abbrev admitted : Option Bytes → Session → Bytes
admitted none s = []
admitted (some encoded) s =
    if leb (length s.write_buffer + length encoded) write_buffer_limit then encoded else []

unfoldable pub accepted : Event → Session → Bytes
accepted (types now answers text) s = if is_open s then admitted (encode text) s else []
accepted (writable answers) s = []

unfoldable pub all_accepted : List Event → Session → Bytes
all_accepted [] s = []
all_accepted (e ∷ events) s = accepted e s ++ all_accepted events (step e s).0

after_drain-write_buffer : (left : Bytes) (s : Session) → (after_drain left s).write_buffer ≡ left
after_drain-write_buffer [] s = refl
after_drain-write_buffer (b ∷ left) s = refl

pub flush_write-stream :
    (answers : List WriteResult) (s : Session)
    → All IsFine answers
    → (flush_write answers s).1 ++ (flush_write answers s).0.write_buffer ≡ s.write_buffer
unfolding flush_write
flush_write-stream answers s h = elim (Bool-cases (is_some s.master_fd)) [
  | inr closed ↦ rw (closed, flush_write)
  | inl there ↦
      rw (there, flush_write, after_drain-write_buffer (drain answers s.write_buffer).1 s)
        (drain-append answers s.write_buffer h)
]

take_in-stream :
    (answers : List WriteResult) (encoded : Bytes) (s : Session)
    → All IsFine answers
    → (take_in answers encoded s).1 ++ (take_in answers encoded s).0.write_buffer
      ≡ s.write_buffer ++ admitted (some encoded) s
take_in-stream answers encoded s h =
    elim (Bool-cases (ltb write_buffer_limit (length s.write_buffer + length encoded))) [
      | inl over ↦ rw (over, lt→leb _ _ (ltb→lt _ _ over)) (sym (append-nil s.write_buffer))
      | inr fits ↦
          rw (fits, le→leb _ _ (ltb→le _ _ fits))
            (flush_write-stream answers (record s { write_buffer = s.write_buffer ++ encoded }) h)
    ]

pub step-stream :
    (e : Event) (s : Session)
    → IsFineEvent e
    → (step e s).1 ++ (step e s).0.write_buffer ≡ s.write_buffer ++ accepted e s
unfolding step accepted write_input
step-stream (types now answers text) s h = elim (Bool-cases (is_open s)) [
  | inr closed ↦ simp (closed, write_input, append-nil)
  | inl opened ↦ elim (Option-cases (encode text)) [
    | inl broken ↦ simp (opened, broken, write_input, append-nil)
    | inr (encoded, fine) ↦
        simp (opened, fine, write_input)
          (take_in-stream answers encoded (record s { last_activity = now }) h)
  ]
]
step-stream (writable answers) s h =
    flush_write-stream answers s h ∙ sym (append-nil s.write_buffer)

-- No byte is lost, repeated or reordered. Over any sequence of inputs and of moments at which the
-- PTY can be written, with writes of any length but none that fails: what the PTY was given, with
-- what is still buffered, is what was buffered at first and then each accepted input as a whole.
pub run-stream :
    (events : List Event) (s : Session)
    → All IsFineEvent events
    → (run events s).1 ++ (run events s).0.write_buffer ≡ s.write_buffer ++ all_accepted events s
unfolding run all_accepted
run-stream [] s h = sym (append-nil s.write_buffer)
run-stream (e ∷ events) s h =
    rw (append_assoc, run-stream events (step e s).0 h.1, ← append_assoc, step-stream e s h.0)
      (append_assoc s.write_buffer (accepted e s) (all_accepted events (step e s).0))
