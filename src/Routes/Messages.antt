-- ===== src/Routes/Messages.antt =====
-- server/main.py, `terminal_ws`: the message loop of an open terminal, and what it does at its end.
-- Between two frames the session may change: a frame is one step on the session it finds.
use wterm.Prelude.{
  ℕ, ◌-◌, ◌/◌, second, Bool, true, false, Option, none, some, List, [], ◌∷◌, ◌++◌, if◌then◌else◌,
  Text, codes, ◌==◌, nat_key, list_key,
}
use wterm.Prelude.Int.{ℤ, pos}
use wterm.Json.{Json, Members, find}
use wterm.Audit.{text, number, audit}
use wterm.Auth.{Auth, unregister_socket}
use wterm.Routes.{Conn}
use wterm.Session.{Session, Bytes, Outbound}
use wterm.Session.Frame.{status_message}
use wterm.Session.Output.{enqueue_outbound}
use wterm.Session.Input
use wterm.Session.Input.{WriteResult, Accepted, returned, write_input, resize}
use wterm.Session.Lifecycle.{detach}

-- What `receive_text` and `json.loads` make of a frame: a value, a text that is not JSON, a binary
-- frame, an exception of the parser that is no JSONDecodeError (of a number with too many digits or
-- a value that nests too deep), or the end of the connection.
pub data Frame : Type 0 where
  parsed : Json → Frame
  malformed binary unparsable closed : Frame

pub data Next : Type 0 where
  goes_on over crashed : Next

-- What a frame does: the session, the bytes for the PTY, the size for it, and whether the loop goes on.
pub record Effect : Type 0 where
  pub session : Session
  pub written : Bytes
  pub size : Option (ℕ × ℕ)
  pub next : Next

abbrev pub quiet : Next → Session → Effect
quiet next s = record { session = s; written = []; size = none; next = next }

-- `send_status`
abbrev pub send_status : Text → Session → Session
send_status message s = enqueue_outbound (Outbound.text (status_message message)) s

abbrev pub after_input : Session × Bytes × Accepted → Effect
after_input (s, written, Input.raised) = record {
  session = s;
  written = written;
  size = none;
  next = crashed;
}
after_input (s, written, returned overflowed) = record {
  session = if overflowed then send_status (codes "입력이 밀려 일부를 버렸습니다 (세션이 입력을 읽지 않는 중).") s else s;
  written = written;
  size = none;
  next = goes_on;
}

-- isinstance(value, str)
abbrev pub as_text : Option Json → Option Text
as_text (some (Json.str t)) = some t
as_text other = none

-- isinstance(value, int): a Boolean is an int, too.
abbrev pub as_int : Option Json → Option ℤ
as_int (some (Json.int n)) = some n
as_int (some (Json.bool b)) = some (pos (if b then 1 else 0))
as_int other = none

-- The two messages of a client.
pub data Message : Type 0 where
  input : Text → Message
  size : ℤ → ℤ → Message

abbrev pub both_ints : Option ℤ → Option ℤ → Option Message
both_ints (some cols) (some rows) = some (size cols rows)
both_ints other none = none
both_ints none (some rows) = none

abbrev pub input_of : Option Text → Option Message
input_of none = none
input_of (some typed) = some (input typed)

abbrev pub message_of_kind : Text → Members → Option Message
message_of_kind kind members =
    if kind == codes "input"
    then input_of (as_text (find (codes "data") members))
    else if kind == codes "resize"
    then both_ints (as_int (find (codes "cols") members)) (as_int (find (codes "rows") members))
    else none

abbrev pub message_of_members : Option Text → Members → Option Message
message_of_members none members = none
message_of_members (some kind) members = message_of_kind kind members

-- The checks of a message's form: `none` is passed over.
unfoldable pub message_of : Json → Option Message
unfolding find
message_of (Json.object members) =
    message_of_members (as_text (find (codes "type") members)) members
message_of other = none

abbrev pub obey : ℕ → List WriteResult → Option Message → Session → Effect
obey now answers none s = quiet goes_on s
obey now answers (some (input typed)) s = after_input (write_input now answers typed s)
obey now answers (some (size cols rows)) s = record {
  session = s;
  written = [];
  size = resize cols rows s;
  next = goes_on;
}

-- One round of the loop.
unfoldable pub hear : ℕ → List WriteResult → Frame → Session → Effect
unfolding message_of write_input resize
hear now answers (parsed value) s = obey now answers (message_of value) s
hear now answers malformed s = quiet goes_on s
hear now answers binary s = quiet goes_on s
hear now answers unparsable s = quiet crashed s
hear now answers closed s = quiet over s

-- Frames with the clock and the kernel's answers, as they come.
abbrev pub Frames : Type 0
Frames = List (ℕ × List WriteResult × Frame)

-- What the loop has done: the last session, all bytes and sizes, and how it ended. If the frames are
-- used up, it still waits.
pub record Served : Type 0 where
  pub session : Session
  pub written : Bytes
  pub sizes : List (ℕ × ℕ)
  pub next : Next

abbrev pub sizes_of : Option (ℕ × ℕ) → List (ℕ × ℕ)
sizes_of none = []
sizes_of (some wh) = wh ∷ []

abbrev pub is_over : Next → Bool
is_over goes_on = false
is_over over = true
is_over crashed = true

abbrev pub before_rest : Effect → Served → Served
before_rest e rest = record rest {
  written = e.written ++ rest.written;
  sizes = sizes_of e.size ++ rest.sizes;
}

unfoldable pub listen : Frames → Session → Served
unfolding hear
listen [] s = record { session = s; written = []; sizes = []; next = goes_on }
listen ((now, answers, frame) ∷ frames) s =
    let e = hear now answers frame s in
    let rest = listen frames e.session in
    if is_over e.next
    then record { session = e.session; written = e.written; sizes = sizes_of e.size; next = e.next }
    else before_rest e rest

-- The `finally` of the loop: the socket is unregistered and detached.
unfoldable pub leave : ℕ → Session → Auth → Session × Auth
leave ws s a = (detach ws s, unregister_socket ws a)

-- The line of a terminal that is left; a second has a thousand ticks of the clock.
abbrev pub close_line : Conn → Text → Text → ℕ → ℕ → Text
close_line conn project_name agent opened_at now = audit (codes "ws-close") (
    (codes "client", some (text conn.client))
    ∷ (codes "project", some (text project_name))
    ∷ (codes "agent", some (text agent))
    ∷ (codes "seconds", some (number ((now - opened_at) / second)))
    ∷ [])

-- A terminal from its opening to its end.
unfoldable pub serve : ℕ → Frames → Session → Auth → Served × Session × Auth
unfolding listen leave
serve ws frames s a =
    let served = listen frames s in
    let (left, unregistered) = leave ws served.session a in (served, left, unregistered)
