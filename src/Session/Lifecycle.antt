-- ===== src/Session/Lifecycle.antt =====
-- server/session.py: `spawn`, `_handle_exit`, `terminate`, `attach`, `detach` and the timers.
-- An operation that awaits is one step here: what the event loop does in between are other steps.
pub mod Termination
pub mod Attachment
use wterm.Prelude.{
  ℕ, zero, suc, ◌+◌, ◌*◌, Bool, true, false, not, ◌&&◌, ◌||◌, Option, none, some, List, [], ◌∷◌,
  ◌++◌, ltb, leb, eqb, ◌-◌, max, second, if◌then◌else◌, length, Text, codes, is_nil, is_some, ◌==◌,
  nat_key, decimal,
}
use wterm.Prelude.Int.{ℤ, pos, negsuc}
use wterm.Session.{Session, Bytes, Outbound, bytes, text, close}
use wterm.Session.Frame.{status_message}
use wterm.Session.Output.{enqueue_outbound, stop_outbound_writer}

-- `spawn`: the PTY that `pty.fork` gave. The idle watch runs only if it is configured.
unfoldable pub spawn : ℕ → ℕ → Session → Session
spawn now fd s = record s {
  master_fd = some fd;
  alive = true;
  last_activity = now;
  reader_registered = true;
  idle_task = ltb 0 s.idle_seconds;
}

-- `_cleanup_fd`
unfoldable pub cleanup_fd : Session → Session
cleanup_fd s =
    if is_some s.master_fd
    then record s {
      master_fd = none;
      reader_registered = false;
      pty_reader_paused = false;
      writer_registered = false;
      write_buffer = [];
      input_dropped = false;
    }
    else s

-- The exit code as JSON: null if another caller has reaped the child.
unfoldable pub exit_code_text : Option ℤ → Text
exit_code_text none = codes "null"
exit_code_text (some (pos n)) = decimal n
exit_code_text (some (negsuc n)) = b'-' ∷ decimal (suc n)

unfoldable pub exit_message : Option ℤ → Text
unfolding exit_code_text
exit_message code = codes "{\"type\": \"exit\", \"code\": " ++ (exit_code_text code ++ b'}' ∷ [])

-- `_queued_control("close", …)`
abbrev pub queue_close : ℕ → Text → Session → Session
queue_close code reason s = enqueue_outbound (close code reason) s

abbrev pub farewell : Option ℤ → Option ℕ → Session → Session
farewell code none s = s
farewell code (some ws) s =
    queue_close 1000 (codes "세션이 종료됨") (enqueue_outbound (text (exit_message code)) s)

-- `_handle_exit`, and whether it announces a change of the live sessions. Its frames are queued
-- for the writer.
unfoldable pub handle_exit : Option ℤ → Session → Session × Bool
unfolding cleanup_fd
handle_exit code s =
    if s.alive
    then (let ended = cleanup_fd (record s { alive = false; idle_task = false }) in
        (farewell code s.websocket (record ended { websocket = none }), not s.terminating))
    else (s, false)

pub data Signal : Type 0 where
  hup term kill : Signal

-- `_wait_reaped`: at most so many polls, a tenth of a second apart. `true` says that the child is
-- gone, whoever reaped it; after the last answer it is there for good. The result is whether it is
-- gone, the answers that are left, and the number of sleeps.
unfoldable pub wait_reaped : ℕ → List Bool → Bool × List Bool × ℕ
wait_reaped zero polls = (false, polls, 0)
wait_reaped (suc n) [] = (false, [], suc n)
wait_reaped (suc n) (gone ∷ polls) =
    let rest = wait_reaped n polls in
    if gone then (true, polls, 0) else (rest.0, rest.1, suc rest.2)

abbrev pub sigterm_wait : ℕ
sigterm_wait = 10

abbrev pub sighup_wait : ℕ
sighup_wait = 2

-- The escalation of `terminate`: the signals that are sent, and the sleeps in all.
unfoldable pub escalate : List Bool → List Signal × ℕ
escalate polls =
    let (gone, polls', slept) = wait_reaped 20 polls in
    if gone
    then (hup ∷ [], slept)
    else let (gone', polls'', slept') = wait_reaped 80 polls' in
      if gone'
      then (hup ∷ term ∷ [], slept + slept')
      else let (_, _, slept'') = wait_reaped 10 polls'' in
        (hup ∷ term ∷ kill ∷ [], slept + slept' + slept'')

-- `terminate`: the session, the signals, the sleeps, and whether the change is announced.
unfoldable pub terminate : List Bool → Session → Session × List Signal × ℕ × Bool
unfolding cleanup_fd
terminate polls s =
    if s.alive
    then (let (signals, slept) = escalate polls in
        (
          cleanup_fd (record s { terminating = true; idle_task = false; alive = false }),
          signals,
          slept,
          not s.terminating,
        ))
    else (s, [], 0, false)

-- `cancel_grace`
unfoldable pub cancel_grace : Session → Session
cancel_grace s = record s { grace_task = false }

abbrev pub drop_old : Option ℕ → Session → Session
drop_old none s = s
drop_old (some old) s = stop_outbound_writer old (record s { websocket = none })

abbrev pub replay : Session → Session
replay s = if is_nil s.buffer then s else enqueue_outbound (bytes s.buffer) s

-- A new writer with an empty queue.
abbrev pub start_writer : ℕ → Session → Session
start_writer ws s = record s { websocket = some ws; out_queue = some []; out_writer_ws = some ws }

-- `attach`: the session, and the old socket that is closed with code 4000.
unfoldable pub attach : ℕ → ℕ → Session → Session × Option ℕ
unfolding cancel_grace
attach now ws s =
    let fresh = record (cancel_grace s) { last_activity = now } in
    (replay (start_writer ws (drop_old s.websocket fresh)), s.websocket)

abbrev pub is_attached_to : ℕ → Option ℕ → Bool
is_attached_to ws none = false
is_attached_to ws (some current) = current == ws

-- `attach` when its task is cancelled before the replay is sent.
unfoldable pub abandon_attach : ℕ → Session → Session
abandon_attach ws s =
    stop_outbound_writer ws
      (if is_attached_to ws s.websocket then record s { websocket = none } else s)

-- `detach`: a socket that was replaced changes nothing; the grace timer runs for a live session.
unfoldable pub detach : ℕ → Session → Session
detach ws s =
    if is_attached_to ws s.websocket
    then (let left = stop_outbound_writer ws (record s { websocket = none }) in
        record left { grace_task = if left.alive then true else left.grace_task })
    else s

-- `_notify_and_terminate`, up to the wait for the writer: the message and the close are queued.
abbrev pub notify : Text → ℕ → Text → Option ℕ → Session → Session
notify message code reason none s = s
notify message code reason (some ws) s =
    queue_close code reason (enqueue_outbound (text (status_message message)) s)

unfoldable pub notify_and_terminate :
    Text → ℕ → Text → List Bool → Session → Session × List Signal × ℕ × Bool
notify_and_terminate message code reason polls s =
    terminate polls (notify message code reason s.websocket (record s { websocket = none }))

abbrev pub idle_min_sleep : ℕ
idle_min_sleep = 500

-- `_idle_countdown`: how long it sleeps before it looks again; `none` is the expiry. The clock
-- counts milliseconds.
unfoldable pub idle_sleep : ℕ → Session → Option ℕ
idle_sleep now s =
    let quiet = now - s.last_activity in
    let allowed = s.idle_seconds * second in
    if leb allowed quiet then none else some (max (allowed - quiet) idle_min_sleep)
