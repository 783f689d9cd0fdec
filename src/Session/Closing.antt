-- ===== src/Session/Closing.antt =====
-- server/session.py: `_wait_outbound_close` and `close_attached`, the closes that go through the
-- writer of a socket. What the event loop does while a close waits is a list of moves: steps of the
-- output side, and other sockets that join or leave.
pub mod Writing
pub mod Drained
pub mod Farewell
use wterm.Prelude.{ℕ, Bool, true, false, none, some, List, [], ◌∷◌, if◌then◌else◌, Text}
use wterm.Session.{Session}
use wterm.Session.Output.{stop_outbound_writer}
use wterm.Session.Lifecycle.{queue_close, is_attached_to}
use wterm.Session.Connection.{Move, move}

-- The moves until the future of a close is resolved: the writer of the socket has then ended. A socket
-- joins once, so a later writer is the one of another.
unfoldable pub pass : ℕ → List Move → Session → Session
pass ws [] s = s
pass ws (m ∷ moves) s =
    let rest = pass ws moves (move m s) in if is_attached_to ws s.out_writer_ws then rest else s

-- `_wait_outbound_close`, with the moves that fit into its three seconds: the session, and whether
-- the socket is then closed past the writer.
unfoldable pub wait_outbound_close : List Move → ℕ → ℕ → Text → Session → Session × Bool
unfolding pass
wait_outbound_close moves ws code reason s = elim s.out_queue [
  | none ↦ (s, false)
  | some queue ↦
      let waited = pass ws moves (queue_close code reason s) in
      if is_attached_to ws waited.out_writer_ws
      then (stop_outbound_writer ws waited, true)
      else (waited, false)
]

-- `close_attached`; a socket without the writer of this session is closed directly.
unfoldable pub close_attached : List Move → ℕ → ℕ → Text → Session → Session × Bool
unfolding wait_outbound_close
close_attached moves ws code reason s =
    if is_attached_to ws s.out_writer_ws
    then wait_outbound_close moves ws code reason s
    else (s, true)
