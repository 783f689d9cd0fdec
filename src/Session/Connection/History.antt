-- ===== src/Session/Connection/History.antt =====
-- server/session.py: the connection of a session in any history of its sockets and its output.
use wterm.Prelude.{ℕ, ◌≡◌, refl, false, some, List, [], ◌∷◌, nat_key, arith}
use wterm.Session.{Session, Spec, create}
use wterm.Session.Lifecycle.{spawn, attach}
use wterm.Session.Lifecycle.Attachment.{attach-replay}
use wterm.Session.Output.Stream.{on_the_way}
use wterm.Session.Connection.{Move, move, run, CanRun, IsSound, spawned}
use wterm.Session.Connection.Sound.{move-IsSound}

moves-IsSound :
    (moves : List Move) (s : Session) → CanRun moves s → IsSound s → IsSound (run moves s)
moves-IsSound [] s p c = c
moves-IsSound (m ∷ moves) s (p, ps) c = moves-IsSound moves (move m s) ps (move-IsSound m s p c)

spawned-IsSound : (now fd : ℕ) (spec : Spec) → IsSound (spawned now fd spec)
unfolding spawn create
spawned-IsSound now fd spec = record {
  connected = record {
    balanced = record {
      counted = refl;
      bounded = omega arith;
      room = λ open_pty awake. omega arith;
      waiting = λ paused. absurd (cc);
      watched = λ alive ending open_pty leaving. refl;
      quiet = λ paused. absurd (cc);
    };
    owned = λ ws after. absurd (cc);
    ended = λ after. (refl, refl);
    shown = omega arith;
  };
  running = λ ws after. absurd (cc);
}

-- The connection of a session stays sound through every socket that comes and goes. Whatever the order
-- of joins, departures, cancelled joins and steps of the output side after its `spawn`: a writer is the
-- one of the attached socket and has its queue, a writer that has ended leaves nothing behind, the
-- balance of the output holds, so that what waits for a slow client never exceeds the high mark by more
-- than one read, and the replay buffer is within its limit.
pub run-IsSound :
    (moves : List Move) (now fd : ℕ) (spec : Spec)
    → CanRun moves (spawned now fd spec)
    → IsSound (run moves (spawned now fd spec))
run-IsSound moves now fd spec p =
    moves-IsSound moves (spawned now fd spec) p (spawned-IsSound now fd spec)

-- A client that joins, after whatever history of sockets and output since `spawn`, is first sent the
-- replay buffer, and nothing that was queued for another; the socket before it is closed; and the
-- grace timer is off.
pub run-replay :
    (moves : List Move) (now fd later ws : ℕ) (spec : Spec)
    → CanRun moves (spawned now fd spec)
    → let before = run moves (spawned now fd spec) in
      let (after, closed) = attach later ws before in
      (on_the_way after ≡ before.buffer)
      × (after.websocket ≡ some ws)
      × (after.grace_task ≡ false)
      × (closed ≡ before.websocket)
run-replay moves now fd later ws spec p =
    attach-replay later ws (run moves (spawned now fd spec))
      (run-IsSound moves now fd spec p).connected
