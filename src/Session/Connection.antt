-- ===== src/Session/Connection.antt =====
-- server/session.py: every socket of a session, one after the other. The histories here are those of
-- `attach`, `detach` and the output side, in any order, while the process of the session lives.
pub mod Frames
pub mod Sound
pub mod History
use wterm.Prelude.{ℕ, ◌≡◌, true, some, List, [], ◌∷◌, is_some}
use wterm.Session.{Session, Spec, create}
use wterm.Session.Output.Pressure.{Event, step, IsPossible}
use wterm.Session.Lifecycle.{spawn, attach, detach, abandon_attach}
use wterm.Session.Lifecycle.Attachment.{IsConnected}

pub data Move : Type 0 where
  joins : ℕ → ℕ → Move
  leaves abandons : ℕ → Move
  works : Event → Move

unfoldable pub move : Move → Session → Session
move (joins now ws) s = (attach now ws s).0
move (leaves ws) s = detach ws s
move (abandons ws) s = abandon_attach ws s
move (works e) s = step e s

abbrev pub run : List Move → Session → Session
run [] s = s
run (m ∷ moves) s = run moves (move m s)

abbrev pub CanMove : Move → Session → Type 0
CanMove (works e) s = IsPossible e s
CanMove other s = Unit

abbrev pub CanRun : List Move → Session → Type 0
CanRun [] s = Unit
CanRun (m ∷ moves) s = CanMove m s × CanRun moves (move m s)

pub record IsSound (s : Session) : Type 0 where
  pub connected : IsConnected s
  pub running : (ws : ℕ) → s.out_writer_ws ≡ some ws → is_some s.out_queue ≡ true

-- A session as `spawn` leaves it.
abbrev pub spawned : ℕ → ℕ → Spec → Session
spawned now fd spec = spawn now fd (create now spec)
