-- ===== src/Session/Closing/Drained.antt =====
-- server/session.py: what a close through the writer of a socket leaves behind.
use wterm.Prelude.{
  ℕ, ◌≡◌, ◌≢◌, ◌⊎◌, refl, ap, ◌∙◌, true, false, none, some, List, [], ◌∷◌, is_some, if◌then◌else◌,
  Text, nat_key, Option-cases, Bool-cases, inl, inr, ==_refl, ==_cases, arith,
}
use wterm.Session.{Session}
use wterm.Session.Output.{stop_outbound_writer}
use wterm.Session.Output.Pressure.{closes, stops, step}
use wterm.Session.Output.Stop.{balanced_empty, stop_outbound_writer_frame}
use wterm.Session.Lifecycle.{queue_close, is_attached_to}
use wterm.Session.Connection.{Move, works, move, CanRun, IsSound}
use wterm.Session.Connection.Sound.{move-IsSound}
use wterm.Session.Closing.{pass, wait_outbound_close, close_attached}

pub pass-stopped :
    (ws : ℕ) (moves : List Move) (s : Session)
    → is_attached_to ws s.out_writer_ws ≡ false
    → pass ws moves s ≡ s
unfolding pass
pass-stopped ws [] s h = refl
pass-stopped ws (m ∷ moves) s h = rw h

pass-IsSound :
    (ws : ℕ) (moves : List Move) (s : Session)
    → CanRun moves s
    → IsSound s
    → IsSound (pass ws moves s)
unfolding pass
pass-IsSound ws [] s p c = c
pass-IsSound ws (m ∷ moves) s (p, ps) c = elim (Bool-cases (is_attached_to ws s.out_writer_ws)) [
  | inl running ↦ rw running (pass-IsSound ws moves (move m s) ps (move-IsSound m s p c))
  | inr over ↦ rw over c
]

queue_close-IsSound :
    (code : ℕ) (reason : Text) (s : Session) → IsSound s → IsSound (queue_close code reason s)
unfolding move step
queue_close-IsSound code reason s c = move-IsSound (works (closes code reason)) s tt c

stop-IsSound : (ws : ℕ) (s : Session) → IsSound s → IsSound (stop_outbound_writer ws s)
unfolding move step
stop-IsSound ws s c = move-IsSound (works (stops ws)) s tt c

pub attached_owner :
    (ws : ℕ) (s : Session) → is_attached_to ws s.out_writer_ws ≡ true → s.out_writer_ws ≡ some ws
attached_owner ws s h = elim (Option-cases s.out_writer_ws) [
  | inl nobody ↦ absurd (let q = rw nobody at h in cc)
  | inr (owner, there) ↦ elim (==_cases owner ws) [
    | inl (same, e) ↦ there ∙ ap some e
    | inr other ↦ absurd (let q = rw (there, other) at h in cc)
  ]
]

-- `close_attached` for the socket of the writer, by what the moves of its wait lead to.
pub close_mine :
    (moves : List Move) (ws code : ℕ) (reason : Text) (s : Session)
    → s.out_writer_ws ≡ some ws
    → is_some s.out_queue ≡ true
    → let waited = pass ws moves (queue_close code reason s) in
      close_attached moves ws code reason s ≡ (
        if is_attached_to ws waited.out_writer_ws
        then (stop_outbound_writer ws waited, true)
        else (waited, false))
unfolding close_attached wait_outbound_close
close_mine moves ws code reason s owner running = elim (Option-cases s.out_queue) [
  | inl gone ↦ absurd (ground (arith, running, gone))
  | inr (queue, there) ↦ simp (owner, there, ==_refl ws, wait_outbound_close)
]

-- Nothing waits for a writer, and no socket has one.
pub record IsDrained (s : Session) : Type 0 where
  pub unowned : s.out_writer_ws ≡ none
  pub unqueued : s.out_queue ≡ none
  pub idle : s.in_flight ≡ none
  pub nothing : s.out_pending_bytes ≡ 0
  pub awake : s.pty_reader_paused ≡ false

-- The session is without the socket: it has no writer, or another socket has joined.
pub record IsWithout (ws : ℕ) (s : Session) : Type 0 where
  pub sound : IsSound s
  pub left :
      IsDrained s
      ⊎ ((other : ℕ) × (other ≢ ws) × (s.out_writer_ws ≡ some other) × (s.websocket ≡ some other))

sound-IsDrained : (s : Session) → IsSound s → s.out_writer_ws ≡ none → IsDrained s
sound-IsDrained s c nobody =
    let (gone, idle) = c.connected.ended nobody in
    let (nothing, awake) = balanced_empty s c.connected.balanced gone idle in
    record { unowned = nobody; unqueued = gone; idle = idle; nothing = nothing; awake = awake }

over-IsWithout :
    (ws : ℕ) (s : Session) → IsSound s → is_attached_to ws s.out_writer_ws ≡ false → IsWithout ws s
over-IsWithout ws s c over = elim (Option-cases s.out_writer_ws) [
  | inl nobody ↦ record { sound = c; left = inl (sound-IsDrained s c nobody) }
  | inr (owner, there) ↦ record {
    sound = c;
    left = inr (
      owner,
      (λ e.
          let mine : is_attached_to ws s.out_writer_ws ≡ true =
            ap (is_attached_to ws) (there ∙ ap some e) ∙ ==_refl ws in
          cc),
      there,
      c.connected.owned owner there,
    );
  }
]

stopped-IsWithout :
    (ws : ℕ) (s : Session)
    → IsSound s
    → s.out_writer_ws ≡ some ws
    → IsWithout ws (stop_outbound_writer ws s)
stopped-IsWithout ws s c owner =
    let sound = stop-IsSound ws s c in
    record {
      sound = sound;
      left = inl (
          sound-IsDrained (stop_outbound_writer ws s) sound
            (stop_outbound_writer_frame ws s owner).4);
    }

-- A close through the writer of a socket ends, whatever the browser does. From a sound connection, when
-- the wait of three seconds is over, whichever possible steps of the output side have fallen into it and
-- whichever sockets have joined or left: the session is without the socket. Either it has no writer,
-- nothing is queued, being sent or counted, and the reader of the PTY is not left asleep; or another
-- socket is attached and has the writer, and its connection is sound.
pub close_attached-IsWithout :
    (moves : List Move) (ws code : ℕ) (reason : Text) (s : Session)
    → s.out_writer_ws ≡ some ws
    → IsSound s
    → CanRun moves (queue_close code reason s)
    → IsWithout ws (close_attached moves ws code reason s).0
close_attached-IsWithout moves ws code reason s owner c p =
    let waited : Session = pass ws moves (queue_close code reason s) in
    let sound : IsSound waited =
      pass-IsSound ws moves (queue_close code reason s) p (queue_close-IsSound code reason s c) in
    let mine = close_mine moves ws code reason s owner (c.running ws owner) in
    elim (Bool-cases (is_attached_to ws waited.out_writer_ws)) [
      | inl late ↦
          rw (mine, late) (stopped-IsWithout ws waited sound (attached_owner ws waited late))
      | inr over ↦ rw (mine, over) (over-IsWithout ws waited sound over)
    ]
