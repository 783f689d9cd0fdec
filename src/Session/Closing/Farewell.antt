-- ===== src/Session/Closing/Farewell.antt =====
-- server/session.py: who closes the socket in a close through its writer.
use wterm.Prelude.{
  map, ==_refl, ℕ, ◌≡◌, refl, ap, ◌∙◌, sym, Bool, true, false, not, Option, none, some, List, [],
  ◌∷◌, ◌++◌, is_some, Text, ◌||◌, All, nat_key, arith, Bool-cases, inl, inr,
}
use wterm.Session.{Session, Outbound, bytes, text, close}
use wterm.Session.Output.{
  ReadResult, got, nothing_yet, read_error, on_pty_readable, writer_take, writer_done, ends_writer,
  keep_recent,
}
use wterm.Session.Output.Pressure.{Event, reads, tells, closes, takes, sends, stops, step}
use wterm.Session.Output.Stop.{ended}
use wterm.Session.Output.Stream.{IsSmooth, settle-rest}
use wterm.Session.Lifecycle.{queue_close, is_attached_to}
use wterm.Session.Connection.{works, move}
use wterm.Session.Closing.{pass, close_attached}
use wterm.Session.Closing.Writing.{IsWriting, step-IsWriting, enqueue-IsWriting, enqueue-running}
use wterm.Session.Closing.Drained.{pass-stopped, close_mine}

abbrev ends_current : Option Outbound → Bool
ends_current none = false
ends_current (some item) = ends_writer item

-- Whether a step hands a close to the client, and whether one of several does.
abbrev pub is_farewell : Event → Session → Bool
is_farewell (sends true) s = ends_current s.in_flight
is_farewell other s = false

abbrev pub any_farewell : List Event → Session → Bool
any_farewell [] s = false
any_farewell (e ∷ events) s = is_farewell e s || any_farewell events (step e s)

take-running :
    (current : Option Outbound) (queue : Option (List Outbound)) (s : Session)
    → s.in_flight ≡ current
    → s.out_queue ≡ queue
    → is_some s.out_queue ≡ true
    → is_some (writer_take s).out_queue ≡ true
unfolding writer_take
take-running (some item) queue s e q running = simp (e, writer_take) running
take-running none none s e q running = absurd (ground (arith, running, q))
take-running none (some []) s e q running = simp (e, q, writer_take)
take-running none (some (item ∷ queue)) s e q running = simp (e, q, writer_take)

done-running :
    (current : Option Outbound) (s : Session)
    → s.in_flight ≡ current
    → is_some s.out_queue ≡ true
    → is_some (writer_done true s).out_queue ≡ not (ends_current current)
unfolding writer_done
done-running none s e running = simp (e, writer_done) running
done-running (some item) s e running = elim (Bool-cases (ends_writer item)) [
  | inl last ↦ simp (e, last, writer_done) (ap is_some (ended (some item) s).0)
  | inr more ↦ simp (e, more, writer_done) (ap is_some (settle-rest item s).1 ∙ running)
]

read-running :
    (now : ℕ) (r : ReadResult) (s : Session)
    → is_some s.out_queue ≡ true
    → is_some (on_pty_readable now r s).out_queue ≡ true
unfolding on_pty_readable
read-running now nothing_yet s running = running
read-running now read_error s running = running
read-running now (got []) s running = running
read-running now (got (b ∷ chunk)) s running =
    let kept = record s { last_activity = now; buffer = keep_recent (s.buffer ++ b ∷ chunk) } in
    elim (Bool-cases (is_some s.websocket)) [
      | inl shown ↦ simp shown (enqueue-running (bytes (b ∷ chunk)) kept running)
      | inr hidden ↦ simp hidden running
    ]

step-running :
    (e : Event) (s : Session)
    → IsSmooth e
    → is_some s.out_queue ≡ true
    → is_some (step e s).out_queue ≡ not (is_farewell e s)
unfolding step
step-running (reads now r) s h running = read-running now r s running
step-running (tells message) s h running = enqueue-running (text message) s running
step-running (closes code reason) s h running = enqueue-running (close code reason) s running
step-running takes s h running = take-running s.in_flight s.out_queue s refl refl running
step-running (sends true) s h running = done-running s.in_flight s refl running
step-running (sends false) s h running = absurd h
step-running (stops ws) s h running = absurd h

writing-attached :
    (ws : ℕ) (s : Session)
    → IsWriting ws s
    → is_attached_to ws s.out_writer_ws ≡ is_some s.out_queue
writing-attached ws s (inl (running, owner)) = rw owner (==_refl ws ∙ sym running)
writing-attached ws s (inr (gone, nobody, idle)) = rw (nobody, gone)

pass-farewell :
    (ws : ℕ) (events : List Event) (s : Session)
    → All IsSmooth events
    → IsWriting ws s
    → is_some s.out_queue ≡ true
    → is_attached_to ws (pass ws (map works events) s).out_writer_ws ≡ not (any_farewell events s)
unfolding pass move
pass-farewell ws [] s h w running = writing-attached ws s w ∙ running
pass-farewell ws (e ∷ events) s (h, hs) w running =
    let here = writing-attached ws s w ∙ running in
    let w' = step-IsWriting ws e s w in
    let after = step-running e s h running in
    elim (Bool-cases (is_farewell e s)) [
      | inl last ↦
          let stopped = writing-attached ws (step e s) w' ∙ after ∙ ap not last in
          rw (here, last, pass-stopped ws (map works events) (step e s) stopped) stopped
      | inr more ↦ rw (here, more) (pass-farewell ws events (step e s) hs w' (after ∙ ap not more))
    ]

-- A client that takes what it is sent is closed once. If its writer runs, every send in the wait succeeds,
-- nobody stops the writer and no other socket joins, then either the writer hands over a close, or the
-- time is up first and the socket is closed past the writer, and never both.
pub close_attached-farewell :
    (events : List Event) (ws code : ℕ) (reason : Text) (s : Session)
    → s.out_writer_ws ≡ some ws
    → is_some s.out_queue ≡ true
    → All IsSmooth events
    → (close_attached (map works events) ws code reason s).1
      ≡ not (any_farewell events (queue_close code reason s))
close_attached-farewell events ws code reason s owner running smooth =
    let moves = map works events in
    let waited : Session = pass ws moves (queue_close code reason s) in
    let told =
      pass-farewell ws events (queue_close code reason s) smooth
        (enqueue-IsWriting ws (close code reason) s (inl (running, owner)))
        (enqueue-running (close code reason) s running) in
    elim (Bool-cases (is_attached_to ws waited.out_writer_ws)) [
      | inl late ↦ rw (close_mine moves ws code reason s owner running, late) (sym late ∙ told)
      | inr over ↦ rw (close_mine moves ws code reason s owner running, over) (sym over ∙ told)
    ]
