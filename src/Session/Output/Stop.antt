-- ===== src/Session/Output/Stop.antt =====
-- server/session.py: what `_stop_outbound_writer` leaves of the output side.
use wterm.Prelude.{
  ℕ, ◌≡◌, refl, ap, ◌∙◌, false, Option, arith, some, none, Option-cases, Bool-cases, inl, inr, ◌==◌,
  ==_refl, nat_key,
}
use wterm.Session.{Session, Outbound, bytes, text, close}
use wterm.Session.Output.{
  resume_pty_reader, weight?, queued, writer_end, settle, resume_if_low, stop_outbound_writer,
  settle_current,
}
use wterm.Session.Output.Balance.{IsBalanced, end_last, settle-in_flight, current-IsBalanced}

resume-out_queue : (s : Session) → (resume_if_low s).out_queue ≡ s.out_queue
unfolding resume_pty_reader
resume-out_queue s = ground arith

pub stop_mine :
    (ws : ℕ) (s : Session)
    → s.out_writer_ws ≡ some ws
    → stop_outbound_writer ws s ≡ writer_end (settle_current s.in_flight s)
unfolding stop_outbound_writer
stop_mine ws s owner = simp (owner, stop_outbound_writer, ==_refl ws)

pub balanced_empty :
    (s : Session)
    → IsBalanced s
    → s.out_queue ≡ none
    → s.in_flight ≡ none
    → (s.out_pending_bytes ≡ 0) × (s.pty_reader_paused ≡ false)
balanced_empty s i gone idle =
    let nothing : s.out_pending_bytes ≡ 0 =
      omega (arith, i.counted, ap weight? idle, ap queued gone) in
    elim (Bool-cases s.pty_reader_paused) [
      | inl paused ↦ absurd (omega (arith, i.waiting paused, nothing))
      | inr running ↦ (nothing, running)
    ]

end-empty :
    (s : Session)
    → s.in_flight ≡ none
    → ((writer_end s).out_queue ≡ none) × ((writer_end s).in_flight ≡ none)
unfolding writer_end
end-empty s idle = ground arith

pub ended :
    (current : Option Outbound) (s : Session)
    → ((writer_end (settle_current current s)).out_queue ≡ none)
      × (s.in_flight ≡ current → (writer_end (settle_current current s)).in_flight ≡ none)
ended none s = (rw (end_last s) (resume-out_queue _), λ idle. (end-empty s idle).1)
ended (some item) s =
    let idle = settle-in_flight item s in
    ((end-empty (settle item s) idle).0, λ _. (end-empty (settle item s) idle).1)

end_frame :
    (s : Session)
    → ((writer_end s).buffer ≡ s.buffer)
      × ((writer_end s).websocket ≡ s.websocket)
      × ((writer_end s).grace_task ≡ s.grace_task)
      × ((writer_end s).alive ≡ s.alive)
      × ((writer_end s).out_writer_ws ≡ none)
unfolding writer_end
end_frame s = ground arith

pub settle_frame :
    (item : Outbound) (s : Session)
    → ((settle item s).buffer ≡ s.buffer)
      × ((settle item s).websocket ≡ s.websocket)
      × ((settle item s).grace_task ≡ s.grace_task)
      × ((settle item s).alive ≡ s.alive)
unfolding resume_pty_reader
settle_frame (bytes chunk) s = ground arith
settle_frame (text t) s = (refl, refl, refl, refl)
settle_frame (close code reason) s = (refl, refl, refl, refl)

pub ended_frame :
    (current : Option Outbound) (s : Session)
    → let after = writer_end (settle_current current s) in
      (after.buffer ≡ s.buffer)
      × (after.websocket ≡ s.websocket)
      × (after.grace_task ≡ s.grace_task)
      × (after.alive ≡ s.alive)
      × (after.out_writer_ws ≡ none)
ended_frame none s = end_frame s
ended_frame (some item) s =
    let (b, w, g, a, o) = end_frame (settle item s) in
    let (b', w', g', a') = settle_frame item s in (b ∙ b', w ∙ w', g ∙ g', a ∙ a', o)

-- Stopping the writer touches the writer and the reader alone.
pub stop_outbound_writer_frame :
    (ws : ℕ) (s : Session)
    → s.out_writer_ws ≡ some ws
    → let after = stop_outbound_writer ws s in
      (after.buffer ≡ s.buffer)
      × (after.websocket ≡ s.websocket)
      × (after.grace_task ≡ s.grace_task)
      × (after.alive ≡ s.alive)
      × (after.out_writer_ws ≡ none)
stop_outbound_writer_frame ws s owner = rw (stop_mine ws s owner) (ended_frame s.in_flight s)

pub stop_outbound_writer_keeps :
    (ws : ℕ) (s : Session)
    → let after = stop_outbound_writer ws s in
      (after.buffer ≡ s.buffer)
      × (after.websocket ≡ s.websocket)
      × (after.grace_task ≡ s.grace_task)
      × (after.alive ≡ s.alive)
unfolding stop_outbound_writer
stop_outbound_writer_keeps ws s = elim (Option-cases s.out_writer_ws) [
  | inl gone ↦ simp (gone, stop_outbound_writer) (refl, refl, refl, refl)
  | inr (owner, there) ↦ elim (Bool-cases (owner == ws)) [
    | inr other ↦ simp (there, stop_outbound_writer, other) (refl, refl, refl, refl)
    | inl mine ↦
        let (b, w, g, a, _) = ended_frame s.in_flight s in
        simp (there, stop_outbound_writer, mine) (b, w, g, a)
  ]
]

-- When the writer of a socket is stopped in a balanced session, whatever it was doing, nothing
-- stays pending and the reader is not left asleep. The balance holds on, so the PTY of a live
-- session is watched again.
pub stop_outbound_writer-drained :
    (ws : ℕ) (s : Session)
    → s.out_writer_ws ≡ some ws
    → IsBalanced s
    → let after = stop_outbound_writer ws s in
      (after.out_pending_bytes ≡ 0)
      × (after.out_queue ≡ none)
      × (after.in_flight ≡ none)
      × (after.pty_reader_paused ≡ false)
      × IsBalanced after
stop_outbound_writer-drained ws s owner i =
    let current = s.in_flight in
    let gone = (ended s.in_flight s).0 in
    let idle = (ended s.in_flight s).1 refl in
    let balanced = current-IsBalanced s.in_flight s refl i in
    let (nothing, running) = balanced_empty _ balanced gone idle in
    rw (stop_mine ws s owner) (nothing, gone, idle, running, balanced)
