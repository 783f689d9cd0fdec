-- ===== src/Session/Connection/Frames.antt =====
-- server/session.py: what a step of the output side leaves as it is.
use wterm.Prelude.{
  ℕ, ◌≡◌, ◌≤◌, ◌-◌, refl, ap, Bool, not, ◌&&◌, Option, none, some, List, [], ◌∷◌, ◌++◌, is_some,
  length, nat_key, arith, Option-cases, Bool-cases, inl, inr, ltb, length-drop, tests,
}
use wterm.Session.{Session, Outbound, bytes, text, close, buffer_limit}
use wterm.Session.Output.{
  got, nothing_yet, read_error, on_pty_readable, enqueue_outbound, count_in, pause_pty_reader,
  writer_take, writer_done, ends_writer, keep_recent,
}
use wterm.Session.Output.Pressure.{Event, reads, tells, closes, takes, sends, stops, step}
use wterm.Session.Output.Stop.{settle_frame, ended_frame, stop_outbound_writer_keeps}

count_in-frame :
    (item : Outbound) (s : Session)
    → ((count_in item s).buffer ≡ s.buffer) × ((count_in item s).websocket ≡ s.websocket)
unfolding pause_pty_reader
count_in-frame (bytes chunk) s = ground arith
count_in-frame (text t) s = (refl, refl)
count_in-frame (close code reason) s = (refl, refl)

enqueue-frame :
    (item : Outbound) (s : Session)
    → ((enqueue_outbound item s).buffer ≡ s.buffer)
      × ((enqueue_outbound item s).websocket ≡ s.websocket)
unfolding enqueue_outbound
enqueue-frame item s = elim (Option-cases s.out_queue) [
  | inl gone ↦ simp (gone, enqueue_outbound) (refl, refl)
  | inr (queue, there) ↦ simp (there, enqueue_outbound) (count_in-frame item s)
]

take-frame :
    (current : Option Outbound) (queue : Option (List Outbound)) (s : Session)
    → s.in_flight ≡ current
    → s.out_queue ≡ queue
    → ((writer_take s).buffer ≡ s.buffer) × ((writer_take s).websocket ≡ s.websocket)
unfolding writer_take
take-frame (some item) queue s e q = simp (e, writer_take) (refl, refl)
take-frame none none s e q = simp (e, q, writer_take) (refl, refl)
take-frame none (some []) s e q = simp (e, q, writer_take) (refl, refl)
take-frame none (some (item ∷ queue)) s e q = simp (e, q, writer_take) (refl, refl)

done-frame :
    (sent : Bool) (current : Option Outbound) (s : Session)
    → s.in_flight ≡ current
    → ((writer_done sent s).buffer ≡ s.buffer) × ((writer_done sent s).websocket ≡ s.websocket)
unfolding writer_done
done-frame sent none s e = simp (e, writer_done) (refl, refl)
done-frame sent (some item) s e = elim (Bool-cases (sent && not (ends_writer item))) [
  | inl more ↦ let (b, w, _, _) = settle_frame item s in simp (e, more, writer_done) (b, w)
  | inr last ↦ let (b, w, _, _, _) = ended_frame (some item) s in simp (e, last, writer_done) (b, w)
]

length-keep_recent-le : (b : List ℕ) → length (keep_recent b) ≤ buffer_limit
unfolding keep_recent
length-keep_recent-le b = elim (Bool-cases (ltb buffer_limit (length b))) [
  | inl long ↦ rw long (omega (arith, length-drop (length b - buffer_limit) b))
  | inr short ↦ rw short (omega tests)
]

-- What a step does to the attached socket, and to the length of the replay buffer.
pub step-frame :
    (e : Event) (s : Session)
    → length s.buffer ≤ buffer_limit
    → (length (step e s).buffer ≤ buffer_limit) × ((step e s).websocket ≡ s.websocket)
unfolding step on_pty_readable
step-frame (reads now nothing_yet) s small = (small, refl)
step-frame (reads now read_error) s small = (small, refl)
step-frame (reads now (got [])) s small = (small, refl)
step-frame (reads now (got (b ∷ chunk))) s small =
    let kept = record s { last_activity = now; buffer = keep_recent (s.buffer ++ b ∷ chunk) } in
    let fits = length-keep_recent-le (s.buffer ++ b ∷ chunk) in
    elim (Bool-cases (is_some s.websocket)) [
      | inl shown ↦
          let (buffer, socket) = enqueue-frame (bytes (b ∷ chunk)) kept in
          simp shown (omega (arith, ap length buffer, fits), socket)
      | inr hidden ↦ simp hidden (fits, refl)
    ]
step-frame (tells message) s small =
    let (buffer, socket) = enqueue-frame (text message) s in
    (omega (arith, ap length buffer, small), socket)
step-frame (closes code reason) s small =
    let (buffer, socket) = enqueue-frame (close code reason) s in
    (omega (arith, ap length buffer, small), socket)
step-frame takes s small =
    let (buffer, socket) = take-frame s.in_flight s.out_queue s refl refl in
    (omega (arith, ap length buffer, small), socket)
step-frame (sends sent) s small =
    let (buffer, socket) = done-frame sent s.in_flight s refl in
    (omega (arith, ap length buffer, small), socket)
step-frame (stops ws) s small =
    let (buffer, socket, _, _) = stop_outbound_writer_keeps ws s in
    (omega (arith, ap length buffer, small), socket)
