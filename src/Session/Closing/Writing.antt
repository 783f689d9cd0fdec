-- ===== src/Session/Closing/Writing.antt =====
-- server/session.py: the steps of the loop keep the writer of a socket, or end it.
use wterm.Prelude.{
  ℕ, ◌≡◌, ◌⊎◌, refl, ap, ◌∙◌, sym, subst, Bool, true, not, Option, none, some, List, [], ◌∷◌, ◌++◌,
  is_some, ◌&&◌, ◌==◌, nat_key, arith, Option-cases, Bool-cases, inl, inr,
}
use wterm.Session.{Session, Outbound, bytes, text, close}
use wterm.Session.Output.{
  ReadResult, got, nothing_yet, read_error, on_pty_readable, enqueue_outbound, count_in,
  pause_pty_reader, resume_pty_reader, writer_take, writer_done, writer_end, settle, settle_current,
  ends_writer, stop_outbound_writer, keep_recent,
}
use wterm.Session.Output.Pressure.{Event, reads, tells, closes, takes, sends, stops, step}
use wterm.Session.Output.Stop.{ended, ended_frame}
use wterm.Session.Output.Stream.{settle-rest}

-- The writer is the one of the socket, or it has ended.
abbrev pub IsWriting : ℕ → Session → Type 0
IsWriting ws s =
    ((is_some s.out_queue ≡ true) × (s.out_writer_ws ≡ some ws))
    ⊎ ((s.out_queue ≡ none) × (s.out_writer_ws ≡ none) × (s.in_flight ≡ none))

unchanged : (ws : ℕ) (s after : Session) → after ≡ s → IsWriting ws s → IsWriting ws after
unchanged ws s after same w = subst (IsWriting ws) (sym same) w

count_in-owner : (item : Outbound) (s : Session) → (count_in item s).out_writer_ws ≡ s.out_writer_ws
unfolding pause_pty_reader
count_in-owner (bytes chunk) s = ground arith
count_in-owner (text t) s = refl
count_in-owner (close code reason) s = refl

settle-owner : (item : Outbound) (s : Session) → (settle item s).out_writer_ws ≡ s.out_writer_ws
unfolding resume_pty_reader
settle-owner (bytes chunk) s = ground arith
settle-owner (text t) s = refl
settle-owner (close code reason) s = refl

pub enqueue-IsWriting :
    (ws : ℕ) (item : Outbound) (s : Session)
    → IsWriting ws s
    → IsWriting ws (enqueue_outbound item s)
unfolding enqueue_outbound
enqueue-IsWriting ws item s w = elim (Option-cases s.out_queue) [
  | inl gone ↦ unchanged ws s (enqueue_outbound item s) (simp (gone, enqueue_outbound)) w
  | inr (queue, there) ↦ elim w [
    | inl (running, owner) ↦
        simp (there, enqueue_outbound) (inl (refl, count_in-owner item s ∙ owner))
    | inr (gone, absent, idle) ↦ absurd (ground (arith, gone, there))
  ]
]

take-IsWriting :
    (ws : ℕ) (current : Option Outbound) (queue : Option (List Outbound)) (s : Session)
    → s.in_flight ≡ current
    → s.out_queue ≡ queue
    → IsWriting ws s
    → IsWriting ws (writer_take s)
unfolding writer_take
take-IsWriting ws (some item) queue s e q w =
    unchanged ws s (writer_take s) (simp (e, writer_take)) w
take-IsWriting ws none none s e q w = unchanged ws s (writer_take s) (simp (e, q, writer_take)) w
take-IsWriting ws none (some []) s e q w =
    unchanged ws s (writer_take s) (simp (e, q, writer_take)) w
take-IsWriting ws none (some (item ∷ queue)) s e q w = elim w [
  | inl (running, owner) ↦ simp (e, q, writer_take) (inl (refl, owner))
  | inr (gone, absent, idle) ↦ absurd (ground (arith, gone, q))
]

settled-IsWriting :
    (ws : ℕ) (item : Outbound) (s : Session)
    → s.in_flight ≡ some item
    → IsWriting ws s
    → IsWriting ws (settle item s)
settled-IsWriting ws item s e w = elim w [
  | inl (running, owner) ↦
      inl (ap is_some (settle-rest item s).1 ∙ running, settle-owner item s ∙ owner)
  | inr (gone, absent, idle) ↦ absurd (ground (arith, e, idle))
]

ended-IsWriting :
    (ws : ℕ) (current : Option Outbound) (s : Session)
    → s.in_flight ≡ current
    → IsWriting ws (writer_end (settle_current current s))
ended-IsWriting ws current s e =
    let (gone, idle) = ended current s in inr (gone, (ended_frame current s).4, idle e)

done-IsWriting :
    (ws : ℕ) (sent : Bool) (current : Option Outbound) (s : Session)
    → s.in_flight ≡ current
    → IsWriting ws s
    → IsWriting ws (writer_done sent s)
unfolding writer_done
done-IsWriting ws sent none s e w = unchanged ws s (writer_done sent s) (simp (e, writer_done)) w
done-IsWriting ws sent (some item) s e w = elim (Bool-cases (sent && not (ends_writer item))) [
  | inl more ↦
      unchanged ws (settle item s) (writer_done sent s) (simp (e, more, writer_done))
        (settled-IsWriting ws item s e w)
  | inr last ↦
      unchanged ws (writer_end (settle item s)) (writer_done sent s) (simp (e, last, writer_done))
        (ended-IsWriting ws (some item) s e)
]

stop-IsWriting :
    (ws other : ℕ) (s : Session) → IsWriting ws s → IsWriting ws (stop_outbound_writer other s)
unfolding stop_outbound_writer
stop-IsWriting ws other s w = elim w [
  | inr (gone, absent, idle) ↦
      unchanged ws s (stop_outbound_writer other s) (simp (absent, stop_outbound_writer))
        (inr (gone, absent, idle))
  | inl (running, owner) ↦ elim (Bool-cases (ws == other)) [
    | inl mine ↦
        unchanged ws (writer_end (settle_current s.in_flight s)) (stop_outbound_writer other s)
          (simp (owner, mine, stop_outbound_writer)) (ended-IsWriting ws s.in_flight s refl)
    | inr theirs ↦
        unchanged ws s (stop_outbound_writer other s) (simp (owner, theirs, stop_outbound_writer))
          (inl (running, owner))
  ]
]

read-IsWriting :
    (ws now : ℕ) (r : ReadResult) (s : Session)
    → IsWriting ws s
    → IsWriting ws (on_pty_readable now r s)
unfolding on_pty_readable
read-IsWriting ws now nothing_yet s w = w
read-IsWriting ws now read_error s w = w
read-IsWriting ws now (got []) s w = w
read-IsWriting ws now (got (b ∷ chunk)) s w =
    let kept = record s { last_activity = now; buffer = keep_recent (s.buffer ++ b ∷ chunk) } in
    elim (Bool-cases (is_some s.websocket)) [
      | inl shown ↦ simp shown (enqueue-IsWriting ws (bytes (b ∷ chunk)) kept w)
      | inr hidden ↦ simp hidden w
    ]

pub step-IsWriting : (ws : ℕ) (e : Event) (s : Session) → IsWriting ws s → IsWriting ws (step e s)
unfolding step
step-IsWriting ws (reads now r) s w = read-IsWriting ws now r s w
step-IsWriting ws (tells message) s w = enqueue-IsWriting ws (text message) s w
step-IsWriting ws (closes code reason) s w = enqueue-IsWriting ws (close code reason) s w
step-IsWriting ws takes s w = take-IsWriting ws s.in_flight s.out_queue s refl refl w
step-IsWriting ws (sends sent) s w = done-IsWriting ws sent s.in_flight s refl w
step-IsWriting ws (stops other) s w = stop-IsWriting ws other s w

pub enqueue-running :
    (item : Outbound) (s : Session)
    → is_some s.out_queue ≡ true
    → is_some (enqueue_outbound item s).out_queue ≡ true
unfolding enqueue_outbound
enqueue-running item s running = elim (Option-cases s.out_queue) [
  | inl gone ↦ absurd (ground (arith, running, gone))
  | inr (queue, there) ↦ simp (there, enqueue_outbound)
]
