-- ===== src/Session/Lifecycle/Attachment.antt =====
-- Attaching and detaching a WebSocket: who is shown what, and which timer runs.
use wterm.Prelude.{
  ℕ, ◌≤◌, ◌≡◌, ◌≢◌, ◌⊎◌, refl, sym, ap, ◌∙◌, Bool, true, false, Option, none, some, [], ◌∷◌, arith,
  if◌then◌else◌, length, is_nil, is_some, Bool-cases, Option-cases, inl, inr, ◌==◌, nat_key,
  eqb_iff,
}
use wterm.Session.{Session, Bytes, bytes, buffer_limit}
use wterm.Session.Output.{enqueue_outbound, stop_outbound_writer}
use wterm.Session.Output.Balance.{IsBalanced, stop-IsBalanced}
use wterm.Session.Output.Stop.{
  stop_outbound_writer-drained, stop_outbound_writer_frame, stop_outbound_writer_keeps,
}
use wterm.Session.Output.Stream.{on_the_way, enqueue-on_the_way}
use wterm.Session.Lifecycle.{attach, detach, cancel_grace, drop_old, replay, start_writer}

-- What holds of a session's connection between two operations under its key.
pub record IsConnected (s : Session) : Type 0 where
  pub balanced : IsBalanced s
  -- a writer is the one of the attached socket; it may have ended before the socket leaves
  pub owned : (ws : ℕ) → s.out_writer_ws ≡ some ws → s.websocket ≡ some ws
  pub ended : s.out_writer_ws ≡ none → (s.out_queue ≡ none) × (s.in_flight ≡ none)
  pub shown : length s.buffer ≤ buffer_limit

-- The session without its old socket, to which `attach` gives the new one.
abbrev pub cleared : ℕ → Session → Session
cleared now s = drop_old s.websocket (record (cancel_grace s) { last_activity = now })

nil_of : (b : Bytes) → is_nil b ≡ true → b ≡ []
nil_of [] h = refl
nil_of (x ∷ b) h = absurd (cc)

-- The balance does not depend on these fields.
pub rebalanced :
    (s : Session) (grace : Bool) (now : ℕ) (socket : Option ℕ)
    → IsBalanced s
    → IsBalanced (record s { grace_task = grace; last_activity = now; websocket = socket })
rebalanced s grace now socket b = record {
  counted = b.counted;
  bounded = b.bounded;
  room = b.room;
  waiting = b.waiting;
  watched = b.watched;
  quiet = b.quiet;
}

cleared_ended :
    (now : ℕ) (old : Option ℕ) (s : Session)
    → s.websocket ≡ old
    → s.out_writer_ws ≡ none
    → drop_old old (record (cancel_grace s) { last_activity = now })
      ≡ record s { grace_task = false; last_activity = now; websocket = none }
unfolding cancel_grace stop_outbound_writer
cleared_ended now none s e gone = ground arith
cleared_ended now (some old) s e gone = simp (gone, stop_outbound_writer)

cleared-empty :
    (now : ℕ) (s : Session)
    → IsConnected s
    → ((cleared now s).out_queue ≡ none)
      × ((cleared now s).in_flight ≡ none)
      × IsBalanced (cleared now s)
      × ((cleared now s).buffer ≡ s.buffer)
      × ((cleared now s).grace_task ≡ false)
unfolding cancel_grace
cleared-empty now s c = elim (Option-cases s.out_writer_ws) [
  | inl gone ↦
      let same : cleared now s
          ≡ record s { grace_task = false; last_activity = now; websocket = none } =
        cleared_ended now s.websocket s refl gone in
      rw same ((c.ended gone).0, (c.ended gone).1, rebalanced s _ _ _ c.balanced, refl, refl)
  | inr (ws, owner) ↦
      let left : Session = record s { grace_task = false; last_activity = now; websocket = none } in
      let same : cleared now s ≡ stop_outbound_writer ws left =
        simp (c.owned ws owner, cancel_grace) in
      let balanced = rebalanced s false now none c.balanced in
      let (_, queue, idle, _, _) = stop_outbound_writer-drained ws left owner balanced in
      let (buffer, _, grace, _, _) = stop_outbound_writer_frame ws left owner in
      rw same (queue, idle, stop-IsBalanced ws left balanced, buffer, grace)
]

-- The session with its new writer, before the replay is queued.
abbrev started : ℕ → ℕ → Session → Session
started now ws s = start_writer ws (cleared now s)

enqueue_replay :
    (s : Session)
    → s.out_queue ≡ some []
    → s.in_flight ≡ none
    → s.out_pending_bytes ≡ 0
    → length s.buffer ≤ buffer_limit
    → IsBalanced s
    → let after = enqueue_outbound (bytes s.buffer) s in
      IsBalanced after
      × (after.websocket ≡ s.websocket)
      × (after.grace_task ≡ s.grace_task)
      × (after.out_writer_ws ≡ s.out_writer_ws)
      × (after.buffer ≡ s.buffer)
unfolding enqueue_outbound
enqueue_replay s queue idle nothing small b = ground arith

replay_lem :
    (s : Session)
    → s.out_queue ≡ some []
    → s.in_flight ≡ none
    → s.out_pending_bytes ≡ 0
    → length s.buffer ≤ buffer_limit
    → IsBalanced s
    → IsBalanced (replay s)
      × ((replay s).websocket ≡ s.websocket)
      × ((replay s).grace_task ≡ s.grace_task)
      × ((replay s).out_writer_ws ≡ s.out_writer_ws)
      × ((replay s).buffer ≡ s.buffer)
      × (on_the_way (replay s) ≡ s.buffer)
replay_lem s queue idle nothing small b = elim (Bool-cases (is_nil s.buffer)) [
  | inl empty ↦
      simp (empty) (b, refl, refl, refl, refl, simp (queue, idle) (sym (nil_of s.buffer empty)))
  | inr full ↦
      let (balanced, w, g, o, kept) = enqueue_replay s queue idle nothing small b in
      let way = enqueue-on_the_way (bytes s.buffer) s (ap is_some queue) in
      simp (full) (balanced, w, g, o, kept, way ∙ simp (queue, idle))
]

-- The facts about a new writer that both theorems use.
started_lem :
    (now ws : ℕ) (s : Session)
    → IsConnected s
    → let fresh = started now ws s in
      (fresh.in_flight ≡ none)
      × (fresh.out_pending_bytes ≡ 0)
      × (length fresh.buffer ≤ buffer_limit)
      × IsBalanced fresh
      × (fresh.buffer ≡ s.buffer)
      × (fresh.grace_task ≡ false)
started_lem now ws s c =
    let (queue, idle, b, kept, grace) = cleared-empty now s c in
    let nothing : (cleared now s).out_pending_bytes ≡ 0 = ground (arith, b.counted) in
    (
      idle,
      nothing,
      omega (arith, ap length kept, c.shown),
      record {
        counted = ground (arith, b.counted);
        bounded = b.bounded;
        room = b.room;
        waiting = b.waiting;
        watched = b.watched;
        quiet = b.quiet;
      },
      kept,
      grace,
    )

-- A client that attaches to a session with a sound connection is first sent the replay buffer, and
-- nothing of what was queued for the socket before it; that socket is closed; and the grace timer
-- is off.
pub attach-replay :
    (now ws : ℕ) (s : Session)
    → IsConnected s
    → let (after, closed) = attach now ws s in
      (on_the_way after ≡ s.buffer)
      × (after.websocket ≡ some ws)
      × (after.grace_task ≡ false)
      × (closed ≡ s.websocket)
unfolding attach
attach-replay now ws s c =
    let (idle, nothing, small, b, kept, grace) = started_lem now ws s c in
    let (_, w, g, _, _, way) = replay_lem (started now ws s) refl idle nothing small b in
    (way ∙ kept, w, g ∙ grace, refl)

-- Attaching keeps a sound connection sound: in particular the replay and what follows it stay
-- within the bound on pending output.
pub attach-IsConnected :
    (now ws : ℕ) (s : Session) → IsConnected s → IsConnected (attach now ws s).0
unfolding attach
attach-IsConnected now ws s c =
    let (idle, nothing, small, b, kept, grace) = started_lem now ws s c in
    let (balanced, w, _, o, buffer, _) = replay_lem (started now ws s) refl idle nothing small b in
    record {
      balanced = balanced;
      owned = λ other e. w ∙ sym o ∙ e;
      ended = λ gone. absurd (let q = sym o ∙ gone in cc);
      shown = omega (arith, ap length buffer, small);
    }

-- When the attached socket leaves, the session has no socket, and its grace timer runs if it is
-- alive. The end of any other socket, as of one that was replaced, does not touch the session.
pub detach_grace :
    (ws : ℕ) (s : Session)
    → ((s.websocket ≡ some ws)
        × ((detach ws s).websocket ≡ none)
        × ((detach ws s).grace_task ≡ (if s.alive then true else s.grace_task)))
      ⊎ ((s.websocket ≢ some ws) × (detach ws s ≡ s))
unfolding detach
detach_grace ws s = elim (Option-cases s.websocket) [
  | inl nobody ↦ inr ((λ e. absurd (cc)), simp (nobody, detach))
  | inr (current, there) ↦ elim (Bool-cases (current == ws)) [
    | inr other ↦
        inr ((λ e. absurd (ground (arith, eqb_iff current ws))), simp (there, other, detach))
    | inl same ↦
        let (_, w, g, a) = stop_outbound_writer_keeps ws (record s { websocket = none }) in
        inl (
          there ∙ ap some ((eqb_iff current ws).0 same),
          simp (there, same, detach) w,
          simp (there, same, detach, a, g),
        )
  ]
]
