-- ===== src/Session/Connection/Sound.antt =====
-- server/session.py: each way for a socket to come and go, and each step, keeps a connection sound.
use wterm.Prelude.{
  ℕ, suc, ◌≡◌, refl, sym, ap, subst, ◌∙◌, Bool, true, false, Option, none, some, is_some, is_nil,
  if◌then◌else◌, length, ◌==◌, nat_key, eqb_iff, arith, Option-cases, Bool-cases, inl, inr,
}
use wterm.Session.{Session, bytes}
use wterm.Session.Output.{stop_outbound_writer}
use wterm.Session.Output.Pressure.{Event, stops, step, IsPossible, step-IsBalanced}
use wterm.Session.Output.Stop.{stop_outbound_writer-drained, stop_outbound_writer_frame}
use wterm.Session.Lifecycle.{
  attach, detach, abandon_attach, is_attached_to, cancel_grace, drop_old, start_writer,
}
use wterm.Session.Lifecycle.Attachment.{rebalanced, attach-IsConnected}
use wterm.Session.Closing.Writing.{IsWriting, step-IsWriting, enqueue-running}
use wterm.Session.Connection.{Move, joins, leaves, abandons, works, move, CanMove, IsSound}
use wterm.Session.Connection.Frames.{step-frame}

some-same : (a b : ℕ) → some a ≡ some b → a ≡ b
some-same a b h = cc

owner-IsWriting : (ws : ℕ) (s : Session) → IsSound s → s.out_writer_ws ≡ some ws → IsWriting ws s
owner-IsWriting ws s c owner = inl (c.running ws owner, owner)

-- A writer that runs after a step has run before it, for the same socket.
owner_kept :
    (e : Event) (s : Session) (ws : ℕ)
    → IsSound s
    → (step e s).out_writer_ws ≡ some ws
    → (s.out_writer_ws ≡ some ws) × (is_some (step e s).out_queue ≡ true)
owner_kept e s ws c after = elim (Option-cases s.out_writer_ws) [
  | inl nobody ↦
      let (gone, idle) = c.connected.ended nobody in
      elim (step-IsWriting (suc ws) e s (inr (gone, nobody, idle))) [
        | inl (running, other) ↦
            absurd (let same = some-same ws (suc ws) (sym after ∙ other) in omega (arith, same))
        | inr (_, none_after, _) ↦ absurd (let q = sym after ∙ none_after in cc)
      ]
  | inr (owner, there) ↦ elim (step-IsWriting owner e s (owner-IsWriting owner s c there)) [
    | inl (running, kept) ↦ (there ∙ sym kept ∙ after, running)
    | inr (_, none_after, _) ↦ absurd (let q = sym after ∙ none_after in cc)
  ]
]

ended_kept :
    (e : Event) (s : Session)
    → IsSound s
    → (step e s).out_writer_ws ≡ none
    → ((step e s).out_queue ≡ none) × ((step e s).in_flight ≡ none)
ended_kept e s c after = elim (Option-cases s.out_writer_ws) [
  | inl nobody ↦
      let (gone, idle) = c.connected.ended nobody in
      elim (step-IsWriting 0 e s (inr (gone, nobody, idle))) [
        | inl (_, other) ↦ absurd (let q = sym after ∙ other in cc)
        | inr (gone', _, idle') ↦ (gone', idle')
      ]
  | inr (owner, there) ↦ elim (step-IsWriting owner e s (owner-IsWriting owner s c there)) [
    | inl (_, kept) ↦ absurd (let q = sym after ∙ kept in cc)
    | inr (gone', _, idle') ↦ (gone', idle')
  ]
]

step-IsSound : (e : Event) (s : Session) → IsPossible e s → IsSound s → IsSound (step e s)
step-IsSound e s p c =
    let (shown, socket) = step-frame e s c.connected.shown in
    record {
      connected = record {
        balanced = step-IsBalanced e s p c.connected.balanced;
        owned = λ ws after. socket ∙ c.connected.owned ws (owner_kept e s ws c after).0;
        ended = λ after. ended_kept e s c after;
        shown = shown;
      };
      running = λ ws after. (owner_kept e s ws c after).1;
    }

regrace :
    (s : Session) (grace : Bool) (socket : Option ℕ)
    → IsSound s
    → s.out_writer_ws ≡ none
    → IsSound (record s { grace_task = grace; websocket = socket })
regrace s grace socket c nobody = record {
  connected = record {
    balanced = rebalanced s grace s.last_activity socket c.connected.balanced;
    owned = λ ws after. absurd (let q = sym nobody ∙ after in cc);
    ended = λ after. c.connected.ended nobody;
    shown = c.connected.shown;
  };
  running = λ ws after. absurd (let q = sym nobody ∙ after in cc);
}

-- The session without its socket.
left-IsSound :
    (ws : ℕ) (s : Session)
    → IsSound s
    → s.websocket ≡ some ws
    → let left = stop_outbound_writer ws (record s { websocket = none }) in
      IsSound left × (left.out_writer_ws ≡ none)
unfolding stop_outbound_writer
left-IsSound ws s c here = elim (Option-cases s.out_writer_ws) [
  | inl nobody ↦
      let alone : Session = record s { websocket = none } in
      let same : stop_outbound_writer ws alone ≡ alone = simp (nobody, stop_outbound_writer) in
      subst (λ left. IsSound left × (left.out_writer_ws ≡ none)) (sym same)
        (regrace s s.grace_task none c nobody, nobody)
  | inr (owner, there) ↦
      let alone : Session = record s { websocket = none } in
      let mine : owner ≡ ws = some-same owner ws (sym (c.connected.owned owner there) ∙ here) in
      let own : alone.out_writer_ws ≡ some ws = there ∙ ap some mine in
      let b = rebalanced s s.grace_task s.last_activity none c.connected.balanced in
      let (_, gone, idle, _, balanced) = stop_outbound_writer-drained ws alone own b in
      let (buffer, _, _, _, nobody) = stop_outbound_writer_frame ws alone own in
      (
        record {
          connected = record {
            balanced = balanced;
            owned = λ other after. absurd (let q = sym nobody ∙ after in cc);
            ended = λ after. (gone, idle);
            shown = omega (arith, ap length buffer, c.connected.shown);
          };
          running = λ other after. absurd (let q = sym nobody ∙ after in cc);
        },
        nobody,
      )
]

detach-IsSound : (ws : ℕ) (s : Session) → IsSound s → IsSound (detach ws s)
unfolding detach
detach-IsSound ws s c = elim (Option-cases s.websocket) [
  | inl nobody ↦ subst IsSound (sym (simp (nobody, detach))) c
  | inr (current, there) ↦ elim (Bool-cases (current == ws)) [
    | inr other ↦ subst IsSound (sym (simp (there, other, detach))) c
    | inl same ↦
        let left : Session = stop_outbound_writer ws (record s { websocket = none }) in
        let (sound, nobody) = left-IsSound ws s c (there ∙ ap some ((eqb_iff current ws).0 same)) in
        let after =
          regrace left (if left.alive then true else left.grace_task) left.websocket sound nobody in
        let found : is_attached_to ws s.websocket ≡ true = simp (there, same) in rw found after
  ]
]

abandon_attach-IsSound : (ws : ℕ) (s : Session) → IsSound s → IsSound (abandon_attach ws s)
unfolding abandon_attach step
abandon_attach-IsSound ws s c = elim (Option-cases s.websocket) [
  | inl nobody ↦
      let found : is_attached_to ws s.websocket ≡ false = simp nobody in
      rw found (step-IsSound (stops ws) s tt c)
  | inr (current, there) ↦ elim (Bool-cases (current == ws)) [
    | inr other ↦
        let found : is_attached_to ws s.websocket ≡ false = simp (there, other) in
        rw found (step-IsSound (stops ws) s tt c)
    | inl same ↦
        let found : is_attached_to ws s.websocket ≡ true = simp (there, same) in
        rw found (left-IsSound ws s c (there ∙ ap some ((eqb_iff current ws).0 same))).0
  ]
]

attach-running : (now ws : ℕ) (s : Session) → is_some (attach now ws s).0.out_queue ≡ true
unfolding attach
attach-running now ws s =
    let fresh = record (cancel_grace s) { last_activity = now } in
    let opened = start_writer ws (drop_old s.websocket fresh) in
    elim (Bool-cases (is_nil opened.buffer)) [
      | inl empty ↦ rw empty
      | inr full ↦ rw full (enqueue-running (bytes opened.buffer) opened refl)
    ]

attach-IsSound : (now ws : ℕ) (s : Session) → IsSound s → IsSound (attach now ws s).0
attach-IsSound now ws s c = record {
  connected = attach-IsConnected now ws s c.connected;
  running = λ other after. attach-running now ws s;
}

pub move-IsSound : (m : Move) (s : Session) → CanMove m s → IsSound s → IsSound (move m s)
unfolding move
move-IsSound (joins now ws) s p c = attach-IsSound now ws s c
move-IsSound (leaves ws) s p c = detach-IsSound ws s c
move-IsSound (abandons ws) s p c = abandon_attach-IsSound ws s c
move-IsSound (works e) s p c = step-IsSound e s p c
