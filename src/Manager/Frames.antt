-- ===== src/Manager/Frames.antt =====
-- What the operations of a session leave of its name and of its life.
use wterm.Prelude.{
  ℕ, ◌≡◌, refl, ◌∙◌, Bool, false, not, ◌&&◌, Option, none, some, List, arith, Text, codes,
  Option-cases, Bool-cases, inl, inr, ◌==◌, nat_key,
}
use wterm.Prelude.Int.{ℤ}
use wterm.Session.{Session, Outbound, bytes, text, close}
use wterm.Session.Frame.{status_message}
use wterm.Session.Output.{
  enqueue_outbound, pause_pty_reader, resume_pty_reader, count_in, settle, settle_current,
  writer_end, stop_outbound_writer,
}
use wterm.Session.Lifecycle.{
  cleanup_fd, exit_message, handle_exit, terminate, cancel_grace, drop_old, replay, start_writer,
  farewell, notify, attach, detach, notify_and_terminate,
}

-- Neither dead nor on the way there.
abbrev pub is_live : Session → Bool
is_live s = s.alive && not s.terminating

abbrev pub IsSame : Session → Session → Type 0
IsSame t s = (t.spec ≡ s.spec) × (t.alive ≡ s.alive) × (t.terminating ≡ s.terminating)

count_in-IsSame : (item : Outbound) (s : Session) → IsSame (count_in item s) s
unfolding pause_pty_reader
count_in-IsSame (bytes chunk) s = ground arith
count_in-IsSame (text t) s = (refl, refl, refl)
count_in-IsSame (close code reason) s = (refl, refl, refl)

pub enqueue-IsSame : (item : Outbound) (s : Session) → IsSame (enqueue_outbound item s) s
unfolding enqueue_outbound
enqueue-IsSame item s = elim (Option-cases s.out_queue) [
  | inl gone ↦ simp (gone, enqueue_outbound) (refl, refl, refl)
  | inr (queue, there) ↦ simp (there, enqueue_outbound) (count_in-IsSame item s)
]

settle-IsSame : (item : Outbound) (s : Session) → IsSame (settle item s) s
unfolding resume_pty_reader
settle-IsSame (bytes chunk) s = ground arith
settle-IsSame (text t) s = (refl, refl, refl)
settle-IsSame (close code reason) s = (refl, refl, refl)

writer_end-IsSame : (s : Session) → IsSame (writer_end s) s
unfolding writer_end
writer_end-IsSame s = ground arith

ended-IsSame :
    (current : Option Outbound) (s : Session) → IsSame (writer_end (settle_current current s)) s
ended-IsSame none s = writer_end-IsSame s
ended-IsSame (some item) s =
    let (a, b, c) = writer_end-IsSame (settle item s) in
    let (a', b', c') = settle-IsSame item s in (a ∙ a', b ∙ b', c ∙ c')

stop-IsSame : (ws : ℕ) (s : Session) → IsSame (stop_outbound_writer ws s) s
unfolding stop_outbound_writer
stop-IsSame ws s = elim (Option-cases s.out_writer_ws) [
  | inl gone ↦ simp (gone, stop_outbound_writer) (refl, refl, refl)
  | inr (owner, there) ↦ elim (Bool-cases (owner == ws)) [
    | inr other ↦ simp (there, stop_outbound_writer, other) (refl, refl, refl)
    | inl mine ↦ simp (there, stop_outbound_writer, mine) (ended-IsSame s.in_flight s)
  ]
]

pub drop_old-IsSame : (old : Option ℕ) (s : Session) → IsSame (drop_old old s) s
drop_old-IsSame none s = (refl, refl, refl)
drop_old-IsSame (some ws) s = stop-IsSame ws (record s { websocket = none })

replay-IsSame : (s : Session) → IsSame (replay s) s
replay-IsSame s = ground (arith, enqueue-IsSame (bytes s.buffer) s)

pub attach-IsSame : (now ws : ℕ) (s : Session) → IsSame (attach now ws s).0 s
unfolding attach cancel_grace
attach-IsSame now ws s =
    let fresh : Session = record (cancel_grace s) { last_activity = now } in
    let (a, b, c) = drop_old-IsSame s.websocket fresh in
    let (a', b', c') = replay-IsSame (start_writer ws (drop_old s.websocket fresh)) in
    (a' ∙ a, b' ∙ b, c' ∙ c)

pub detach-IsSame : (ws : ℕ) (s : Session) → IsSame (detach ws s) s
unfolding detach
detach-IsSame ws s = elim (Option-cases s.websocket) [
  | inl nobody ↦ simp (nobody, detach) (refl, refl, refl)
  | inr (current, there) ↦ elim (Bool-cases (current == ws)) [
    | inr other ↦ simp (there, other, detach) (refl, refl, refl)
    | inl mine ↦
        let (a, b, c) = stop-IsSame ws (record s { websocket = none }) in
        (simp (there, mine, detach) a, simp (there, mine, detach) b, simp (there, mine, detach) c)
  ]
]

-- The session is dead, under its old name.
abbrev pub IsEnded : Session → Session → Type 0
IsEnded t s = (t.spec ≡ s.spec) × (t.alive ≡ false)

pub terminate-IsEnded : (polls : List Bool) (s : Session) → IsEnded (terminate polls s).0 s
unfolding terminate cleanup_fd
terminate-IsEnded polls s = ground arith

farewell-IsSame :
    (code : Option ℤ) (socket : Option ℕ) (s : Session) → IsSame (farewell code socket s) s
farewell-IsSame code none s = (refl, refl, refl)
farewell-IsSame code (some ws) s =
    let told = enqueue_outbound (text (exit_message code)) s in
    let (a, b, c) = enqueue-IsSame (close 1000 (codes "세션이 종료됨")) told in
    let (a', b', c') = enqueue-IsSame (text (exit_message code)) s in (a ∙ a', b ∙ b', c ∙ c')

cleanup_fd-IsSame : (s : Session) → IsSame (cleanup_fd s) s
unfolding cleanup_fd
cleanup_fd-IsSame s = ground arith

pub handle_exit-IsEnded : (code : Option ℤ) (s : Session) → IsEnded (handle_exit code s).0 s
unfolding handle_exit
handle_exit-IsEnded code s = elim (Bool-cases s.alive) [
  | inr dead ↦ (simp (dead, handle_exit), simp (dead, handle_exit))
  | inl living ↦
      let dying : Session = record s { alive = false; idle_task = false } in
      let (a, b, c) = cleanup_fd-IsSame dying in
      let (a', b', c') =
        farewell-IsSame code s.websocket (record (cleanup_fd dying) { websocket = none }) in
      (simp (living, handle_exit) (a' ∙ a), simp (living, handle_exit) (b' ∙ b))
]

notify-IsSame :
    (message : Text) (code : ℕ) (reason : Text) (socket : Option ℕ) (s : Session)
    → IsSame (notify message code reason socket s) s
notify-IsSame message code reason none s = (refl, refl, refl)
notify-IsSame message code reason (some ws) s =
    let (a, b, c) =
      enqueue-IsSame (close code reason) (enqueue_outbound (text (status_message message)) s) in
    let (a', b', c') = enqueue-IsSame (text (status_message message)) s in (a ∙ a', b ∙ b', c ∙ c')

pub notify_and_terminate-IsEnded :
    (message : Text) (code : ℕ) (reason : Text) (polls : List Bool) (s : Session)
    → IsEnded (notify_and_terminate message code reason polls s).0 s
unfolding notify_and_terminate
notify_and_terminate-IsEnded message code reason polls s =
    let told = notify message code reason s.websocket (record s { websocket = none }) in
    let (a, b) = terminate-IsEnded polls told in
    (a ∙ (notify-IsSame message code reason s.websocket (record s { websocket = none })).0, b)
