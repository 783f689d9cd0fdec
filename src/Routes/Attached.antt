-- ===== src/Routes/Attached.antt =====
-- server/main.py, `terminal_ws`: a session that is attached to the caller's socket and greeted.
use wterm.Prelude.{ℕ, ◌≡◌, refl, ◌∙◌, some, arith, Text, Option-cases, inl, inr, nat_key, list_key}
use wterm.OrderedDict.{get}
use wterm.Session.{Session, Outbound, bytes, text, close}
use wterm.Session.Frame.{status_message}
use wterm.Session.Output.{enqueue_outbound, count_in, pause_pty_reader}
use wterm.Session.Lifecycle.{attach, replay, start_writer, drop_old}
use wterm.Manager.{Manager, update, get_live}
use wterm.Manager.Frames.{IsSame, enqueue-IsSame, attach-IsSame}
use wterm.Manager.Kept.{get-update_self}
use wterm.Manager.Spared.{get_live-update, get_live-found}
use wterm.Routes.Terminal.{greeted}

pub greeted-IsSame :
    (now ws : ℕ) (message : Text) (s : Session) → IsSame (greeted now ws message s) s
greeted-IsSame now ws message s =
    let (a, b, c) = enqueue-IsSame (Outbound.text (status_message message)) (attach now ws s).0 in
    let (a', b', c') = attach-IsSame now ws s in (a ∙ a', b ∙ b', c ∙ c')

count_in-websocket : (item : Outbound) (s : Session) → (count_in item s).websocket ≡ s.websocket
unfolding pause_pty_reader
count_in-websocket (bytes chunk) s = ground arith
count_in-websocket (text t) s = refl
count_in-websocket (close code reason) s = refl

enqueue-websocket :
    (item : Outbound) (s : Session) → (enqueue_outbound item s).websocket ≡ s.websocket
unfolding enqueue_outbound
enqueue-websocket item s = elim (Option-cases s.out_queue) [
  | inl gone ↦ simp (gone, enqueue_outbound)
  | inr (queue, there) ↦ simp (there, enqueue_outbound) (count_in-websocket item s)
]

replay-websocket : (s : Session) → (replay s).websocket ≡ s.websocket
replay-websocket s = ground (arith, enqueue-websocket (bytes s.buffer) s)

greeted-websocket :
    (now ws : ℕ) (message : Text) (s : Session) → (greeted now ws message s).websocket ≡ some ws
unfolding attach
greeted-websocket now ws message s =
    enqueue-websocket (Outbound.text (status_message message)) (attach now ws s).0
    ∙ replay-websocket (start_writer ws (drop_old s.websocket _))

-- The session stands under its key, alive, and is attached to the socket.
abbrev pub IsAttached : ℕ → Text → ℕ → Manager → Type 0
IsAttached ws key id m =
    ((get_live key m).1 ≡ some id)
    × ((s : Session) × (get id m.store ≡ some s) × (s.websocket ≡ some ws))

pub greet-IsAttached :
    (now ws : ℕ) (message key : Text) (id : ℕ) (m : Manager)
    → (get_live key m).1 ≡ some id
    → IsAttached ws key id (update id (greeted now ws message) m)
greet-IsAttached now ws message key id m there =
    let (s, _, found, _) = get_live-found key m id there in
    (
      get_live-update key id (greeted now ws message) m (greeted-IsSame now ws message) ∙ there,
      (
        greeted now ws message s,
        get-update_self id (greeted now ws message) m s found,
        greeted-websocket now ws message s,
      ),
    )
