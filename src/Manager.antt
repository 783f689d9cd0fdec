-- ===== src/Manager.antt =====
-- server/session.py, class `SessionManager`: at most one live session for each key.
-- Sessions are shared objects: the store holds them under numbers, and the map `sessions` refers to
-- them. Each operation holds its key's lock from end to end, so it is one step. The polls for the
-- end of a child are arguments, and so is what `pty.fork` gives.
pub mod Frames
pub mod Kept
pub mod Single
pub mod Shutdown
pub mod Live
pub mod Spared
pub mod Agreement
pub mod Refinement
mod Tests
use wterm.Prelude.{
  ℕ, suc, ◌+◌, ◌*◌, ◌/◌, Bool, true, false, not, ◌&&◌, ◌||◌, Option, none, some, List, [], ◌∷◌,
  ◌++◌, ltb, leb, map, if◌then◌else◌, Text, codes, is_some, ◌==◌, nat_key, list_key, decimal,
}
use wterm.Prelude.Int.{ℤ}
use wterm.OrderedDict.{OrderedDict, get, put, remove}
use wterm.Session.{Session, Spec, create}
use wterm.Session.Lifecycle.{
  spawn, cancel_grace, drop_old, terminate, notify_and_terminate, handle_exit, attach, detach,
}

pub record Manager : Type 0 where
  pub grace_seconds : ℕ
  pub idle_seconds : ℕ
  pub sessions : OrderedDict Text ℕ
  pub store : OrderedDict ℕ Session
  pub next : ℕ

-- SessionManager(grace_seconds, idle_seconds)
unfoldable pub init : ℕ → ℕ → Manager
init grace idle = record {
  grace_seconds = grace;
  idle_seconds = idle;
  sessions = [];
  store = [];
  next = 0;
}

-- A method call on a session object.
unfoldable pub update : ℕ → (Session → Session) → Manager → Manager
update id f m = elim (get id m.store) [
  | none ↦ m
  | some s ↦ record m { store = put id (f s) m.store }
]

abbrev pub judge : Text → ℕ → Option Session → Manager → Manager × Option ℕ
judge key id none m = (m, none)
judge key id (some s) m =
    if not s.alive
    then (record m { sessions = remove key m.sessions }, none)
    else if s.terminating
    then (m, none)
    else (m, some id)

-- `get_live`: a dead session is forgotten, and one that is being terminated is not live.
unfoldable pub get_live : Text → Manager → Manager × Option ℕ
get_live key m = elim (get key m.sessions) [
  | none ↦ (m, none)
  | some id ↦ judge key id (get id m.store) m
]

-- What `start_locked` does to the session that it replaces.
abbrev pub replaced : List Bool → Session → Session
replaced polls s = (terminate polls (drop_old s.websocket (cancel_grace s))).0

abbrev pub clear : List Bool → Text → Option ℕ → Manager → Manager
clear polls key none m = m
clear polls key (some id) m =
    let m' = update id (replaced polls) m in record m' { sessions = remove key m'.sessions }

abbrev pub fresh_session : ℕ → ℕ → Text → Spec → Manager → Session
fresh_session now fd key spec m = spawn now fd (
    create now (record spec {
      project_name = key;
      grace_seconds = m.grace_seconds;
      idle_seconds = m.idle_seconds;
    }))

abbrev pub register : ℕ → ℕ → Text → Spec → Manager → Manager × ℕ
register now fd key spec m = (
  record m {
    store = put m.next (fresh_session now fd key spec m) m.store;
    sessions = put key m.next m.sessions;
    next = suc m.next;
  },
  m.next,
)

-- `start_locked`: the live session of the key, if there is one, is ended first.
unfoldable pub start_locked : ℕ → ℕ → List Bool → Text → Spec → Manager → Manager × ℕ
unfolding get_live
start_locked now fd polls key spec m =
    let (m', existing) = get_live key m in register now fd key spec (clear polls key existing m')

-- `end_now` after `cancel_grace`
abbrev pub ended : List Bool → Session → Session
ended polls s =
    (notify_and_terminate (codes "사용자 요청으로 세션을 종료했습니다.") 4409 (codes "사용자가 종료함") polls
      (cancel_grace s)).0

abbrev pub end_existing : List Bool → Text → Option ℕ → Manager → Manager × Bool
end_existing polls key none m = (m, false)
end_existing polls key (some id) m =
    let m' = update id (ended polls) m in (record m' { sessions = remove key m'.sessions }, true)

-- `end`, and whether there was something to end.
unfoldable pub end : List Bool → Text → Manager → Manager × Bool
unfolding get_live
end polls key m = let (m', existing) = get_live key m in end_existing polls key existing m'

-- `self.sessions.get(key) is session`
abbrev pub is_registered : Text → ℕ → Manager → Bool
is_registered key id m = elim (get key m.sessions) [ none ↦ false | some other ↦ other == id ]

abbrev pub abandoned : Option Session → Bool
abandoned none = false
abandoned (some s) = not (is_some s.websocket) && s.alive

-- `_expire_grace`: a session that was replaced, is attached again or is dead is left alone.
unfoldable pub expire_grace : List Bool → Text → ℕ → Manager → Manager
expire_grace polls key id m =
    if is_registered key id m && abandoned (get id m.store)
    then (let m' = update id (λ s. (terminate polls s).0) m in
        record m' { sessions = remove key m'.sessions })
    else m

-- `_grace_countdown` when its sleep is over: the timer is gone, and the manager decides.
unfoldable pub grace_fires : List Bool → Text → ℕ → Manager → Manager
unfolding expire_grace
grace_fires polls key id m = expire_grace polls key id (update id cancel_grace m)

abbrev pub span_text : ℕ → Text
span_text seconds =
    if leb 60 seconds then decimal (seconds / 60) ++ codes "분" else decimal seconds ++ codes "초"

-- `Session._expire_idle`
abbrev pub idled : List Bool → Session → Session
idled polls s =
    (notify_and_terminate (span_text s.idle_seconds ++ codes " 동안 아무 움직임이 없어 세션을 종료했습니다.") 4408
      (codes "유휴 상태로 종료됨") polls s).0

abbrev pub is_alive? : Option Session → Bool
is_alive? none = false
is_alive? (some s) = s.alive

-- `_expire_idle`
unfoldable pub expire_idle : List Bool → Text → ℕ → Manager → Manager
expire_idle polls key id m =
    if is_registered key id m && is_alive? (get id m.store)
    then (let m' = update id (idled polls) m in record m' { sessions = remove key m'.sessions })
    else m

-- `_idle_countdown` when the session has been quiet for long enough: the timer is gone, and the manager
-- decides.
unfoldable pub idle_fires : List Bool → Text → ℕ → Manager → Manager
unfolding expire_idle
idle_fires polls key id m =
    expire_idle polls key id (update id (λ s. record s { idle_task = false }) m)

-- One session at a shutdown, with the polls for its child. The program ends all of them side by
-- side, and then stops the writers; no session depends on another one.
abbrev pub shut : List Bool → Session → Session
shut polls s = let after = (terminate polls (cancel_grace s)).0 in drop_old after.websocket after

unfoldable pub shut_each : (ℕ → List Bool) → OrderedDict Text ℕ → Manager → Manager
shut_each polls [] m = m
shut_each polls ((key, id) ∷ sessions) m = shut_each polls sessions (update id (shut (polls id)) m)

-- `shutdown`
unfoldable pub shutdown : (ℕ → List Bool) → Manager → Manager
unfolding shut_each
shutdown polls m = record (shut_each polls m.sessions m) { sessions = [] }

-- What happens to a key's sessions.
pub data Op : Type 0 where
  starts : ℕ → ℕ → List Bool → Text → Spec → Op
  ends : List Bool → Text → Op
  looks : Text → Op
  grace_over : List Bool → Text → ℕ → Op
  idle_over : List Bool → Text → ℕ → Op
  exits : ℕ → Option ℤ → Op
  attaches : ℕ → ℕ → ℕ → Op
  detaches : ℕ → ℕ → Op
  shuts : (ℕ → List Bool) → Op

unfoldable pub step : Op → Manager → Manager
step (starts now fd polls key spec) m = (start_locked now fd polls key spec m).0
step (ends polls key) m = (end polls key m).0
step (looks key) m = (get_live key m).0
step (grace_over polls key id) m = grace_fires polls key id m
step (idle_over polls key id) m = idle_fires polls key id m
step (exits id code) m = update id (λ s. (handle_exit code s).0) m
step (attaches now ws id) m = update id (λ s. (attach now ws s).0) m
step (detaches ws id) m = update id (detach ws) m
step (shuts polls) m = shutdown polls m

unfoldable pub run : List Op → Manager → Manager
run [] m = m
run (op ∷ ops) m = run ops (step op m)
