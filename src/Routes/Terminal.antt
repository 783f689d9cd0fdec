-- ===== src/Routes/Terminal.antt =====
-- server/main.py: `terminal_ws` up to its message loop. The lock of the session's key is held from
-- the look-up to the start, which is one step. What the look-ups of old sessions answer, the fork
-- and the polls for a replaced child are arguments.
use wterm.Prelude.{
  ℕ, Bool, true, false, not, ◌&&◌, Option, none, some, List, [], ◌∷◌, if◌then◌else◌, Text, codes,
  is_some, ◌==◌, nat_key, list_key,
}
use wterm.Audit.{Fields, text, audit}
use wterm.Auth.{register_socket}
use wterm.Auth.Login.{shown}
use wterm.Config.{Project, args_for, find_project}
use wterm.Manager.{Manager, update, get_live, start_locked}
use wterm.Session.{Session, Spec, Outbound}
use wterm.Session.History.{HistoryState, present, absent, error}
use wterm.Session.Frame.{status_message}
use wterm.Session.Output.{enqueue_outbound}
use wterm.Session.Lifecycle.{attach}
use wterm.Routes.{Conn, member}
use wterm.Routes.Server.{
  Server, Env, Gate, broken, foreign, stranger, welcome, note, origin_fields, gate, checked,
}
use wterm.Routes.Ending.{agents, session_key}

-- The parameters of the route.
pub record Query : Type 0 where
  pub project_name : Text
  pub mode : Text
  pub agent : Text
  pub shell : Bool

-- What the world answers while the terminal opens.
pub record World : Type 0 where
  pub remote_history : HistoryState
  pub codex_history : Bool
  pub latest_session : Option Text
  pub fd : ℕ
  pub polls : List Bool

-- `WS_MODES`
abbrev pub ws_modes : List Text
ws_modes = codes "attach" ∷ codes "new" ∷ codes "resume" ∷ codes "continue" ∷ []

-- `HISTORY_CHECK_CLOSE_CODE`
abbrev pub history_check_close_code : ℕ
history_check_close_code = 4410

-- `send_status` after `attach`
abbrev pub greeted : ℕ → ℕ → Text → Session → Session
greeted now ws message s =
    enqueue_outbound (Outbound.text (status_message message)) (attach now ws s).0

abbrev pub is_resuming : Text → Bool
is_resuming mode = member mode (codes "resume" ∷ codes "continue" ∷ [])

abbrev pub probed : HistoryState → Option Bool
probed present = some true
probed absent = some false
probed error = none

-- Whether there is an old session to go on with; `none` is a remote host that did not answer.
abbrev pub has_history : World → Text → Text → Project → Option Bool
has_history world mode agent project =
    if not (is_resuming mode)
    then some false
    else if is_some project.ssh
    then probed world.remote_history
    else some (if agent == codes "codex" then world.codex_history else is_some world.latest_session)

-- `action`, `extra_args` and the message of a start.
pub record Start : Type 0 where
  pub action : Text
  pub extra_args : Option (List Text)
  pub message : Text

abbrev pub plan : Text → Text → Bool → Start
plan mode agent found =
    let codex = agent == codes "codex" in
    if mode == codes "resume" && found
    then record {
      action = codes "resume";
      extra_args = some ((if codex then codes "resume" else codes "--resume") ∷ []);
      message = codes "이어할 세션을 목록에서 선택하세요.";
    }
    else if mode == codes "continue" && found
    then record {
      action = codes "continue";
      extra_args =
          some (if codex then codes "resume" ∷ codes "--last" ∷ [] else codes "--continue" ∷ []);
      message = codes "가장 최근 세션을 이어합니다.";
    }
    else if is_resuming mode
    then record {
      action = codes "start";
      extra_args = none;
      message = codes "이어할 세션 기록이 없어 새 세션을 시작합니다.";
    }
    else record { action = codes "start"; extra_args = none; message = codes "새 세션을 시작합니다." }

abbrev pub shell_start : Start
shell_start = record { action = codes "start"; extra_args = none; message = codes "셸 세션을 시작합니다." }

abbrev pub spec_of : Text → Text → List Text → Project → Spec
spec_of key agent args project = record {
  project_name = key;
  cwd = project.path;
  grace_seconds = 0;
  idle_seconds = 0;
  ssh = project.ssh;
  agent = agent;
  command_args = args;
  project_env = project.env;
}

-- The state of the manager, and what the transition came to: a failed check, or a session.
pub data Chosen : Type 0 where
  unchecked : Manager → Chosen
  chosen : Manager → ℕ → Text → Option (List Text) → Chosen

module _ (now ws : ℕ) (world : World) where
  abbrev pub started : Text → Spec → Start → Manager → Chosen
  started key spec start m =
      let (m', id) = start_locked now world.fd world.polls key spec m in
      chosen (update id (greeted now ws start.message) m') id start.action start.extra_args

  abbrev pub start_agent : Text → Text → Text → Project → Option Bool → Manager → Chosen
  start_agent key mode agent project none m = unchecked m
  start_agent key mode agent project (some found) m =
      started key (spec_of key agent (args_for agent project) project) (plan mode agent found) m

  abbrev pub choose_among : Text → Text → Text → Project → Option ℕ → Manager → Chosen
  choose_among key mode agent project (some id) m =
      chosen (update id (greeted now ws (codes "실행 중인 세션에 재접속했습니다.")) m) id (codes "reattach") none
  choose_among key mode agent project none m =
      if agent == codes "shell"
      then started key (spec_of key agent [] project) shell_start m
      else start_agent key mode agent project (has_history world mode agent project) m

  -- Under the lock of the key: the live session unless a new one is asked for, or a start.
  unfoldable pub choose : Text → Text → Text → Project → Manager → Chosen
  unfolding get_live start_locked args_for
  choose key mode agent project m =
      let (m', live) = get_live key m in
      choose_among key mode agent project (if mode == codes "new" then none else live) m'

-- A WebSocket that is closed before or after it was accepted, or a terminal with the key that its
-- watchdog checks.
pub data Opened : Type 0 where
  raised : Opened
  refused : Bool → ℕ → Opened
  opened : ℕ → Text → Option (List Text) → Option Text → Opened

abbrev pub reject_line : Text → Conn → Text → Text → Text
reject_line reason conn name value = audit (codes "ws-reject") (
    (codes "reason", some (text reason))
    ∷ (codes "client", some (text conn.client))
    ∷ (name, some (text value))
    ∷ [])

abbrev pub effective_agent : Query → Text
effective_agent q = if q.shell then codes "shell" else q.agent

abbrev pub open_fields : Query → Project → Conn → Text → Fields
open_fields q project conn last =
    (codes "client", some (text conn.client))
    ∷ (codes "project", some (text q.project_name))
    ∷ (codes "agent", some (text (effective_agent q)))
    ∷ (codes "mode", some (text q.mode))
    ∷ (last, some (text (codes "history-check")))
    ∷ (codes "remote", shown project.ssh)
    ∷ []

abbrev pub failed_line : Query → Project → Conn → Text
failed_line q project conn =
    audit (codes "ws-open-failed") (open_fields q project conn (codes "reason"))

abbrev pub open_line : Query → Project → Conn → Text → Text
open_line q project conn action = audit (codes "ws-open") (
    (codes "client", some (text conn.client))
    ∷ (codes "project", some (text q.project_name))
    ∷ (codes "agent", some (text (effective_agent q)))
    ∷ (codes "mode", some (text q.mode))
    ∷ (codes "action", some (text action))
    ∷ (codes "remote", shown project.ssh)
    ∷ [])

-- The end of the transition: the socket is registered under its token.
abbrev pub settle : Env → ℕ → Query → Project → Conn → Chosen → Server → Server × Opened × List Text
settle env ws q project conn (unchecked m) s = (
  record s { manager = m },
  refused true history_check_close_code,
  failed_line q project conn ∷ [],
)
settle env ws q project conn (chosen m id action extra) s =
    let (auth, watchdog) = register_socket env.sha256 ws conn.cookie (some id) s.auth in
    (
      record s { manager = m; auth = auth },
      opened id action extra watchdog,
      open_line q project conn action ∷ [],
    )

abbrev pub open_project :
    Env → ℕ → World → Query → Conn → Option Project → Server → Server × Opened × List Text
open_project env ws world q conn none s = (
  s,
  refused true 4404,
  reject_line (codes "unknown-project") conn (codes "project") q.project_name ∷ [],
)
open_project env ws world q conn (some project) s =
    let agent = effective_agent q in
    if not (member agent agents)
    then (s, refused true 4400, reject_line (codes "bad-agent") conn (codes "agent") agent ∷ [])
    else if not (member q.mode ws_modes)
    then (s, refused true 4400, reject_line (codes "bad-mode") conn (codes "mode") q.mode ∷ [])
    else settle env ws q project conn
        (choose env.now ws world (session_key q.project_name agent) q.mode agent project s.manager)
        s

abbrev pub open_gated : Env → ℕ → World → Query → Conn → Gate → Server → Server × Opened × List Text
open_gated env ws world q conn broken s = (s, raised, [])
open_gated env ws world q conn foreign s =
    let (s', lines) = note env (codes "ws-reject") conn (codes "origin") (origin_fields conn) s in
    (s', refused false 4403, lines)
open_gated env ws world q conn stranger s =
    let (s', lines) =
      note env (codes "ws-reject") conn (codes "unauthorized")
        ((codes "project", some (text q.project_name)) ∷ []) (checked env conn s) in
    (s', refused true 4401, lines)
open_gated env ws world q conn welcome s =
    open_project env ws world q conn (find_project q.project_name s.config.projects)
      (checked env conn s)

-- `terminal_ws` up to its message loop: the state, the outcome and the audit lines. The time of an
-- open terminal is not kept.
unfoldable pub terminal_open : Env → ℕ → World → Query → Conn → Server → Server × Opened × List Text
unfolding gate member find_project choose register_socket
terminal_open env ws world q conn s = open_gated env ws world q conn (gate env conn s) s
