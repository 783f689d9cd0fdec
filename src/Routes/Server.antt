-- ===== src/Routes/Server.antt =====
-- server/main.py: the state that its routes share, the refusals before login, and the routes that
-- only wrap a component: login, logout and the list of projects. What the manager announces to the
-- status hub is not kept here.
use wterm.Prelude.{
  ℕ, Bool, true, false, Option, none, some, List, [], ◌∷◌, Text, codes, if◌then◌else◌,
}
use wterm.Json.{Json}
use wterm.Audit.{Throttle, Fields, audit_throttled}
use wterm.Auth.{Auth, Closing, is_authed}
use wterm.Auth.Login.{Request, Response, Outcome, Verdict, raised, shown, login, logout}
use wterm.Config.{Config}
use wterm.Manager.{Manager}
use wterm.Url.{Checks}
use wterm.Routes.{Conn, is_secure, origin_allowed}

pub record Server : Type 0 where
  pub config : Config
  pub auth : Auth
  pub manager : Manager
  pub throttle : Throttle

-- What a request finds outside: the hash, the checks of `urlsplit`, and the clock.
pub record Env : Type 0 where
  pub sha256 : Text → Text
  pub checks : Checks
  pub now : ℕ

abbrev pub lines_of : Option Text → List Text
lines_of none = []
lines_of (some line) = line ∷ []

-- `_audit_throttled` before a refusal.
abbrev pub note : Env → Text → Conn → Text → Fields → Server → Server × List Text
note env event conn reason fields s =
    let (throttle, line) = audit_throttled event conn.client reason fields env.now s.throttle in
    (record s { throttle = throttle }, lines_of line)

-- The fields of a refused origin.
abbrev pub origin_fields : Conn → Fields
origin_fields conn = (codes "origin", shown conn.origin) ∷ (codes "host", shown conn.host) ∷ []

-- How far a caller comes.
pub data Gate : Type 0 where
  broken foreign stranger welcome : Gate

abbrev pub gate_of : Option Bool → Bool → Gate
gate_of none authed = broken
gate_of (some false) authed = foreign
gate_of (some true) authed = if authed then welcome else stranger

-- The origin first, and then the cookie.
unfoldable pub gate : Env → Conn → Server → Gate
unfolding origin_allowed is_authed
gate env conn s =
    gate_of (origin_allowed env.checks s.config conn)
      (is_authed env.sha256 env.now conn.cookie s.auth).1

-- The state after the cookie was looked at: an expired token is gone.
abbrev pub checked : Env → Conn → Server → Server
checked env conn s = record s { auth = (is_authed env.sha256 env.now conn.cookie s.auth).0 }

-- The route of /api/login: the request as the handler of `AuthManager` reads it.
abbrev pub login_request : Conn → Option Text → Option Json → Bool → Config → Request
login_request conn length body allowed config = record {
  client = conn.client;
  origin_allowed = allowed;
  origin = conn.origin;
  host = conn.host;
  content_length = length;
  body = body;
  cookie = conn.cookie;
  is_secure = is_secure config conn;
}

unfoldable pub login_route :
    (Json → Text)
    → (Text → Text → Verdict)
    → Env
    → ℕ
    → Text
    → Option Text
    → Option Json
    → Conn
    → Server
    → Server × Outcome × List Text
login_route repr verify env later token length body conn s =
    elim (origin_allowed env.checks s.config conn) [
      | none ↦ (s, raised, [])
      | some allowed ↦
          let r = login_request conn length body allowed s.config in
          let (auth, outcome, lines) = login env.sha256 repr verify env.now later token r s.auth in
          (record s { auth = auth }, outcome, lines)
    ]

-- The route of /api/logout; `none` is an exception.
unfoldable pub logout_route :
    Env → Conn → Server → Option (Server × List Closing × Response × List Text)
logout_route env conn s = elim (origin_allowed env.checks s.config conn) [
  | none ↦ none
  | some allowed ↦
      let (auth, closed, response, lines) =
        logout env.sha256 (login_request conn none none allowed s.config) s.auth in
      some (record s { auth = auth }, closed, response, lines)
]

-- `list_projects`: 401, or the snapshot with 200. It asks for no origin.
unfoldable pub list_projects : Env → Conn → Server → Server × Bool
list_projects env conn s = (checked env conn s, (is_authed env.sha256 env.now conn.cookie s.auth).1)
