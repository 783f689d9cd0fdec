-- ===== src/Routes/Tests.antt =====
-- Runs of the routes at concrete inputs.
use wterm.Prelude.{
  ◌++◌, equal_list_iff, ℕ, ◌≡◌, ◌≢◌, refl, sym, ap, ◌∙◌, true, false, Option, none, some, List, [],
  ◌∷◌, all_chars, filter_by, Text, codes, inl, nat_key, list_key,
}
use wterm.Prelude.Int.{pos}
use wterm.Json
use wterm.Json.{Json}
use wterm.OrderedDict.{get, put}
use wterm.Config.{Project, Config, find_project, args_for}
use wterm.Url.{Checks, lower_char, rstrip_char, urlsplit}
use wterm.Auth
use wterm.Auth.{Auth, is_authed}
use wterm.Url
use wterm.Session.{Session, Spec, create}
use wterm.Session.Lifecycle.{spawn, cancel_grace, attach}
use wterm.Session.Output.{enqueue_outbound}
use wterm.Manager.{init, update, get_live, start_locked, Op, starts, attaches, step, run}
use wterm.Manager.Spared.{Spares}
use wterm.Routes.{Conn, is_secure, member, origin_allowed}
use wterm.Routes.Origin.{origin_allowed-same_origin}
use wterm.Routes.Server.{Server, Env, foreign, welcome, gate}
use wterm.Routes.Ending.{session_key, end_session}
use wterm.Session.History.{absent}
use wterm.Routes.Terminal.{World, Query, opened, terminal_open, choose}
use wterm.Status
use wterm.Status.{Hub}
use wterm.Status.Freshness.{Event, wakes, computes, finishes}
use wterm.Routes.Refusals.{with_projects, end_session-no_oracle, terminal_open-no_oracle}
use wterm.Routes.Opening.{IsTerminal, terminal_open-IsTerminal}
use wterm.Routes.Sparing.{IsOther, terminal_open-Spares, end_session-Spares}
use wterm.Audit.{audit, shown_fields, value_text, scrub, is_unsafe, str}
use wterm.Prelude.{decimal, decimal_onto, join}
use wterm.Routes.Messages
use wterm.Routes.Messages.{close_line, Frame, Frames, listen, serve, leave, hear, message_of}
use wterm.Routes.Serving.{Thinned, done, keep, leave_out, listen-Thinned, serve-websocket}

abbrev project : Project
project = record { name = codes "web"; path = codes "/srv/web"; ssh = none; args = []; env = [] }

abbrev config : Config
config = record {
  host = codes "127.0.0.1";
  port = 8877;
  uds = some (codes "/run/wterm.sock");
  grace_seconds = 60;
  idle_seconds = 0;
  password_hash = none;
  allowed_origins = [];
  tls_certfile = none;
  tls_keyfile = none;
  allow_insecure_tcp = false;
  projects = project ∷ [];
}

abbrev conn : Conn
conn = record {
  client = codes "100.64.0.2";
  origin = some (codes "https://Host.ts.net//");
  host = some (codes "host.ts.net");
  forwarded_proto = none;
  scheme = codes "http";
  cookie = none;
}

abbrev stranger_conn : Conn
stranger_conn = record conn { origin = some (codes "https://evil.example") }

abbrev checks : Checks
checks = record { bracketed_fine = λ t. false; compatible = λ t. true }

origin_allowed-same_origin_example : origin_allowed checks config conn ≡ some true
unfolding lower_char is_secure Url.is_scheme all_chars
origin_allowed-same_origin_example =
    origin_allowed-same_origin checks config conn (codes "https") (codes "Host.ts.net")
      (codes "host.ts.net") 2 refl refl refl refl refl (λ e. absurd (cc))

-- An origin with an open bracket raises out of the route.
broken_origin :
    origin_allowed checks config (record conn { origin = some (codes "http://[") }) ≡ none
unfolding origin_allowed urlsplit all_chars Url.authority Url.split_scheme filter_by
    Url.drop_controls rstrip_char lower_char Url.split_netloc
broken_origin = refl

abbrev env : Env
env = record { sha256 = λ t. t; checks = checks; now = 5000 }

abbrev shell : Spec
shell = record {
  project_name = codes "x";
  cwd = codes "/";
  grace_seconds = 0;
  idle_seconds = 0;
  ssh = none;
  agent = codes "shell";
  command_args = [];
  project_env = [];
}

-- A shell that runs under the key of the project.
abbrev history : List Op
history = starts 0 7 [] (codes "web#shell") shell ∷ attaches 1 100 0 ∷ []

abbrev server : Server
server = record {
  config = config;
  auth = Auth.init none;
  manager = run history (init 60 0);
  throttle = [];
}

abbrev world : World
world = record {
  remote_history = absent;
  codex_history = false;
  latest_session = some (codes "5d2c");
  fd = 9;
  polls = true ∷ [];
}

abbrev query : Query
query = record {
  project_name = codes "web";
  mode = codes "continue";
  agent = codes "claude";
  shell = false;
}

is_foreign : gate env stranger_conn server ≡ foreign
unfolding gate origin_allowed is_authed is_secure Auth.init urlsplit all_chars Url.authority
    Url.split_scheme filter_by Url.drop_controls rstrip_char lower_char Url.split_netloc
    Url.is_ascii
is_foreign = refl

foreign-welcome : foreign ≢ welcome
foreign-welcome e = absurd (cc)

not_welcome : gate env stranger_conn server ≢ welcome
not_welcome e = foreign-welcome (sym is_foreign ∙ e)

end_session-no_oracle_example :
    ((end_session env [] (codes "web") (codes "shell") stranger_conn server).1
      ≡ (end_session env [] (codes "?") (codes "rm") stranger_conn (with_projects [] server)).1)
    × ((end_session env [] (codes "web") (codes "shell") stranger_conn server).0.manager
        ≡ server.manager)
end_session-no_oracle_example =
    end_session-no_oracle env [] [] (codes "web") (codes "?") (codes "shell") (codes "rm")
      stranger_conn [] server not_welcome

terminal_open-no_oracle_example :
    ((terminal_open env 200 world query stranger_conn server).1
      ≡ (terminal_open env 200 world
          (record query { project_name = codes "?" })
          stranger_conn
          (with_projects [] server)).1)
    × ((terminal_open env 200 world query stranger_conn server).0.manager ≡ server.manager)
    × ((id : ℕ) (action : Text) (extra : Option (List Text)) (watchdog : Option Text)
        → (terminal_open env 200 world query stranger_conn server).1
          ≢ opened id action extra watchdog)
terminal_open-no_oracle_example =
    terminal_open-no_oracle env 200 world world query (record query { project_name = codes "?" })
      stranger_conn [] server not_welcome

terminal_open-IsTerminal_example :
    IsTerminal env 200 query conn server (terminal_open env 200 world query conn server)
terminal_open-IsTerminal_example = terminal_open-IsTerminal env 200 world query conn server

-- The last conversation of the project goes on in a new session.
continued :
    (terminal_open env 200 world query conn server).1
    ≡ opened 1 (codes "continue") (some (codes "--continue" ∷ [])) none
unfolding terminal_open gate origin_allowed is_authed is_secure Auth.init member find_project choose
    get_live start_locked run step init get put update args_for lower_char rstrip_char urlsplit
    Auth.register_socket spawn create attach cancel_grace enqueue_outbound Url.split_at
    Url.is_scheme Url.drop_controls Url.split_scheme Url.split_netloc Url.authority Url.is_ascii
    all_chars filter_by
continued = refl

terminal_open-Spares_example :
    Spares 0 server.manager (terminal_open env 200 world query conn server).0.manager
terminal_open-Spares_example =
    terminal_open-Spares env 200 world query conn server 0 60 0 history refl (inl refl)

-- Only the input counts.
abbrev frames : Frames
frames =
    (10, [], Messages.binary)
    ∷ (11, [], Messages.malformed)
    ∷ (12, [], Messages.parsed (Json.int (pos 5)))
    ∷ (
      13,
      [],
      Messages.parsed (
          Json.object (
            Json.member (codes "type") (Json.str (codes "input"))
              (Json.member (codes "data") (Json.str (codes "ls")) Json.end))),
    )
    ∷ (14, [], Messages.closed)
    ∷ []

abbrev running : Session
running = (attach 1 100 (spawn 0 7 (create 0 shell))).0

abbrev typed : Frames
typed =
    (
      13,
      [],
      Messages.parsed (
          Json.object (
            Json.member (codes "type") (Json.str (codes "input"))
              (Json.member (codes "data") (Json.str (codes "ls")) Json.end))),
    )
    ∷ []

thinned : Thinned frames (typed ++ (14, [], Messages.closed) ∷ [])
thinned = leave_out 10 [] Messages.binary tt (
    leave_out 11 [] Messages.malformed tt
      (leave_out 12 [] (Messages.parsed (Json.int (pos 5))) (λ h. h) (keep _ (keep _ done))))

listen-Thinned_example :
    listen (typed ++ (14, [], Messages.closed) ∷ []) running ≡ listen frames running
listen-Thinned_example =
    listen-Thinned frames (typed ++ (14, [], Messages.closed) ∷ []) running thinned

abbrev known : Auth
known = record (Auth.init none) { ws_tokens = (100, codes "k") ∷ []; ws_closers = (100, 0) ∷ [] }

serve-websocket_example :
    let (served, left, unregistered) = serve 100 frames running known in
    (left.websocket ≢ some 100)
    × (get 100 unregistered.ws_tokens ≡ none)
    × (get 100 unregistered.ws_closers ≡ none)
serve-websocket_example = serve-websocket 100 frames running known

-- A shell of another project.
abbrev other_history : List Op
other_history = starts 0 7 [] (codes "api#shell") shell ∷ []

abbrev other_server : Server
other_server = record server { manager = run other_history (init 60 0) }

names_apart : codes "api#shell" ≢ codes "web#shell"
names_apart e =
    absurd (let same = (equal_list_iff (codes "api#shell") (codes "web#shell")).1 e in cc)

IsOther-session : IsOther (session_key (codes "web") (codes "shell")) 0 other_server.manager
unfolding run step start_locked get_live update init get put spawn create
IsOther-session t found living e =
    let there : some _ ≡ some t = found in
    let name : codes "api#shell" ≡ t.project_name =
      ap (λ o. elim o [ none ↦ codes "api#shell" | some u ↦ u.project_name ]) there in
    names_apart (name ∙ e)

end_session-Spares_example :
    Spares 0 other_server.manager
      (end_session env (true ∷ []) (codes "web") (codes "shell") conn other_server).0.manager
end_session-Spares_example =
    end_session-Spares env (true ∷ []) (codes "web") (codes "shell") conn other_server 0 60 0
      other_history refl IsOther-session

abbrev hub : Hub
hub = record { dirty = false; sockets = []; last_payload = none; phase = Status.waiting }

-- The list is computed and sent.
abbrev events : List Event
events = wakes ∷ computes (codes "[]") ∷ finishes [] ∷ []

is_welcome : gate env conn server ≡ welcome
unfolding gate origin_allowed is_authed is_secure Auth.init urlsplit all_chars Url.authority
    Url.split_scheme filter_by Url.drop_controls rstrip_char lower_char Url.split_netloc
    Url.is_ascii Url.split_at Url.is_scheme
is_welcome = refl

close_lined :
    close_line (record conn { client = codes "10.0.0.7" }) (codes "web") (codes "shell") 1000 65999
    ≡ codes "ws-close client=10.0.0.7 project=web agent=shell seconds=64"
unfolding audit shown_fields value_text scrub is_unsafe str decimal decimal_onto join
close_lined = refl
