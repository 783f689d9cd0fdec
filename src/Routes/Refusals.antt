-- ===== src/Routes/Refusals.antt =====
-- server/main.py: what a caller learns who may not come in.
use wterm.Prelude.{ℕ, ◌≡◌, ◌≢◌, refl, Bool, Option, List, Text}
use wterm.Config.{Project}
use wterm.Routes.{Conn, origin_allowed, is_secure}
use wterm.Routes.Server.{Server, Env, Gate, broken, foreign, stranger, welcome, gate}
use wterm.Routes.Ending.{end_gated, end_session}
use wterm.Routes.Terminal.{World, Query, opened, open_gated, terminal_open}

-- The same server with other projects.
abbrev pub with_projects : List Project → Server → Server
with_projects projects s = record s { config = record s.config { projects = projects } }

gate-with_projects :
    (env : Env) (conn : Conn) (projects : List Project) (s : Server)
    → gate env conn (with_projects projects s) ≡ gate env conn s
unfolding gate origin_allowed is_secure
gate-with_projects env conn projects s = refl

end_gated-refused :
    (env : Env) (polls polls' : List Bool) (project project' agent agent' : Text) (conn : Conn)
    (projects : List Project) (g : Gate) (s : Server)
    → g ≢ welcome
    → ((end_gated env polls project agent conn g s).1
        ≡ (end_gated env polls' project' agent' conn g (with_projects projects s)).1)
      × ((end_gated env polls project agent conn g s).0.manager ≡ s.manager)
end_gated-refused env polls polls' project project' agent agent' conn projects broken s out =
    (refl, refl)
end_gated-refused env polls polls' project project' agent agent' conn projects foreign s out =
    (refl, refl)
end_gated-refused env polls polls' project project' agent agent' conn projects stranger s out =
    (refl, refl)
end_gated-refused env polls polls' project project' agent agent' conn projects welcome s out =
    absurd (out refl)

-- `end_session` is no oracle. A caller whose origin or cookie is not accepted gets an answer that
-- does not depend on the projects of the server, on the project it asks for or on the agent, and
-- ends no session.
pub end_session-no_oracle :
    (env : Env) (polls polls' : List Bool) (project project' agent agent' : Text) (conn : Conn)
    (projects : List Project) (s : Server)
    → gate env conn s ≢ welcome
    → ((end_session env polls project agent conn s).1
        ≡ (end_session env polls' project' agent' conn (with_projects projects s)).1)
      × ((end_session env polls project agent conn s).0.manager ≡ s.manager)
unfolding end_session
end_session-no_oracle env polls polls' project project' agent agent' conn projects s out =
    rw (gate-with_projects env conn projects s) (
      end_gated-refused env polls polls' project project' agent agent' conn projects
        (gate env conn s) s out)

open_gated-refused :
    (env : Env) (ws : ℕ) (world world' : World) (q q' : Query) (conn : Conn)
    (projects : List Project) (g : Gate) (s : Server)
    → g ≢ welcome
    → ((open_gated env ws world q conn g s).1
        ≡ (open_gated env ws world' q' conn g (with_projects projects s)).1)
      × ((open_gated env ws world q conn g s).0.manager ≡ s.manager)
      × ((id : ℕ) (action : Text) (extra : Option (List Text)) (watchdog : Option Text)
          → (open_gated env ws world q conn g s).1 ≢ opened id action extra watchdog)
open_gated-refused env ws world world' q q' conn projects broken s out =
    (refl, refl, λ i a x w e. cc)
open_gated-refused env ws world world' q q' conn projects foreign s out =
    (refl, refl, λ i a x w e. cc)
open_gated-refused env ws world world' q q' conn projects stranger s out =
    (refl, refl, λ i a x w e. cc)
open_gated-refused env ws world world' q q' conn projects welcome s out = absurd (out refl)

-- The terminal is no oracle either. A caller whose origin or cookie is not accepted gets an outcome
-- that does not depend on the projects of the server or on anything it asks for, gets no terminal,
-- and leaves every session as it is.
pub terminal_open-no_oracle :
    (env : Env) (ws : ℕ) (world world' : World) (q q' : Query) (conn : Conn)
    (projects : List Project) (s : Server)
    → gate env conn s ≢ welcome
    → ((terminal_open env ws world q conn s).1
        ≡ (terminal_open env ws world' q' conn (with_projects projects s)).1)
      × ((terminal_open env ws world q conn s).0.manager ≡ s.manager)
      × ((id : ℕ) (action : Text) (extra : Option (List Text)) (watchdog : Option Text)
          → (terminal_open env ws world q conn s).1 ≢ opened id action extra watchdog)
unfolding terminal_open
terminal_open-no_oracle env ws world world' q q' conn projects s out =
    rw (gate-with_projects env conn projects s)
      (open_gated-refused env ws world world' q q' conn projects (gate env conn s) s out)
