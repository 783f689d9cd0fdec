-- ===== src/Routes/Ending.antt =====
-- server/main.py: `end_session`, which ends a live session at the request of a browser.
use wterm.Prelude.{ℕ, Bool, Option, none, some, List, [], ◌∷◌, ◌++◌, if◌then◌else◌, Text, codes}
use wterm.Audit.{text, flag, audit}
use wterm.Config.{Project, find_project}
use wterm.Manager.{end}
use wterm.Routes.{Conn, member}
use wterm.Routes.Server.{
  Server, Env, Gate, broken, foreign, stranger, welcome, note, origin_fields, gate, checked,
}

-- `AGENTS`
abbrev pub agents : List Text
agents = codes "claude" ∷ codes "codex" ∷ codes "shell" ∷ []

-- f"{project}#{agent}"
abbrev pub session_key : Text → Text → Text
session_key project agent = project ++ b'#' ∷ agent

-- The status, and `ended` where it is 200; an exception that nothing catches is a 500.
pub data Reply : Type 0 where
  answer : ℕ → Option Bool → Reply
  failed : Reply

abbrev pub rejected : Text → Conn → Text → Text → Text
rejected reason conn name value = audit (codes "session-end-reject") (
    (codes "reason", some (text reason))
    ∷ (codes "client", some (text conn.client))
    ∷ (name, some (text value))
    ∷ [])

abbrev pub end_line : Conn → Text → Text → Bool → Text
end_line conn project agent ended = audit (codes "session-end") (
    (codes "client", some (text conn.client))
    ∷ (codes "project", some (text project))
    ∷ (codes "agent", some (text agent))
    ∷ (codes "ended", some (flag ended))
    ∷ [])

abbrev pub end_agent : List Bool → Text → Text → Conn → Server → Server × Reply × List Text
end_agent polls project agent conn s =
    if member agent agents
    then (let (manager, ended) = end polls (session_key project agent) s.manager in
        (
          record s { manager = manager },
          answer 200 (some ended),
          end_line conn project agent ended ∷ [],
        ))
    else (s, answer 400 none, rejected (codes "bad-agent") conn (codes "agent") agent ∷ [])

abbrev pub end_project :
    List Bool → Text → Text → Conn → Option Project → Server → Server × Reply × List Text
end_project polls project agent conn none s =
    (s, answer 404 none, rejected (codes "unknown-project") conn (codes "project") project ∷ [])
end_project polls project agent conn (some p) s = end_agent polls project agent conn s

abbrev pub end_gated :
    Env → List Bool → Text → Text → Conn → Gate → Server → Server × Reply × List Text
end_gated env polls project agent conn broken s = (s, failed, [])
end_gated env polls project agent conn foreign s =
    let (s', lines) =
      note env (codes "session-end-reject") conn (codes "origin") (origin_fields conn) s in
    (s', answer 403 none, lines)
end_gated env polls project agent conn stranger s =
    let (s', lines) =
      note env (codes "session-end-reject") conn (codes "unauthorized")
        ((codes "project", some (text project)) ∷ []) (checked env conn s) in
    (s', answer 401 none, lines)
end_gated env polls project agent conn welcome s =
    end_project polls project agent conn (find_project project s.config.projects)
      (checked env conn s)

-- `end_session`: the state, the answer and the audit lines.
unfoldable pub end_session :
    Env → List Bool → Text → Text → Conn → Server → Server × Reply × List Text
unfolding gate member find_project
end_session env polls project agent conn s =
    end_gated env polls project agent conn (gate env conn s) s
