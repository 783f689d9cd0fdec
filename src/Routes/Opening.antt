-- ===== src/Routes/Opening.antt =====
-- server/main.py, `terminal_ws`: what an opened terminal is.
use wterm.Prelude.{
  ℕ, ◌≡◌, ◌⊎◌, refl, ap, ◌∙◌, Bool, true, false, ◌&&◌, Option, none, some, List, [], Text, codes,
  Bool-cases, inl, inr, ◌==◌, nat_key, list_key, if◌then◌else◌,
}
use wterm.OrderedDict.{get}
use wterm.Config.{Project, args_for, find_project}
use wterm.Session.{Session, Spec}
use wterm.Manager.{Manager, get_live, start_locked}
use wterm.Manager.Kept.{get-update_self}
use wterm.Manager.Live.{start_locked-get_live}
use wterm.Manager.Spared.{start_locked_stored, get_live_twice}
use wterm.Routes.{Conn, member}
use wterm.Routes.Server.{Server, Env, Gate, broken, foreign, stranger, welcome, gate, checked}
use wterm.Routes.Ending.{agents, session_key}
use wterm.Routes.Terminal.{
  is_resuming, ws_modes, Query, Opened, raised, refused, opened, effective_agent, settle,
  open_project, open_gated, terminal_open, World, Start, spec_of, shell_start, Chosen, unchecked,
  chosen, greeted, plan, has_history, started, start_agent, choose_among, choose,
}
use wterm.Routes.Attached.{IsAttached, greeted-IsSame, greet-IsAttached}

-- The session was started for the project and the agent.
abbrev pub IsStarted : Text → Project → ℕ → Manager → Type 0
IsStarted agent project id m =
    (s : Session) × (get id m.store ≡ some s)
    × (s.cwd ≡ project.path)
    × (s.ssh ≡ project.ssh)
    × (s.agent ≡ agent)
    × (s.command_args ≡ (if agent == codes "shell" then [] else args_for agent project))
    × (s.project_env ≡ project.env)

-- A transition that comes to a session attaches it. It is the live one of the key, unless a new one
-- was asked for, or it was started.
abbrev pub IsOpen : ℕ → Text → Text → Text → Project → Manager → Chosen → Type 0
IsOpen ws key mode agent project before (unchecked m) = Unit
IsOpen ws key mode agent project before (chosen m id action extra) =
    IsAttached ws key id m
    × (((action == codes "reattach") ≡ true)
          × ((mode == codes "new") ≡ false)
          × ((get_live key before).1 ≡ some id)
        ⊎ ((action == codes "reattach") ≡ false) × IsStarted agent project id m)

plan-action :
    (mode agent : Text) (found : Bool)
    → ((plan mode agent found).action == codes "reattach") ≡ false
plan-action mode agent found = elim (Bool-cases (mode == codes "resume" && found)) [
  | inl resumed ↦ rw resumed
  | inr other ↦ elim (Bool-cases (mode == codes "continue" && found)) [
    | inl continued ↦ rw (other, continued)
    | inr fresh ↦ elim (Bool-cases (is_resuming mode)) [
      | inl wanted ↦ rw (other, fresh, wanted)
      | inr plain ↦ rw (other, fresh, plain)
    ]
  ]
]

module _ (now ws : ℕ) (world : World) (key mode agent : Text) (project : Project) where
  started-IsOpen :
      (args : List Text) (start : Start) (before m : Manager)
      → (start.action == codes "reattach") ≡ false
      → args ≡ (if agent == codes "shell" then [] else args_for agent project)
      → IsOpen ws key mode agent project before
          (started now ws world key (spec_of key agent args project) start m)
  started-IsOpen args start before m action fitting =
      let spec : Spec = spec_of key agent args project in
      let left = start_locked now world.fd world.polls key spec m in
      let (new, found, made) = start_locked_stored now world.fd world.polls key spec m in
      let same : (greeted now ws start.message new).spec ≡ _ =
        (greeted-IsSame now ws start.message new).0 ∙ made in
      (
        greet-IsAttached now ws start.message key left.1 left.0
            (start_locked-get_live now world.fd world.polls key spec m),
        inr (
          action,
          (
            greeted now ws start.message new,
            get-update_self left.1 (greeted now ws start.message) left.0 new found,
            ap (λ k. k.cwd) same,
            ap (λ k. k.ssh) same,
            ap (λ k. k.agent) same,
            ap (λ k. k.command_args) same ∙ fitting,
            ap (λ k. k.project_env) same,
          ),
        ),
      )

  start_agent-IsOpen :
      (found : Option Bool) (before m : Manager)
      → (agent == codes "shell") ≡ false
      → IsOpen ws key mode agent project before
          (start_agent now ws world key mode agent project found m)
  start_agent-IsOpen none before m other = tt
  start_agent-IsOpen (some found) before m other =
      started-IsOpen (args_for agent project) (plan mode agent found) before m
        (plan-action mode agent found) (rw other)

  choose_among-IsOpen :
      (live : Option ℕ) (before m : Manager)
      → ((j : ℕ)
          → live ≡ some j
          → ((get_live key m).1 ≡ some j)
            × ((mode == codes "new") ≡ false)
            × ((get_live key before).1 ≡ some j))
      → IsOpen ws key mode agent project before
          (choose_among now ws world key mode agent project live m)
  choose_among-IsOpen (some j) before m there =
      let (now_live, kept, was_live) = there j refl in
      (greet-IsAttached now ws _ key j m now_live, inl (refl, kept, was_live))
  choose_among-IsOpen none before m there = elim (Bool-cases (agent == codes "shell")) [
    | inl shell ↦ rw shell (started-IsOpen [] shell_start before m refl (rw shell))
    | inr other ↦
        rw other (start_agent-IsOpen (has_history world mode agent project) before m other)
  ]

  pub choose-IsOpen :
      (m : Manager)
      → IsOpen ws key mode agent project m (choose now ws world key mode agent project m)
  unfolding choose
  choose-IsOpen m = elim (Bool-cases (mode == codes "new")) [
    | inl new ↦ rw new (choose_among-IsOpen none m (get_live key m).0 (λ j e. absurd (cc)))
    | inr other ↦ rw other (
        choose_among-IsOpen (get_live key m).1 m (get_live key m).0
          (λ j e. (get_live_twice key m ∙ e, other, e)))
  ]

-- The end of the transition.
abbrev pub IsTerminal : Env → ℕ → Query → Conn → Server → Server × Opened × List Text → Type 0
IsTerminal env ws q conn s (s', raised, lines) = Unit
IsTerminal env ws q conn s (s', refused accepted code, lines) = Unit
IsTerminal env ws q conn s (s', opened id action extra watchdog, lines) =
    let agent = effective_agent q in
    let key = session_key q.project_name agent in
    (gate env conn s ≡ welcome)
    × (member agent agents ≡ true)
    × ((project : Project) × (find_project q.project_name s.config.projects ≡ some project)
        × IsOpen ws key q.mode agent project s.manager (chosen s'.manager id action extra))

module _ (env : Env) (ws : ℕ) (q : Query) (conn : Conn) (s : Server) where
  settle-IsTerminal :
      (project : Project) (c : Chosen) (s' : Server)
      → gate env conn s ≡ welcome
      → member (effective_agent q) agents ≡ true
      → find_project q.project_name s.config.projects ≡ some project
      → IsOpen ws
          (session_key q.project_name (effective_agent q))
          q.mode
          (effective_agent q)
          project
          s.manager
          c
      → IsTerminal env ws q conn s (settle env ws q project conn c s')
  settle-IsTerminal project (unchecked m) s' in_ known listed terminal = tt
  settle-IsTerminal project (chosen m id action extra) s' in_ known listed terminal =
      (in_, known, (project, listed, terminal))

  open_project-IsTerminal :
      (world : World) (found : Option Project)
      → gate env conn s ≡ welcome
      → find_project q.project_name s.config.projects ≡ found
      → IsTerminal env ws q conn s (open_project env ws world q conn found (checked env conn s))
  open_project-IsTerminal world none in_ listed = tt
  open_project-IsTerminal world (some project) in_ listed =
      elim (Bool-cases (member (effective_agent q) agents)) [
        | inr unknown ↦ rw unknown tt
        | inl known ↦ elim (Bool-cases (member q.mode ws_modes)) [
          | inr bad ↦ rw (known, bad) tt
          | inl fine ↦
              let key = session_key q.project_name (effective_agent q) in
              rw (known, fine)
                (settle-IsTerminal project
                  (choose env.now ws world key q.mode (effective_agent q) project s.manager)
                  (checked env conn s) in_ known listed
                  (choose-IsOpen env.now ws world key q.mode (effective_agent q) project s.manager))
        ]
      ]

  open_gated-IsTerminal :
      (world : World) (g : Gate)
      → gate env conn s ≡ g
      → IsTerminal env ws q conn s (open_gated env ws world q conn g s)
  open_gated-IsTerminal world broken came = tt
  open_gated-IsTerminal world foreign came = tt
  open_gated-IsTerminal world stranger came = tt
  open_gated-IsTerminal world welcome came =
      open_project-IsTerminal world (find_project q.project_name s.config.projects) came refl

-- A terminal that opens is what was asked for. The caller's origin and cookie were accepted, the
-- agent is one of the three and the project is configured; the session is the live one of the key,
-- and the socket is attached to it; and it is the session that was live before, which happens only
-- if no new one was asked for, or one that was started in the project's directory, on its host, with
-- its environment and, for an agent, with its arguments.
pub terminal_open-IsTerminal :
    (env : Env) (ws : ℕ) (world : World) (q : Query) (conn : Conn) (s : Server)
    → IsTerminal env ws q conn s (terminal_open env ws world q conn s)
unfolding terminal_open
terminal_open-IsTerminal env ws world q conn s =
    open_gated-IsTerminal env ws q conn s world (gate env conn s) refl
