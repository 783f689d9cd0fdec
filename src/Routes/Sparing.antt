-- ===== src/Routes/Sparing.antt =====
-- server/main.py: the sessions that a request leaves alone.
use wterm.Prelude.{
  ℕ, ◌≡◌, ◌≢◌, ◌⊎◌, refl, sym, ap, subst, ◌∙◌, Bool, true, false, Option, none, some, List, [],
  Text, codes, Bool-cases, inl, inr, ◌==◌, nat_key, list_key, arith,
}
use wterm.OrderedDict.{get}
use wterm.Config.{Project, args_for, find_project}
use wterm.Session.{Session, Spec}
use wterm.Manager.{Manager, init, update, get_live, start_locked, Op, run}
use wterm.Manager.Frames.{is_live}
use wterm.Manager.Kept.{IsSingle}
use wterm.Manager.Live.{run-IsSingle, init-IsSingle}
use wterm.Manager.Spared.{
  Spares, Spares-trans, same_store-Spares, update-Spares, get_live_store, get_live_next,
  get_live_twice, start_locked-Spares, end-Spares, other_name,
}
use wterm.Routes.{Conn, member}
use wterm.Routes.Server.{Server, Env, Gate, broken, foreign, stranger, welcome, gate, checked}
use wterm.Routes.Ending.{agents, session_key, end_agent, end_project, end_gated, end_session}
use wterm.Routes.Attached.{greeted-IsSame}
use wterm.Routes.Terminal.{
  World, Query, Start, Chosen, unchecked, chosen, greeted, plan, shell_start, spec_of, has_history,
  started, start_agent, choose_among, choose, effective_agent, settle, open_project, open_gated,
  terminal_open, ws_modes,
}

abbrev Leaves : ℕ → Manager → Chosen → Type 0
Leaves j before (unchecked m) = Spares j before m
Leaves j before (chosen m id action extra) = Spares j before m

module _ (now ws : ℕ) (world : World) (key mode agent : Text) (project : Project) (j : ℕ) where
  started-Leaves :
      (spec : Spec) (start : Start) (m : Manager)
      → get m.next m.store ≡ none
      → (get_live key m).1 ≢ some j
      → Leaves j m (started now ws world key spec start m)
  started-Leaves spec start m unused different =
      let left = start_locked now world.fd world.polls key spec m in
      Spares-trans j m left.0 (update left.1 (greeted now ws start.message) left.0)
        (start_locked-Spares now world.fd world.polls key spec j m unused different)
        (update-Spares left.1 j (greeted now ws start.message) left.0
          (greeted-IsSame now ws start.message))

  start_agent-Leaves :
      (found : Option Bool) (m : Manager)
      → get m.next m.store ≡ none
      → (get_live key m).1 ≢ some j
      → Leaves j m (start_agent now ws world key mode agent project found m)
  start_agent-Leaves none m unused different = λ t found living. (t, found, living, refl)
  start_agent-Leaves (some found) m unused different =
      started-Leaves (spec_of key agent (args_for agent project) project) (plan mode agent found) m
        unused different

  choose_among-Leaves :
      (live : Option ℕ) (m : Manager)
      → get m.next m.store ≡ none
      → (live ≡ none → (get_live key m).1 ≢ some j)
      → Leaves j m (choose_among now ws world key mode agent project live m)
  choose_among-Leaves (some id) m unused different =
      update-Spares id j (greeted now ws _) m (greeted-IsSame now ws _)
  choose_among-Leaves none m unused different = elim (Bool-cases (agent == codes "shell")) [
    | inl shell ↦
        rw shell
          (started-Leaves (spec_of key agent [] project) shell_start m unused (different refl))
    | inr other ↦
        rw other
          (start_agent-Leaves (has_history world mode agent project) m unused (different refl))
  ]

  before-Leaves :
      (before m : Manager) (c : Chosen) → m.store ≡ before.store → Leaves j m c → Leaves j before c
  before-Leaves before m (unchecked m') same l =
      Spares-trans j before m m' (same_store-Spares j before m same) l
  before-Leaves before m (chosen m' id action extra) same l =
      Spares-trans j before m m' (same_store-Spares j before m same) l

  choose-Leaves :
      (m : Manager)
      → get m.next m.store ≡ none
      → ((mode == codes "new") ≡ false) ⊎ ((get_live key m).1 ≢ some j)
      → Leaves j m (choose now ws world key mode agent project m)
  unfolding choose
  choose-Leaves m unused spared =
      let m' : Manager = (get_live key m).0 in
      let unused' : get m'.next m'.store ≡ none =
        ap (λ n. get n m'.store) (get_live_next key m)
        ∙ ap (λ store. get m.next store) (get_live_store key m)
        ∙ unused in
      before-Leaves m m' _ (get_live_store key m) (elim (Bool-cases (mode == codes "new")) [
        | inl new ↦ rw new (
            choose_among-Leaves none m' unused' (λ e. elim spared [
              | inl old ↦ absurd (cc)
              | inr different ↦ λ p. different (sym (get_live_twice key m) ∙ p)
            ]))
        | inr old ↦ rw old (
            choose_among-Leaves (get_live key m).1 m' unused'
              (λ e p. absurd (let twice = get_live_twice key m in cc)))
      ])

-- The session is not the one that the caller may replace.
abbrev pub IsOther : Text → ℕ → Manager → Type 0
IsOther key j m = (t : Session) → get j m.store ≡ some t → is_live t ≡ true → t.project_name ≢ key

settle-Spares :
    (env : Env) (ws : ℕ) (q : Query) (project : Project) (conn : Conn) (j : ℕ) (m : Manager)
    (c : Chosen) (s : Server)
    → Leaves j m c
    → Spares j m (settle env ws q project conn c s).0.manager
settle-Spares env ws q project conn j m (unchecked m') s l = l
settle-Spares env ws q project conn j m (chosen m' id action extra) s l = l

module _ (env : Env) (ws : ℕ) (world : World) (q : Query) (conn : Conn) (s : Server) (j : ℕ)
    (unused : get s.manager.next s.manager.store ≡ none)
    (spared : ((q.mode == codes "new") ≡ false)
      ⊎ ((get_live (session_key q.project_name (effective_agent q)) s.manager).1 ≢ some j)) where
  open_project-Spares :
      (found : Option Project)
      → Spares j s.manager (open_project env ws world q conn found (checked env conn s)).0.manager
  open_project-Spares none = λ t found living. (t, found, living, refl)
  open_project-Spares (some project) = elim (Bool-cases (member (effective_agent q) agents)) [
    | inr unknown ↦ rw unknown (λ t found living. (t, found, living, refl))
    | inl known ↦ elim (Bool-cases (member q.mode ws_modes)) [
      | inr bad ↦ rw (known, bad) (λ t found living. (t, found, living, refl))
      | inl fine ↦
          let agent = effective_agent q in
          let key = session_key q.project_name agent in
          rw (known, fine)
            (settle-Spares env ws q project conn j s.manager
              (choose env.now ws world key q.mode agent project s.manager) (checked env conn s)
              (choose-Leaves env.now ws world key q.mode agent project j s.manager unused spared))
    ]
  ]

  open_gated-Spares : (g : Gate) → Spares j s.manager (open_gated env ws world q conn g s).0.manager
  open_gated-Spares broken = λ t found living. (t, found, living, refl)
  open_gated-Spares foreign = λ t found living. (t, found, living, refl)
  open_gated-Spares stranger = λ t found living. (t, found, living, refl)
  open_gated-Spares welcome = open_project-Spares (find_project q.project_name s.config.projects)

reachable-IsSingle :
    (grace idle : ℕ) (ops : List Op) (m : Manager) → m ≡ run ops (init grace idle) → IsSingle m
reachable-IsSingle grace idle ops m same =
    subst IsSingle (sym same) (run-IsSingle ops (init grace idle) (init-IsSingle grace idle))

-- Opening a terminal ends no session but the one that the caller asks to replace. Whatever has
-- happened since the server began: a session that is alive and not being terminated stays so, if the
-- mode is not `new` or the session's name is not the key of the caller's project and agent.
pub terminal_open-Spares :
    (env : Env) (ws : ℕ) (world : World) (q : Query) (conn : Conn) (s : Server) (j : ℕ)
    (grace idle : ℕ) (ops : List Op)
    → s.manager ≡ run ops (init grace idle)
    → ((q.mode == codes "new") ≡ false)
      ⊎ IsOther (session_key q.project_name (effective_agent q)) j s.manager
    → Spares j s.manager (terminal_open env ws world q conn s).0.manager
unfolding terminal_open
terminal_open-Spares env ws world q conn s j grace idle ops reached spared t found living =
    let i = reachable-IsSingle grace idle ops s.manager reached in
    let key = session_key q.project_name (effective_agent q) in
    open_gated-Spares env ws world q conn s j (i.unused s.manager.next (omega arith))
      (elim spared [
        | inl old ↦ inl old
        | inr other ↦ inr (other_name key j s.manager t i found (other t found living))
      ])
      (gate env conn s) t found living

end_agent-Spares :
    (polls : List Bool) (project agent : Text) (conn : Conn) (s : Server) (j : ℕ)
    → (get_live (session_key project agent) s.manager).1 ≢ some j
    → Spares j s.manager (end_agent polls project agent conn s).0.manager
end_agent-Spares polls project agent conn s j different = elim (Bool-cases (member agent agents)) [
  | inr bad ↦ rw bad (λ t found living. (t, found, living, refl))
  | inl fine ↦ rw fine (end-Spares polls (session_key project agent) j s.manager different)
]

end_project-Spares :
    (polls : List Bool) (project agent : Text) (conn : Conn) (found : Option Project) (s : Server)
    (j : ℕ)
    → (get_live (session_key project agent) s.manager).1 ≢ some j
    → Spares j s.manager (end_project polls project agent conn found s).0.manager
end_project-Spares polls project agent conn none s j different =
    λ t found living. (t, found, living, refl)
end_project-Spares polls project agent conn (some p) s j different =
    end_agent-Spares polls project agent conn s j different

end_gated-Spares :
    (env : Env) (polls : List Bool) (project agent : Text) (conn : Conn) (g : Gate) (s : Server)
    (j : ℕ)
    → (get_live (session_key project agent) s.manager).1 ≢ some j
    → Spares j s.manager (end_gated env polls project agent conn g s).0.manager
end_gated-Spares env polls project agent conn broken s j different =
    λ t found living. (t, found, living, refl)
end_gated-Spares env polls project agent conn foreign s j different =
    λ t found living. (t, found, living, refl)
end_gated-Spares env polls project agent conn stranger s j different =
    λ t found living. (t, found, living, refl)
end_gated-Spares env polls project agent conn welcome s j different =
    end_project-Spares polls project agent conn (find_project project s.config.projects)
      (checked env conn s) j different

-- Ending a session ends no other. Whatever has happened since the server began, a session that is
-- alive and not being terminated stays so if its name is not the key of the project and the agent.
pub end_session-Spares :
    (env : Env) (polls : List Bool) (project agent : Text) (conn : Conn) (s : Server) (j : ℕ)
    (grace idle : ℕ) (ops : List Op)
    → s.manager ≡ run ops (init grace idle)
    → IsOther (session_key project agent) j s.manager
    → Spares j s.manager (end_session env polls project agent conn s).0.manager
unfolding end_session
end_session-Spares env polls project agent conn s j grace idle ops reached other t found living =
    let i = reachable-IsSingle grace idle ops s.manager reached in
    end_gated-Spares env polls project agent conn (gate env conn s) s j
      (other_name (session_key project agent) j s.manager t i found (other t found living)) t found
      living
