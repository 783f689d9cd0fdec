-- ===== src/Status/Snapshot.antt =====
-- server/project_status.py, `snapshot`: what browsers see of each project. The look-ups of earlier
-- conversations are arguments, and so is what the manager does while one of them is awaited.
use wterm.Prelude.{
  All, ℕ, ◌≡◌, ◌∙◌, Bool, true, Option, List, [], ◌∷◌, Text, codes, is_some, if◌then◌else◌,
}
use wterm.Config.{Project, truthy}
use wterm.Manager.{Manager, Op, looks, get_live, run}
use wterm.Manager.Refinement.{look-view, Table, is_request, spec_run}
use wterm.Routes.Ending.{session_key}

pub record Entry : Type 0 where
  pub name : Text
  pub path : Text
  pub ssh : Option Text
  pub live : Bool
  pub codex_live : Bool
  pub shell_live : Bool
  pub has_history : Bool
  pub codex_has_history : Bool

module _ (latest_session_id : Text → Option Text) (has_codex_history : Text → Bool) where
  abbrev pub entry_of : Project → Bool → Bool → Bool → Entry
  entry_of project claude codex shell = record {
    name = project.name;
    path = project.path;
    ssh = project.ssh;
    live = claude;
    codex_live = codex;
    shell_live = shell;
    has_history = if truthy project.ssh then true else is_some (latest_session_id project.path);
    codex_has_history = if truthy project.ssh then true else has_codex_history project.path;
  }

  -- One round of the loop: a look at a dead session forgets it.
  abbrev pub snapshot_entry : Project → Manager → Manager × Entry
  snapshot_entry project m =
      let (m1, claude) = get_live (session_key project.name (codes "claude")) m in
      let (m2, codex) = get_live (session_key project.name (codes "codex")) m1 in
      let (m3, shell) = get_live (session_key project.name (codes "shell")) m2 in
      (m3, entry_of project (is_some claude) (is_some codex) (is_some shell))

  -- What other tasks do while the history of a project on this machine is awaited.
  abbrev pub gap : Project → List (List Op) → List Op × List (List Op)
  gap project [] = ([], [])
  gap project (ops ∷ gaps) = if truthy project.ssh then ([], ops ∷ gaps) else (ops, gaps)

  -- `snapshot`, with the operations of the manager in each of its awaits
  unfoldable pub snapshot : List Project → List (List Op) → Manager → Manager × List Entry
  unfolding get_live
  snapshot [] gaps m = (m, [])
  snapshot (project ∷ projects) gaps m =
      let (m', entry) = snapshot_entry project m in
      let (ops, gaps') = gap project gaps in
      let (m'', entries) = snapshot projects gaps' (run ops m') in (m'', entry ∷ entries)

  -- The entry of a project by what is live under each key.
  abbrev pub seen : (Text → Option ℕ) → Project → Entry
  seen live project =
      entry_of project (is_some (live (session_key project.name (codes "claude"))))
        (is_some (live (session_key project.name (codes "codex"))))
        (is_some (live (session_key project.name (codes "shell"))))

  snapshot_entry-view :
      (project : Project) (k : Text) (m : Manager)
      → (get_live k (snapshot_entry project m).0).1 ≡ (get_live k m).1
  snapshot_entry-view project k m =
      let claude = session_key project.name (codes "claude") in
      let codex = session_key project.name (codes "codex") in
      let shell = session_key project.name (codes "shell") in
      let m1 : Manager = (get_live claude m).0 in
      let m2 : Manager = (get_live codex m1).0 in
      look-view shell k m2 ∙ look-view codex k m1 ∙ look-view claude k m

  -- The entry of each project by what is live when its turn comes.
  abbrev pub seen_each : List Project → List (List Op) → Manager → List Entry
  seen_each [] gaps m = []
  seen_each (project ∷ projects) gaps m =
      let (ops, gaps') = gap project gaps in
      seen (λ k. (get_live k m).1) project
      ∷ seen_each projects gaps' (run ops (snapshot_entry project m).0)

  -- The same by the map of live sessions that the manager promises.
  abbrev pub promised : List Project → List (List Op) → Table → Table × List Entry
  promised [] gaps t = (t, [])
  promised (project ∷ projects) gaps t =
      let (ops, gaps') = gap project gaps in
      let (t', entries) = promised projects gaps' (spec_run ops t) in
      (t', seen t.live project ∷ entries)

  abbrev pub AreRequests : List (List Op) → Type 0
  AreRequests gaps = All (λ ops. All (λ op. is_request op ≡ true) ops) gaps

  -- The looks of a round.
  abbrev looks_at : Project → List Op
  looks_at project =
      looks (session_key project.name (codes "claude"))
      ∷ looks (session_key project.name (codes "codex"))
      ∷ looks (session_key project.name (codes "shell"))
      ∷ []
