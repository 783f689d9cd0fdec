-- ===== src/Status/Tests.antt =====
-- Runs of the hub at concrete inputs.
use wterm.Prelude.{◌≡◌, refl, Bool, true, false, Option, none, List, [], ◌∷◌, Text, codes}
use wterm.Config.{Project}
use wterm.Session.{Spec}
use wterm.Manager.{Manager, Op, starts, ends, init, run as run_manager}
use wterm.Status.{start, changed, add, contains, wake, time_out, compute, fail, finish, drop_all}
use wterm.Status.Freshness.{
  Event, changes, adds, wakes, times_out, computes, fails, finishes, step, run, is_told,
}
use wterm.Status.Silence.{is_sent}

-- A change comes while a snapshot is computed.
abbrev events : List Event
events = wakes ∷ changes ∷ computes (codes "[]") ∷ finishes [] ∷ []

late_change :
    (is_told 1 false events (add 1 start) ≡ true) × ((run events (add 1 start)).dirty ≡ true)
unfolding run step start changed add contains wake compute finish drop_all
late_change = (refl, refl)

-- A snapshot that raises loses the news: the second subscriber is sent nothing.
abbrev lost : List Event
lost =
    wakes
    ∷ computes (codes "[]")
    ∷ finishes []
    ∷ adds 2
    ∷ wakes
    ∷ fails
    ∷ times_out
    ∷ computes (codes "[]")
    ∷ []

lost_news : (is_sent 2 lost (add 1 start) ≡ false) × ((run lost (add 1 start)).dirty ≡ false)
unfolding run step start changed add contains wake time_out compute fail finish drop_all
lost_news = (refl, refl)

abbrev web : Project
web = record { name = codes "web"; path = codes "/srv/web"; ssh = none; args = []; env = [] }

abbrev shell : Spec
shell = record {
  project_name = codes "x";
  cwd = codes "/";
  grace_seconds = 0;
  idle_seconds = 0;
  ssh = none;
  agent = codes "shell";
  command_args = [];
  project_env = [];
}

abbrev manager : Manager
manager = run_manager (starts 0 7 [] (codes "web#shell") shell ∷ []) (init 60 0)

abbrev no_files : Text → Option Text
no_files path = none

abbrev no_codex : Text → Bool
no_codex path = false

-- The shell ends while the history of the first project is looked up.
abbrev gaps : List (List Op)
gaps = (ends (true ∷ []) (codes "web#shell") ∷ []) ∷ []
