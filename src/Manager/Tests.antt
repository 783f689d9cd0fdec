-- ===== src/Manager/Tests.antt =====
-- Runs of the session manager at concrete inputs.
use wterm.Prelude.{ℕ, ◌≡◌, refl, true, none, some, List, [], ◌∷◌, Text, codes, nat_key, list_key}
use wterm.OrderedDict.{get, put, remove}
use wterm.Session.{Session, Spec, create}
use wterm.Session.Lifecycle.{
  spawn, cancel_grace, terminate, cleanup_fd, escalate, wait_reaped, attach, detach,
  notify_and_terminate,
}
use wterm.Session.Output.{
  enqueue_outbound, stop_outbound_writer, pause_pty_reader, resume_pty_reader, writer_end,
}
use wterm.Manager.{
  Manager, init, update, get_live, start_locked, end, expire_grace, grace_fires, Op, starts, ends,
  grace_over, attaches, detaches, step, run,
}
use wterm.Manager.Frames.{is_live}
use wterm.Manager.Refinement.{view, spec_run, run-view}
use wterm.Manager.Live.{one_live, live_found}

abbrev shell : Spec
shell = record {
  project_name = codes "shell";
  cwd = codes "/srv";
  grace_seconds = 0;
  idle_seconds = 0;
  ssh = none;
  agent = codes "shell";
  command_args = [];
  project_env = [];
}

abbrev key : Text
key = codes "web"

-- A session is started, attached and left; the next start replaces it; the old timer fires.
abbrev history : List Op
history =
    starts 0 7 [] key shell
    ∷ attaches 1 100 0
    ∷ detaches 100 0
    ∷ starts 5 8 (true ∷ []) key shell
    ∷ attaches 6 101 1
    ∷ grace_over (true ∷ []) key 0
    ∷ []

abbrev before : Manager
before = run history (init 30 600)

abbrev current : Session
current =
    (attach 6 101 (
      spawn 5 8
        (create 5 (record shell { project_name = key; grace_seconds = 30; idle_seconds = 600 })))).0

stored : get 1 before.store ≡ some current
unfolding run step start_locked get_live init update get put remove spawn create attach detach
    terminate cleanup_fd escalate wait_reaped cancel_grace grace_fires expire_grace enqueue_outbound
    stop_outbound_writer pause_pty_reader resume_pty_reader writer_end
stored = refl

living : is_live current ≡ true
unfolding spawn create attach cancel_grace enqueue_outbound
living = refl

one_live_example : ◌≡◌ {A = ℕ} 1 1
one_live_example = one_live 30 600 history 1 1 current current stored stored living living refl

live_found_example : get_live current.project_name before ≡ (before, some 1)
live_found_example = live_found 30 600 history 1 current stored living

abbrev ending : Manager
ending = (end (true ∷ []) key before).0

abbrev ended_session : Session
ended_session =
    (notify_and_terminate (codes "사용자 요청으로 세션을 종료했습니다.") 4409 (codes "사용자가 종료함") (true ∷ [])
      (cancel_grace current)).0

ended_stored : get 1 ending.store ≡ some ended_session
unfolding run step start_locked get_live init update get put remove spawn create attach detach
    terminate cleanup_fd escalate wait_reaped cancel_grace grace_fires expire_grace enqueue_outbound
    stop_outbound_writer pause_pty_reader resume_pty_reader writer_end end notify_and_terminate
ended_stored = refl

ended_name : ended_session.project_name ≡ key
unfolding spawn create attach cancel_grace enqueue_outbound notify_and_terminate terminate
    cleanup_fd
ended_name = refl

attached_again : current.websocket ≡ some 101
unfolding spawn create attach cancel_grace enqueue_outbound
attached_again = refl

-- After that history a second key is started, and the first one is ended.
abbrev requests : List Op
requests = starts 9 9 [] (codes "api") shell ∷ ends (true ∷ []) key ∷ []

run-view_example : view (run requests before) ≡ spec_run requests (view before)
run-view_example = run-view 30 600 history requests (refl, (refl, tt))

started_second : (get_live (codes "api") (run requests before)).1 ≡ some 2
unfolding run step start_locked get_live init update get put remove spawn create attach detach
    terminate cleanup_fd escalate wait_reaped cancel_grace grace_fires expire_grace enqueue_outbound
    stop_outbound_writer pause_pty_reader resume_pty_reader writer_end end notify_and_terminate
started_second = refl
