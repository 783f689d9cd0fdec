-- ===== src/Startup/Tests.antt =====
-- Runs of a start at concrete inputs.
use wterm.Prelude.{
  all_chars, read_onto, ℕ, zero, suc, ◌+◌, ◌*◌, ◌≡◌, refl, true, false, Option, none, some, List,
  [], ◌∷◌, All, arith, codes, if◌then◌else◌, ltb,
}
use wterm.Json
use wterm.Json.{Json}
use wterm.Url
use wterm.Config.{Config}
use wterm.Config.Load.{Outside, mismatch, are_octets, load_config}
use wterm.Startup.Main.{listener, listeners, main, IsGuarded, main-IsGuarded}
use wterm.Startup.PidFile.{
  Process, serving, refused, World, init, Move, acts, removes, step, act, release, Reach, begin,
  next,
}
use wterm.Startup.OneServer.{one_server, release-path}
use wterm.Startup.Claiming.{run, Spared, is_settled, claim-is_settled}
use wterm.Startup.HostAddress.{
  Bind, bound, not_available, Waited, came, wait_for_host_address, host_address_ready, any_ready,
  wait_loop, IsWait, wait_for_host_address-IsWait,
}

-- The first server starts: it tries, opens, locks, checks and writes.
abbrev first : World
first = step (acts 1) (step (acts 1) (step (acts 1) (step (acts 1) (step (acts 1) init))))

first_reached : Reach first
first_reached =
    next (acts 1) _
      (next (acts 1) _ (next (acts 1) _ (next (acts 1) _ (next (acts 1) init begin tt) tt) tt) tt)
      tt

first_serves : first.process 1 ≡ serving 0
unfolding step act
first_serves = refl

one_server_example : (◌≡◌ {A = ℕ} 1 1) × (first.path ≡ some 0) × (first.content 0 ≡ some 1)
one_server_example = one_server first 1 1 0 0 first_reached first_serves first_serves

release-path_example :
    (first.path ≡ some 0)
    × ((release 1 first).path ≡ none)
    × ((release 1 first).process 1 ≡ Process.released 0)
release-path_example = release-path first 1 0 first_reached first_serves

-- A second one finds the lock.
abbrev second_start : List Move
second_start = acts 2 ∷ acts 2 ∷ acts 2 ∷ []

second_refused : (run second_start first).process 2 ≡ refused
unfolding run step act
second_refused = refl

-- If the file is removed under a server, as the model forbids and the scripts do not lock against, a
-- second server comes up beside it.
two_servers :
    let w = run (removes ∷ acts 2 ∷ acts 2 ∷ acts 2 ∷ acts 2 ∷ acts 2 ∷ []) first in
    (w.process 1 ≡ serving 0) × (w.process 2 ≡ serving 1)
unfolding run step act
two_servers = (refl, refl)

-- The file is replaced twice while the process starts.
abbrev again : ℕ → List Move → List Move
again zero moves = moves
again (suc n) moves = acts 3 ∷ again n moves

abbrev disturbed : List Move
disturbed = again 2 (removes ∷ again 4 (removes ∷ again 12 []))

again-Spared : (n : ℕ) (moves : List Move) → All (Spared 3) moves → All (Spared 3) (again n moves)
again-Spared zero moves h = h
again-Spared (suc n) moves h = (tt, again-Spared n moves h)

unkilled : All (Spared 3) disturbed
unkilled =
    again-Spared 2 (removes ∷ again 4 (removes ∷ again 12 []))
      (tt, again-Spared 4 (removes ∷ again 12 []) (tt, again-Spared 12 [] tt))

claim-is_settled_example : is_settled ((run disturbed init).process 3) ≡ true
claim-is_settled_example = claim-is_settled 3 disturbed init refl unkilled (omega arith)

-- The address comes up in the third round.
abbrev answers : ℕ → Option (List Bind)
answers n = if ltb n 3 then some (not_available ∷ []) else some (bound ∷ [])

abbrev clock : ℕ → ℕ
clock n = 500 + n * 2000

wait_for_host_address-IsWait_example :
    (r : Waited) × (wait_for_host_address clock answers ≡ some r) × IsWait clock answers r
wait_for_host_address-IsWait_example = wait_for_host_address-IsWait clock answers (λ n. omega arith)

came_up : wait_for_host_address clock answers ≡ some (came 3)
unfolding wait_for_host_address wait_loop host_address_ready any_ready
came_up = refl

abbrev world : Outside
world = record {
  hash_check = λ t. mismatch;
  directory = λ path. some (some path);
  is_loopback_v6 = λ t. false;
  checks = record { bracketed_fine = λ t. true; compatible = λ t. true };
}

abbrev file : Json
file = Json.object (Json.member (codes "host") (Json.str (codes "127.0.0.5")) Json.end)

abbrev loaded : Config
loaded = record {
  host = codes "127.0.0.5";
  port = 8877;
  uds = none;
  grace_seconds = 60;
  idle_seconds = 0;
  password_hash = none;
  allowed_origins = [];
  tls_certfile = none;
  tls_keyfile = none;
  allow_insecure_tcp = false;
  projects = [];
}

loads : load_config world file ≡ some loaded
unfolding load_config Url.lower_char Url.startswith are_octets Url.split_at all_chars read_onto
loads = refl

main-IsGuarded_example :
    All (IsGuarded world loaded) (listeners (main 42 true true false loaded))
    × (listeners (main 42 true true false loaded) ≡ listener loaded ∷ [])
main-IsGuarded_example = main-IsGuarded world file loaded 42 true true false loads
