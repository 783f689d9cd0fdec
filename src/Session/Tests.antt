-- ===== src/Session/Tests.antt =====
-- Runs of a session at concrete inputs.
use wterm.Prelude.{
  map, Text, ltb, if◌then◌else◌, list_key, ℕ, ◌≡◌, refl, true, false, not, none, some, List, [],
  ◌∷◌, ◌++◌, arith, take_last, codes, nat_key, is_some, encode, encode_char,
}
use wterm.Prelude.Int.{pos, negsuc}
use wterm.Session.Connection.{Move, joins, leaves, works, move, run, CanRun, IsSound, spawned}
use wterm.Session.Connection.History.{run-IsSound, run-replay}
use wterm.OrderedDict.{OrderedDict, put}
use wterm.Session.Command.{command}
use wterm.Session.Child.{child, child_env, login_shell, update, executes, exits}
use wterm.Session.Closing.{close_attached}
use wterm.Session.Closing.Drained.{IsWithout, close_attached-IsWithout}
use wterm.Session.Closing.Farewell.{any_farewell, close_attached-farewell}
use wterm.Session.{Session, Spec, create, buffer_limit, is_open}
use wterm.Session.History.{empty, is_among, has_codex_history}
use wterm.Session.History.Staleness
use wterm.Session.History.Staleness.{Query}
use wterm.Session.Frame.{status_message, escapes, escape}
use wterm.Session.Input.{wrote, would_block, write_input, flush_write, drain, resize}
use wterm.Session.Input.Stream
use wterm.Session.Input.Stream.{run-stream, types, writable, all_accepted, IsFineEvent}
use wterm.Session.Input.Bounds.{IsInput, write_input-IsInput}
use wterm.Session.Output.{ReadResult, got, nothing_yet, enqueue_outbound}
use wterm.Session.Output.Replay.{output_of, read_all, read_all-buffer}
use wterm.Session.Output.Pressure
use wterm.Session.Output.Balance.{IsBalanced}
use wterm.Session.Output.Pressure.{Event, reads, takes, sends, step-IsBalanced}
use wterm.Session.Output.Stream.{IsAttached, on_the_way, delivered, produced, step-on_the_way}
use wterm.Session.Lifecycle.{spawn, attach, cancel_grace, queue_close}
use wterm.Session.Lifecycle.Attachment.{IsConnected}

abbrev shell : Spec
shell = record {
  project_name = codes "shell";
  cwd = codes "/srv";
  grace_seconds = 30;
  idle_seconds = 600;
  ssh = none;
  agent = codes "shell";
  command_args = [];
  project_env = [];
}

-- A session with a PTY, and a part of an input still to write.
abbrev running : Session
running = record (spawn 0 7 (create 0 shell)) { write_buffer = 1 ∷ []; writer_registered = true }

opened : is_open running ≡ true
unfolding spawn create
opened = refl

abbrev typing : List Stream.Event
typing = types 5 (wrote 2 ∷ would_block ∷ []) (codes "ls") ∷ writable (wrote 1 ∷ []) ∷ []

run-stream_example :
    (Stream.run typing running).1 ++ (Stream.run typing running).0.write_buffer
    ≡ running.write_buffer ++ all_accepted typing running
run-stream_example = run-stream typing running ((tt, (tt, tt)), ((tt, tt), tt))

written : (Stream.run typing running).1 ≡ 1 ∷ codes "ls"
unfolding Stream.run Stream.step write_input flush_write drain encode encode_char spawn create
written = refl

running-IsInput : IsInput running
running-IsInput = record { bounded = omega arith; watched = refl }

write_input-IsInput_example : IsInput (write_input 5 [] (codes "ls") running).0
write_input-IsInput_example = write_input-IsInput 5 [] (codes "ls") running running-IsInput

resized : resize (pos 100000) (negsuc 4) running ≡ some (0, 65535)
unfolding resize spawn create
resized = refl

abbrev output : List ReadResult
output = got (1 ∷ 2 ∷ []) ∷ nothing_yet ∷ got (3 ∷ []) ∷ []

read_all-buffer_example :
    (read_all 3 output running).buffer ≡ take_last buffer_limit (running.buffer ++ output_of output)
unfolding spawn create
read_all-buffer_example = read_all-buffer 3 output running (omega arith)

-- A client is attached.
abbrev attached : Session
attached = (attach 1 100 running).0

running-IsBalanced : IsBalanced running
unfolding spawn create
running-IsBalanced = record {
  counted = omega arith;
  bounded = omega arith;
  room = λ _ _. omega arith;
  waiting = λ p. absurd (cc);
  watched = λ _ _ _ _. refl;
  quiet = λ p. absurd (cc);
}

running-IsConnected : IsConnected running
unfolding spawn create
running-IsConnected = record {
  balanced = running-IsBalanced;
  owned = λ ws e. absurd (cc);
  ended = λ _. (refl, refl);
  shown = omega arith;
}

writer : attached.out_writer_ws ≡ some 100
unfolding attach spawn create cancel_grace enqueue_outbound
writer = refl

queue_there : is_some attached.out_queue ≡ true
unfolding attach spawn create cancel_grace enqueue_outbound
queue_there = refl

-- The writer takes the close and sends it.
abbrev closing : List Event
closing = takes ∷ sends true ∷ []

close_attached-farewell_example :
    (close_attached (map works closing) 100 4401 (codes "expired") attached).1
    ≡ not (any_farewell closing (queue_close 4401 (codes "expired") attached))
close_attached-farewell_example =
    close_attached-farewell closing 100 4401 (codes "expired") attached writer queue_there
      (tt, (tt, tt))

attached-IsAttached : IsAttached attached
unfolding attach spawn create cancel_grace enqueue_outbound
attached-IsAttached = record { present = refl; writing = refl; open_end = λ item e. absurd (cc) }

step-on_the_way_example :
    let e = reads 2 (got (1 ∷ 2 ∷ [])) in
    delivered e attached ++ on_the_way (Pressure.step e attached)
    ≡ on_the_way attached ++ produced e
step-on_the_way_example =
    step-on_the_way (reads 2 (got (1 ∷ 2 ∷ []))) attached tt attached-IsAttached

status_text :
    status_message (0xd800 ∷ 34 ∷ []) ≡ codes "{\"type\": \"status\", \"message\": \"\\ud800\\\"\"}"
unfolding status_message escapes escape
status_text = refl

-- A path is looked for again after half a minute.
abbrev disk : ℕ → List Text
disk t = if ltb t 50000 then [] else codes "/srv/web" ∷ []

abbrev asked : List Query
asked = (10000, 10200, [], codes "/srv/web") ∷ (30000, 30200, [], codes "/srv/web") ∷ []

found_again :
    (has_codex_history 60000 60300
      (codes "/srv/web" ∷ [])
      (codes "/srv/web")
      (Staleness.run asked empty)).1
    ≡ true
unfolding has_codex_history is_among
found_again = refl

-- What the server's environment says of the terminal is not what the child sees.
abbrev environ : OrderedDict Text Text
environ = (codes "HOME", codes "/root") ∷ (codes "TERM", codes "dumb") ∷ []

local_child :
    child true true (login_shell none (some (codes "/bin/zsh"))) [] environ running
    ≡ executes
        (some (codes "/srv"))
        (codes "/bin/zsh" ∷ codes "-l" ∷ [])
        ((codes "HOME", codes "/root") ∷ (codes "TERM", codes "xterm-256color") ∷ [])
unfolding child child_env login_shell update command put spawn create
local_child = refl

lost_child : child false true (codes "/bin/zsh") [] environ running ≡ exits 127
unfolding child spawn create
lost_child = refl

-- A client joins, output arrives, and a second client takes over.
abbrev moves : List Move
moves = joins 1 100 ∷ works (reads 2 (got (1 ∷ 2 ∷ []))) ∷ joins 3 101 ∷ leaves 100 ∷ []

watched : (move (joins 1 100) (spawned 0 7 shell)).reader_registered ≡ true
unfolding move attach spawn create cancel_grace enqueue_outbound
watched = refl

has_fd : is_some (move (joins 1 100) (spawned 0 7 shell)).master_fd ≡ true
unfolding move attach spawn create cancel_grace enqueue_outbound
has_fd = refl

can_run : CanRun moves (spawned 0 7 shell)
can_run = (tt, ((watched, has_fd, omega arith), (tt, (tt, tt))))

run-IsSound_example : IsSound (run moves (spawned 0 7 shell))
run-IsSound_example = run-IsSound moves 0 7 shell can_run

run-replay_example :
    let before = run moves (spawned 0 7 shell) in
    let (after, closed) = attach 4 102 before in
    (on_the_way after ≡ before.buffer)
    × (after.websocket ≡ some 102)
    × (after.grace_task ≡ false)
    × (closed ≡ before.websocket)
run-replay_example = run-replay moves 0 7 4 102 shell can_run

-- A session with a client.
abbrev joined : Session
joined = run (joins 1 100 ∷ []) (spawned 0 7 shell)

joined_owner : joined.out_writer_ws ≡ some 100
unfolding move attach spawn create cancel_grace enqueue_outbound
joined_owner = refl

-- Another client joins while the close waits.
close_attached-IsWithout_example :
    IsWithout 100
      (close_attached (works takes ∷ joins 2 101 ∷ []) 100 4401 (codes "expired") joined).0
close_attached-IsWithout_example =
    close_attached-IsWithout (works takes ∷ joins 2 101 ∷ []) 100 4401 (codes "expired") joined
      joined_owner (run-IsSound (joins 1 100 ∷ []) 0 7 shell (tt, tt)) (tt, (tt, tt))
