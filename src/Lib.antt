-- ===== src/Lib.antt =====
-- wterm is a web terminal: a server that runs agents and shells on pseudo terminals and shows each of
-- them to one browser at a time. This library models the core of the server in server/ and proves
-- what holds of it.
--
-- The parts of the program. server/session.py holds `Session`, an agent on a PTY with its replay
-- buffer, its input buffer, the queue of the socket's only writer and its timers, and
-- `SessionManager`, which keeps at most one live session for each key. server/auth.py holds
-- `AuthManager`: tokens, the login with its back-off, and the sockets that are closed when a token is
-- revoked; it closes a socket through the session that writes to it. server/audit.py writes the
-- audit lines of both. server/config.py reads the configuration, and server/project_status.py keeps
-- the list of projects that browsers watch. server/main.py brings them together: its routes check the
-- origin of a request and its cookie, find the project, and start, attach and end sessions through
-- the manager; and its start claims the PID file and waits for the address of the host.
--
-- The files.
--   Prelude: Boolean tests, lists, texts, integers, decimal numbers and UTF-8.
--   OrderedDict: Python's ordered dictionaries as lists of entries, with their laws.
--   Json: the values that `json.loads` gives.
--   Audit: `audit` and `audit_throttled` of server/audit.py. `Audit.fold_call` is the table update of
--     `audit_throttled`, and `Audit.value_text` is `_value`.
--   Auth: the state of `AuthManager`, tokens and sockets. Auth/Backoff has
--     `_login_block_remaining` and `_record_login_failure`, Auth/Login has `login` and `logout`, and
--     Auth/Steps, Auth/Begun, Auth/Handed and Auth/History have the histories of all operations.
--   Session: the state of `Session`. Session/Input has `write_input`, `_flush_write` and `resize`,
--     Session/Output the reader and the writer, Session/Lifecycle `spawn`, `_handle_exit`,
--     `terminate`, `attach`, `detach` and the idle watch, Session/Frame the JSON of a status,
--     Session/Command the argument vector of `_command`, with a reader of shell words,
--     Session/History the look-ups of earlier conversations, Session/Closing `close_attached` with
--     `_wait_outbound_close`, Session/Child what the child of `spawn` executes, and
--     Session/Connection the histories of the sockets of one session.
--   Config: `load_config` of server/config.py. Config has the checks of the fields, Config/Origins
--     `_allowed_origins`, Config/Load the rest, Config/Names and Config/Accepted what is accepted.
--   Url: `urlsplit` and the parts of an authority, for server/main.py and server/config.py.
--   Routes: server/main.py. Routes has `origin_allowed`, `_is_secure` and the response headers,
--     Routes/Server the state that the routes share and the ones that only wrap a component,
--     Routes/Ending `end_session`, Routes/Terminal `terminal_ws` up to its message loop (the
--     transition under the lock of a key is `choose`), Routes/Messages the loop (`listen`) and
--     its clean-up (`leave`), and Routes/Watching `project_status_ws`.
--   Startup: server/main.py. Startup/PidFile has `_claim_pid_file` (a process takes its next system
--     call by `act`) and `_release_pid_file`, Startup/HostAddress `_wait_for_host_address`, and
--     Startup/Main `main`, what it does in order and what it listens on.
--   Status: `ProjectStatusHub` of server/project_status.py, and Status/Snapshot its `snapshot`.
--   Manager: `SessionManager`, with sessions in a store under numbers, and the histories of a server.
-- `shlex.quote` and `shlex.join` of the standard library are written out in Session/Command.
-- A function has the name of the Python one without its leading underscore. An operation takes the
-- object's state and gives the new one, with what it returns, sends or closes.
--
-- What is an argument. The clock, in milliseconds (the floats of the program hold these times without
-- loss); the answers of the kernel to a read, a write and a poll for a child; the new token of
-- `secrets`; SHA-256; the Argon2 verification; and Python's `str` of a JSON value that is no text.
-- So are the resolver and `bind`, `Path.resolve` with `is_dir`, Python's parser of IPv6 addresses, its
-- checks of a bracketed or non-ASCII authority, and the answers of the look-ups for earlier
-- conversations. The power 2.0 ** n is a number up to the exponent 1023, and an OverflowError beyond.
--
-- Awaits. An operation of a session that awaits is one step, and so is an operation of the manager
-- that holds the lock of its key from end to end. `shutdown` takes no lock and is one step here all the
-- same, although timers can run in between. `login` is cut at its verification: in the histories of
-- Auth/Steps, other operations run between `login_begin` and `login_finish`. The writer of a socket is
-- cut at each of its awaits: `writer_take` and `writer_done`. So is the task of the hub: `wake` or
-- `time_out`, `compute` or `fail`, and `finish`. A snapshot is cut at its look-ups, and the wait of a close
-- at every step of the output side and every socket that joins or leaves.
--
-- The claim of the PID file is cut at each system call, and the calls of several processes run in any
-- order.
--
-- Fuel. `decimal` prints with one more division than the number, which is enough: its digits are
-- read back. The wait for the host's address has 91 rounds, one more than its 180 seconds hold
-- sleeps of two seconds; that this is enough is proved. The claim of the PID file is a relation on
-- worlds, and its steps are counted. All other recursion is structural.
--
-- Not modelled: the library calls for TLS and the log handlers in server/main.py; what the manager
-- announces to the hub during a request; the waits of `_handle_exit` and `_notify_and_terminate` for a
-- close frame, which Session/Closing has by themselves; the semaphore of the login, which only puts its
-- verifications in an order; `str.lower` beyond Latin-1; and the browser's code.
pub mod Audit
pub mod Auth
pub mod Config
pub mod Json
pub mod Manager
pub mod OrderedDict
pub mod Prelude
pub mod Routes
pub mod Session
pub mod Startup
pub mod Status
pub mod Url
