-- ===== src/Session.antt =====
-- server/session.py, class `Session`: one agent on a PTY and the WebSocket that is attached to it.
-- Bytes are lists of numbers. A file descriptor and a WebSocket are numbers, and -1 is `none`.
-- What the kernel or a client answers is an argument of the operation.
pub mod Command
pub mod Frame
pub mod Input
pub mod Output
pub mod Lifecycle
pub mod History
pub mod Closing
pub mod Child
pub mod Connection
mod Tests
use wterm.Prelude.{
  ℕ, ◌*◌, Bool, true, false, Option, none, some, List, [], ◌∷◌, ◌++◌, Text, is_some, ◌&&◌,
}
use wterm.OrderedDict.{OrderedDict}

abbrev pub Bytes : Type 0
Bytes = List ℕ

abbrev pub buffer_limit : ℕ
buffer_limit = 256 * 1024

abbrev pub write_buffer_limit : ℕ
write_buffer_limit = 1024 * 1024

abbrev pub read_chunk : ℕ
read_chunk = 65536

abbrev pub output_high_watermark : ℕ
output_high_watermark = 1024 * 1024

abbrev pub output_low_watermark : ℕ
output_low_watermark = 512 * 1024

-- `_Outbound`. The future of an item is the business of its waiter, and is not kept here.
pub data Outbound : Type 0 where
  bytes : Bytes → Outbound
  text : Text → Outbound
  close : ℕ → Text → Outbound

-- What a session is started with.
pub record Spec : Type 0 where
  pub project_name : Text
  pub cwd : Text
  pub grace_seconds : ℕ
  pub idle_seconds : ℕ
  pub ssh : Option Text
  pub agent : Text
  pub command_args : List Text
  pub project_env : OrderedDict Text Text

pub record Session : Type 0 where
  pub spec : Spec
  pub open spec use *
  pub master_fd : Option ℕ
  pub alive : Bool
  pub terminating : Bool
  pub buffer : Bytes
  pub websocket : Option ℕ
  pub grace_task : Bool
  pub idle_task : Bool
  pub last_activity : ℕ
  pub write_buffer : Bytes
  pub writer_registered : Bool
  pub input_dropped : Bool
  pub reader_registered : Bool
  pub pty_reader_paused : Bool
  pub out_queue : Option (List Outbound)
  -- the local `current` of the writer task: the item that is being sent
  pub in_flight : Option Outbound
  pub out_writer_ws : Option ℕ
  pub out_pending_bytes : ℕ
  pub exit_task : Bool

-- Session(...)
unfoldable pub create : ℕ → Spec → Session
create now spec = record {
  spec = spec;
  master_fd = none;
  alive = false;
  terminating = false;
  buffer = [];
  websocket = none;
  grace_task = false;
  idle_task = false;
  last_activity = now;
  write_buffer = [];
  writer_registered = false;
  input_dropped = false;
  reader_registered = false;
  pty_reader_paused = false;
  out_queue = none;
  in_flight = none;
  out_writer_ws = none;
  out_pending_bytes = 0;
  exit_task = false;
}

-- `self.alive and self.master_fd >= 0`
abbrev pub is_open : Session → Bool
is_open s = s.alive && is_some s.master_fd
