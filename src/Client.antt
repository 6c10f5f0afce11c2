-- ===== src/Client.antt =====
-- src/tcpclient.c, src/tcpclient.h: the connection to one backend and its queue of bytes.
-- This file has the state of a client; the functions stand in `Connect` and `Transfer`.
pub mod Connect
pub mod Transfer
pub mod Action
pub mod Setup
pub mod Watchers
pub mod Send
pub mod Stream
pub mod Drain
pub mod Backoff
use statsrelay.Prelude.{ℕ, Bool, true, false, Option, none, some, List, [], ◌∷◌, if◌then◌else◌}
use statsrelay.Buffer.{Buffer}
use statsrelay.Config.{ProtoConfig}

pub data State : Type 0 where
  init connecting backoff connected terminated : State

-- A call of one of the client's callbacks, with the bytes that it is given.
pub data Event : Type 0 where
  on_connected on_error : Event
  on_sent on_recv : List ℕ → Event

-- `active` is whether libev watches the descriptor; `started` is the program's own flag.
pub record Watcher : Type 0 where
  pub active : Bool
  pub started : Bool

pub data SockType : Type 0 where
  dgram stream : SockType

-- `addr` is the resolved address, by a number that names it, and `sd` the descriptor, `none` for -1.
-- `sd_open` is whether the system has that descriptor open, `timeout_active` whether libev has the
-- timer running.
pub record Client : Type 0 where
  pub state : State
  pub addr : Option ℕ
  pub send_queue : Buffer
  pub last_error : ℕ
  pub failing : Bool
  pub sd : Option ℕ
  pub sd_open : Bool
  pub socktype : SockType
  pub host : List ℕ
  pub port : List ℕ
  pub protocol : List ℕ
  pub config : ProtoConfig
  pub timeout_active : Bool
  pub connect_watcher : Watcher
  pub read_watcher : Watcher
  pub write_watcher : Watcher

abbrev pub idle : Watcher
idle = record { active = false; started = false }

-- `started = true` and ev_io_start.
abbrev pub watching : Watcher
watching = record { active = true; started = true }

-- ev_io_stop alone, which leaves the flag.
abbrev pub stop : Watcher → Watcher
stop w = record w { active = false }

-- `if (started) { ev_io_stop; started = false; }`
abbrev pub release : Watcher → Watcher
release w = if w.started then idle else w
