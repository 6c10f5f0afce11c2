-- ===== src/Examples.antt =====
-- Concrete states of the program, at which its theorems are applied.
mod Clients
mod Configs
mod Deliveries
mod Listeners
mod Lifecycles
mod Logs
mod Collections
mod Making
mod Reloads
mod Reports
mod Rings
mod Runs
mod Safeties
mod Servers
mod Stress
mod Validators
use statsrelay.Prelude.{
  [], ℕ, ◌^◌, true, false, none, some, ◌∷◌, if◌then◌else◌, ltb, arith, length-replicate, replicate,
}
use statsrelay.Buffer.{Malloc, Buffer}
use statsrelay.Buffer.Invariant.{IsValid, IsMalloc}
use statsrelay.Config.{ProtoConfig}
use statsrelay.Client.{Client, init, connecting, connected, stream, idle, watching}
use statsrelay.Client.Action.{IsOpen}
use statsrelay.Client.Connect.{Network}

-- A malloc that has all the memory there can be.
abbrev pub plenty : Malloc
plenty n = if ltb n (2 ^ 63) then some (replicate n 0) else none

pub plenty-IsMalloc : IsMalloc plenty
plenty-IsMalloc = record {
  sized = λ n block e. ground (arith, length-replicate {A = ℕ} n 0);
  limited = λ n block e. ground arith;
}

-- The bytes 2 and 3 queued in the middle of four bytes.
abbrev pub two_bytes : Buffer
two_bytes = record { mem = 1 ∷ 2 ∷ 3 ∷ 4 ∷ []; head = 1; tail = 3; size = 4 }

pub two_bytes-IsValid : IsValid two_bytes
two_bytes-IsValid = ground arith

abbrev pub test_config : ProtoConfig
test_config = record {
  initialized = true;
  bind = none;
  enable_validation = false;
  enable_tcp_cork = true;
  always_resolve_dns = true;
  max_send_queue = 100;
  ring = [];
}

abbrev pub waiting_client : Client
waiting_client = record {
  state = init;
  addr = some 7;
  send_queue = two_bytes;
  last_error = 0;
  failing = false;
  sd = none;
  sd_open = false;
  socktype = stream;
  host = b'h' ∷ [];
  port = b'1' ∷ [];
  protocol = b't' ∷ b'c' ∷ b'p' ∷ [];
  config = test_config;
  timeout_active = false;
  connect_watcher = idle;
  read_watcher = idle;
  write_watcher = idle;
}

abbrev pub connecting_client : Client
connecting_client = record waiting_client {
  state = connecting;
  sd = some 3;
  sd_open = true;
  timeout_active = true;
  connect_watcher = watching;
}

abbrev pub connected_client : Client
connected_client = record waiting_client {
  state = connected;
  sd = some 3;
  sd_open = true;
  read_watcher = watching;
  write_watcher = watching;
}

pub connected_client-IsOpen : IsOpen connected_client
connected_client-IsOpen = record { valid = two_bytes-IsValid; sized = omega arith }

-- A network that answers, and one without a name service.
abbrev pub up : Network
up = record { now = 10; getaddrinfo = some 7; socket = some 3; nonblock = true; connect = true }

abbrev pub down : Network
down = record { now = 10; getaddrinfo = none; socket = some 3; nonblock = true; connect = true }
