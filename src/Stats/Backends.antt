-- ===== src/Stats/Backends.antt =====
-- The backends of a server: make_backend with find_backend and add_backend, kill_backend, and
-- stats_server_create.
pub mod Naming
pub mod Growing
pub mod Once
pub mod Ready
pub mod Sound
pub mod Reload
use statsrelay.Prelude.{
  ℕ, suc, Bool, false, not, Option, none, some, List, [], ◌∷◌, ◌++◌, if◌then◌else◌, ◌==◌, take,
  drop, length, set, get_elem?,
}
use statsrelay.Bytes.{memchr, same_bytes}
use statsrelay.Buffer.{Malloc}
use statsrelay.Config.{ProtoConfig}
use statsrelay.Protocol.{Parser}
use statsrelay.PointerList.{Allocator}
use statsrelay.Ring
use statsrelay.Ring.{Ring, Pointer, Callbacks}
use statsrelay.Client.{Client}
use statsrelay.Client.Connect.{Network, connect}
use statsrelay.Client.Setup.{Copies, tcpclient_init, tcpclient_destroy}
use statsrelay.Stats.{Backend, Server, Validator}

-- What the system answers while one backend is made: whether the strings, the backend and the longer
-- list can be allocated, and the answers to the client's calls. `raw` is the new block, not yet set.
pub record Making : Type 0 where
  pub strings : Bool
  pub memory : Bool
  pub longer_list : Bool
  pub copies : Copies
  pub malloc : Malloc
  pub net : Network
  pub raw : Client

-- The parts of "host:port" or "host:port:protocol", and the key host:port:protocol.
pub record Address : Type 0 where
  pub host : List ℕ
  pub port : List ℕ
  pub protocol : List ℕ
  pub full_key : List ℕ

abbrev tcp : List ℕ
tcp = b't' ∷ b'c' ∷ b'p' ∷ []

unfoldable pub parse_address : List ℕ → Option Address
unfolding memchr
parse_address host_and_port = elim (memchr b':' host_and_port) [
  | none ↦ none
  | some colon1 ↦
      let after = drop (suc colon1) host_and_port in
      elim (memchr b':' after) [
        | none ↦ some (record {
          host = take colon1 host_and_port;
          port = after;
          protocol = tcp;
          full_key = host_and_port ++ b':' ∷ tcp;
        })
        | some colon2 ↦ some (record {
          host = take colon1 host_and_port;
          port = take colon2 after;
          protocol = drop (suc colon2) after;
          full_key = host_and_port;
        })
      ]
]

-- The first backend of the list that has the key.
unfoldable pub find_backend : List Backend → List Pointer → List ℕ → Option Pointer
unfolding same_bytes
find_backend heap [] key = none
find_backend heap (p ∷ ps) key =
    let later = find_backend heap ps key in
    elim (get_elem? heap p) [
      | none ↦ later
      | some backend ↦ if same_bytes backend.key key then some p else later
    ]

-- The backend that a set-up and connected client gets.
abbrev pub new_backend : Client → List ℕ → Backend
new_backend client key = record {
  client = client;
  key = key;
  bytes_queued = 0;
  bytes_sent = 0;
  relayed_lines = 0;
  dropped_lines = 0;
  failing = false;
}

-- The part of make_backend behind find_backend. The result of add_backend is not looked at.
unfoldable pub connect_backend : Making → Address → Server → Option Pointer × Server
connect_backend env address server =
    if not env.memory
    then (none, server)
    else (let (failed, client) =
          tcpclient_init env.malloc env.copies server.config (some address.host) (some address.port)
            (some address.protocol) env.raw in
        if not (failed == 0)
        then (none, server)
        else (let (refused, _, client') = connect env.net client in
            if not (refused == 0)
            then (none, server)
            else (let p = length server.heap in
                (
                  some p,
                  record server {
                    heap = server.heap ++ new_backend client' address.full_key ∷ [];
                    backend_list =
                        if env.longer_list
                        then server.backend_list ++ p ∷ []
                        else server.backend_list;
                  },
                ))))

unfoldable pub make_backend : Making → List ℕ → Server → Option Pointer × Server
make_backend env host_and_port server = elim (parse_address host_and_port) [
  | none ↦ (none, server)
  | some address ↦
      if not env.strings
      then (none, server)
      else (elim (find_backend server.heap server.backend_list address.full_key) [
        | some p ↦ (some p, server)
        | none ↦ connect_backend env address server
      ])
]

-- kill_backend. The block stays in the heap's list, with its client destroyed and its key: the heap does not
-- say that both are free, so that a later use of them is not undefined here.
unfoldable pub kill_backend : Pointer → Server → Server
kill_backend p server = elim (get_elem? server.heap p) [
  | none ↦ server
  | some backend ↦ record server {
    heap = set server.heap p (record backend { client = tcpclient_destroy backend.client });
  }
]

-- The callbacks that stats.c gives to its hash ring.
abbrev pub backend_callbacks : (List ℕ → Making) → Callbacks Server
backend_callbacks env = record {
  alloc = λ line server. make_backend (env line) line server;
  dealloc = kill_backend;
}

-- The counters before hashring_load_from_config are not set in the source, and not read.
abbrev pub blank : ProtoConfig → Parser → Option Validator → Server
blank config parser validator = record {
  heap = [];
  bytes_recv_udp = 0;
  bytes_recv_tcp = 0;
  total_connections = 0;
  malformed_lines = 0;
  last_reload = 0;
  config = config;
  backend_list = [];
  ring = none;
  parser = parser;
  validator = validator;
}

unfoldable pub stats_server_create :
    (List ℕ → Making) → Allocator → ProtoConfig → Parser → Option Validator → Option Server
stats_server_create env can config parser validator =
    let (ring, server) =
      Ring.load_from_config (backend_callbacks env) can config.ring
        (blank config parser validator) in
    elim ring [ none ↦ none | some r ↦ some (record server { ring = some r }) ]

-- stats_server_reload and stats_server_destroy free the ring, its backends and the list.
unfoldable pub stats_server_reload : (List ℕ → Making) → ℕ → Server → Server
stats_server_reload env now server =
    record (Ring.dealloc (backend_callbacks env) server.ring server) {
      backend_list = [];
      last_reload = now;
    }
