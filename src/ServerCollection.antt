-- ===== src/ServerCollection.antt =====
-- src/server.c, src/server.h: the servers of both protocols. The process owns the objects that malloc
-- gave it, by their addresses, and the descriptors of Listener.antt.
pub mod Ownership
pub mod Owning
pub mod Lifecycle
use statsrelay.Prelude.{
  ℕ, Bool, true, false, Option, none, some, List, [], ◌∷◌, ◌++◌, if◌then◌else◌, ◌==◌,
}
use statsrelay.Outcome.{Outcome, done, undefined, ◌>>=◌}
use statsrelay.Listener.{
  System, remove, close, unwatch, Resolve, server_create, server_destroy, ServerBind,
  tcpserver_bind, udpserver_bind,
}
use statsrelay.Listener.Bind.{contains}

pub record Process : Type 0 where
  pub live : List ℕ
  pub system : System

-- The object of a TCP or UDP server: its address, and the descriptors that it listens on.
pub record Bound : Type 0 where
  pub object : ℕ
  pub listeners : List ℕ

-- What stats_server_create takes: the objects of the server, of its ring and of its backends, and the
-- sockets of the backends.
pub record Taken : Type 0 where
  pub objects : List ℕ
  pub sockets : List ℕ

-- struct server; `stats` is the field `server`.
pub record RelayServer : Type 0 where
  pub enabled : Bool
  pub stats : Option Taken
  pub ts : Option Bound
  pub us : Option Bound

-- struct server_collection
pub record ServerCollection : Type 0 where
  pub initialized : Bool
  pub config_file : Option ℕ
  pub carbon_server : RelayServer
  pub statsd_server : RelayServer

-- What connect_server reads of a configuration, and what the calls it makes answer: whether the
-- statistics server can be created, and what stats_server_create has taken when it returns, which it
-- keeps where it fails (make_err of make_backend frees neither the backend nor its client); the addresses
-- of the two servers, if malloc has memory, and the network's part of the two binds.
pub record Connecting : Type 0 where
  pub backends : ℕ
  pub bind : Option (List ℕ)
  pub created : Bool
  pub taken : Taken
  pub ts : Option ℕ
  pub us : Option ℕ
  pub tcp_copied : Bool
  pub udp_copied : Bool
  pub tcp_resolve : Resolve
  pub udp_resolve : Resolve

abbrev pub init_server : RelayServer
init_server = record { enabled = false; stats = none; ts = none; us = none }

abbrev pub allocate : ℕ → Process → Process
allocate object p = record p { live = object ∷ p.live }

-- free
abbrev pub release : ℕ → Process → Outcome Process
release object p =
    if contains object p.live then done (record p { live = remove object p.live }) else undefined

unfoldable pub release_all : List ℕ → Process → Outcome Process
release_all [] p = done p
release_all (object ∷ objects) p = release object p >>= release_all objects

-- stats_server_create, for the process. libev watches the socket of each backend.
abbrev pub take_all : Taken → Process → Process
take_all t p = record p {
  live = t.objects ++ p.live;
  system = record {
    opened = t.sockets ++ p.system.opened;
    watched = t.sockets ++ p.system.watched;
  };
}

-- tcpclient_destroy of each backend, in kill_backend.
abbrev pub close_all : List ℕ → System → System
close_all [] sys = sys
close_all (sd ∷ sds) sys = close_all sds (close sd (unwatch sd sys))

-- tcpserver_create or udpserver_create. Without memory it writes through NULL.
unfoldable pub create : Option ℕ → Process → Outcome (Bound × Process)
unfolding server_create
create none p = server_create false p.system >>= λ l. undefined
create (some object) p = server_create true p.system >>= λ l. done (
  record { object = object; listeners = l.listeners },
  record (allocate object p) { system = l.system },
)

-- tcpserver_bind or udpserver_bind, for the server `b`. strdup reads its argument.
unfoldable pub bind_server :
    ServerBind → Bool → Resolve → Option (List ℕ) → Bound → Process → Outcome (ℕ × Bound × Process)
bind_server bind copied resolve none b p = undefined
bind_server bind copied resolve (some address) b p =
    bind copied resolve address (record { listeners = b.listeners; system = p.system }) >>= λ r.
    done (r.0, record b { listeners = r.1.listeners }, record p { system = r.1.system })

-- What connect_server and connect_server_collection leave.
pub record Connected (S : Type 0) : Type 0 where
  pub success : Bool
  pub server : S
  pub process : Process

-- connect_server from the binds on.
unfoldable pub bind_servers :
    Connecting → RelayServer → Bound → Bound → Process → Outcome (Connected RelayServer)
unfolding bind_server
bind_servers c s ts us p =
    bind_server tcpserver_bind c.tcp_copied c.tcp_resolve c.bind ts p >>= λ t.
    (let s1 = record s { ts = some t.1; us = some us } in
      elim (t.0 == 0) [
        | false ↦ done (record { success = false; server = s1; process = t.2 })
        | true ↦ bind_server udpserver_bind c.udp_copied c.udp_resolve c.bind us t.2 >>= λ u.
            done
              (record { success = u.0 == 0; server = record s1 { us = some u.1 }; process = u.2 })
      ])

-- connect_server. The creates have no result NULL, so the tests for it have no counterpart.
unfoldable pub connect_server : Connecting → RelayServer → Process → Outcome (Connected RelayServer)
unfolding create bind_servers
connect_server c s p = elim (c.backends == 0) [
  | true ↦ done (record { success = false; server = s; process = p })
  | false ↦ elim c.created [
    | false ↦ done (record {
      success = false;
      server = record s { stats = none; enabled = true };
      process = take_all c.taken p;
    })
    | true ↦ create c.ts (take_all c.taken p) >>= λ t. create c.us t.1 >>= λ u.
        bind_servers c (record s { stats = some c.taken; enabled = true }) t.0 u.0 u.1
  ]
]

-- tcpserver_destroy or udpserver_destroy, if there is a server.
unfoldable pub destroy_bound : Option Bound → Process → Outcome Process
unfolding server_destroy
destroy_bound none p = done p
destroy_bound (some b) p =
    release b.object
      (record p { system = server_destroy (record { listeners = b.listeners; system = p.system }) })

-- stats_server_destroy, where there is a server.
unfoldable pub destroy_stats : Option Taken → Process → Outcome Process
unfolding release_all
destroy_stats none p = done p
destroy_stats (some t) p =
    release_all t.objects (record p { system = close_all t.sockets p.system })

-- free
abbrev pub destroy_object : Option ℕ → Process → Outcome Process
destroy_object none p = done p
destroy_object (some object) p = release object p

unfoldable pub destroy_server : RelayServer → Process → Outcome Process
unfolding destroy_bound destroy_stats
destroy_server s p = elim s.enabled [
  | false ↦ done p
  | true ↦ destroy_bound s.ts p >>= destroy_bound s.us >>= destroy_stats s.stats
]

-- init_server_collection, by what strdup returns.
unfoldable pub init_server_collection : Option ℕ → Process → ServerCollection × Process
init_server_collection copy p = (
  record {
    initialized = true;
    config_file = copy;
    carbon_server = init_server;
    statsd_server = init_server;
  },
  elim copy [ none ↦ p | some object ↦ allocate object p ],
)

unfoldable pub connect_server_collection :
    Connecting → Connecting → ServerCollection → Process → Outcome (Connected ServerCollection)
unfolding connect_server
connect_server_collection carbon statsd c p = connect_server carbon c.carbon_server p >>= λ r.
    connect_server statsd c.statsd_server r.process >>= λ s. done (record {
      success = if r.success then true else s.success;
      server = record c { carbon_server = r.server; statsd_server = s.server };
      process = s.process;
    })

unfoldable pub destroy_server_collection :
    ServerCollection → Process → Outcome (ServerCollection × Process)
unfolding destroy_server
destroy_server_collection c p = elim c.initialized [
  | false ↦ done (c, p)
  | true ↦
      destroy_object c.config_file p
      >>= destroy_server c.carbon_server
      >>= destroy_server c.statsd_server
      >>= λ p'. done (record c { initialized = false }, p')
]
