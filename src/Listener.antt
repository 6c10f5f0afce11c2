-- ===== src/Listener.antt =====
-- src/tcpserver.c, src/udpserver.c: what both have of sockets that listen.
pub mod Bind
use statsrelay.Prelude.{
  ℕ, suc, ◌+◌, Bool, true, false, not, Option, none, some, List, [], ◌∷◌, ◌++◌, if◌then◌else◌, ◌==◌,
  ltb, leb, take, drop, length,
}
use statsrelay.Outcome.{Outcome, done, undefined, ◌>>=◌}

-- The descriptors that the process has open, and those that libev watches.
pub record System : Type 0 where
  pub opened : List ℕ
  pub watched : List ℕ

-- A list without a descriptor.
abbrev pub remove : ℕ → List ℕ → List ℕ
remove sd [] = []
remove sd (x ∷ xs) = let rest = remove sd xs in if x == sd then rest else x ∷ rest

abbrev pub watch : ℕ → System → System
watch sd sys = record sys { watched = sd ∷ sys.watched }

abbrev pub unwatch : ℕ → System → System
unwatch sd sys = record sys { watched = remove sd sys.watched }

abbrev pub open_descriptor : ℕ → System → System
open_descriptor sd sys = record sys { opened = sd ∷ sys.opened }

abbrev pub close : ℕ → System → System
close sd sys = record sys { opened = remove sd sys.opened }

-- What the system answers for one address that getaddrinfo found: malloc for the listener, inet_ntop,
-- socket, setsockopt, fcntl, bind, listen, and malloc for the watcher.
pub record Answer : Type 0 where
  pub memory : Bool
  pub printable : Bool
  pub socket : Option ℕ
  pub reuse : Bool
  pub nonblock : Bool
  pub bound : Bool
  pub listening : Bool
  pub watcher : Bool

-- What the calls after inet_ntop answer, for TCP and for UDP, where listen is not called.
abbrev pub Ready : Type 0
Ready = Answer → Bool

-- tcplistener_create and udplistener_create: the descriptor of the listener, or NULL. A socket that was
-- opened stays open where a later call fails.
unfoldable pub listener_create : Ready → Answer → System → Outcome (Option ℕ × System)
listener_create ready a sys = if not a.memory then undefined else elim a.socket [
  | none ↦ done (none, sys)
  | some sd ↦
      let sys' = open_descriptor sd sys in
      if not a.printable
      then done (none, sys')
      else if not (ready a)
      then done (none, sys')
      else if not a.watcher
      then undefined
      else done (some sd, sys')
]

-- The array `listeners`, by the descriptors of its first `listeners_len` places, and the system.
pub record Listeners : Type 0 where
  pub listeners : List ℕ
  pub system : System

-- tcpserver_create and udpserver_create, by whether malloc has memory.
unfoldable pub server_create : Bool → System → Outcome Listeners
server_create memory sys =
    if memory then done (record { listeners = []; system = sys }) else undefined

-- MAX_TCP_HANDLERS and MAX_UDP_HANDLERS
abbrev pub max_handlers : ℕ
max_handlers = 32

-- The loop over the addresses.
unfoldable pub bind_addresses : Ready → List Answer → Listeners → Outcome (ℕ × Listeners)
unfolding listener_create
bind_addresses ready [] server = done (0, server)
bind_addresses ready (a ∷ rest) server = elim (leb max_handlers (length server.listeners)) [
  | true ↦ done (1, server)
  | false ↦ elim (listener_create ready a server.system) [
    | undefined ↦ undefined
    | done (none, sys) ↦ bind_addresses ready rest (record server { system = sys })
    | done (some sd, sys) ↦
        bind_addresses ready rest
          (record { listeners = server.listeners ++ sd ∷ []; system = watch sd sys })
  ]
]

-- strrchr: what stands before and behind the last colon.
unfoldable pub last_colon : List ℕ → Option (List ℕ × List ℕ)
last_colon [] = none
last_colon (x ∷ xs) = elim (last_colon xs) [
  | some (address, port) ↦ some (x ∷ address, port)
  | none ↦ if x == b':' then some ([], xs) else none
]

-- getaddrinfo for an address and a port: the addresses, each with what the system answers for it.
abbrev pub Resolve : Type 0
Resolve = List ℕ → List ℕ → Option (List Answer)

-- tcpserver_bind and udpserver_bind; `copied` is whether strdup has memory.
unfoldable pub server_bind : Ready → Bool → Resolve → List ℕ → Listeners → Outcome (ℕ × Listeners)
unfolding bind_addresses last_colon
server_bind ready copied resolve address_and_port server =
    if not copied then done (1, server) else elim (last_colon address_and_port) [
      | none ↦ done (1, server)
      | some (address, port) ↦ elim (resolve address port) [
        | none ↦ done (1, server)
        | some addresses ↦ bind_addresses ready addresses server
      ]
    ]

-- The calls of tcplistener_create between inet_ntop and malloc.
abbrev pub tcp_ready : Ready
tcp_ready a =
    if not a.reuse
    then false
    else if not a.nonblock
    then false
    else if not a.bound
    then false
    else a.listening

abbrev pub udp_ready : Ready
udp_ready a = if not a.reuse then false else if not a.nonblock then false else a.bound

abbrev pub tcplistener_create : Answer → System → Outcome (Option ℕ × System)
tcplistener_create = listener_create tcp_ready

abbrev pub udplistener_create : Answer → System → Outcome (Option ℕ × System)
udplistener_create = listener_create udp_ready

-- A bind, by whether strdup has memory.
abbrev pub ServerBind : Type 0
ServerBind = Bool → Resolve → List ℕ → Listeners → Outcome (ℕ × Listeners)

abbrev pub tcpserver_bind : ServerBind
tcpserver_bind = server_bind tcp_ready

abbrev pub udpserver_bind : ServerBind
udpserver_bind = server_bind udp_ready

abbrev pub unwatch_all : List ℕ → System → System
unwatch_all [] sys = sys
unwatch_all (sd ∷ sds) sys = unwatch_all sds (unwatch sd sys)

-- tcpserver_destroy and udpserver_destroy: the watchers are stopped, the sockets stay open.
unfoldable pub server_destroy : Listeners → System
server_destroy server = unwatch_all server.listeners server.system

-- udplistener_recv_callback: the first argument is the bit EV_ERROR of `revents`, the second is the
-- listener's callback on what it shares. Its result is not used.
unfoldable pub udplistener_recv_callback :
    {S : Type 0} → Bool → (S → Outcome (ℕ × S)) → S → Outcome S
udplistener_recv_callback true cb_recv shared = done shared
udplistener_recv_callback false cb_recv shared = cb_recv shared >>= λ r. done r.1
