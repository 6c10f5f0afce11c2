-- ===== src/TcpServer.antt =====
-- src/tcpserver.c: the sessions of a listener. The sockets that listen are in Listener.antt.
-- A session that waits for its socket is an entry of `sessions`; `watcher->data` leads from the event to it.
-- Every watcher that is started has its session, so the test for a NULL there has no counterpart.
pub mod Sessions
pub mod Isolation
pub mod Stats
pub mod Safety
use statsrelay.Prelude.{
  ℕ, Bool, true, false, Option, none, some, List, [], ◌∷◌, if◌then◌else◌, ◌==◌, ltb,
}
use statsrelay.Outcome.{Outcome, done, ◌>>=◌}
use statsrelay.Listener.{System, watch, unwatch, open_descriptor, close}

-- What a callback answers: a result, and what it made of the session's context and of the server.
pub record Answered (S C : Type 0) : Type 0 where
  pub code : ℕ
  pub ctx : Option C
  pub shared : S

-- The callbacks of a listener. `S` is the server they share, `C` is what a session's context points
-- to, and `E` is what the environment gives them: memory, and bytes from the socket.
pub record Callbacks (S C E : Type 0) : Type 0 where
  pub cb_conn : E → ℕ → S → Option C × S
  pub cb_recv : Option (E → ℕ → S → Option C → Outcome (Answered S C))

pub record Session (C : Type 0) : Type 0 where
  pub sd : ℕ
  pub ctx : Option C

pub record TcpServer (S C : Type 0) : Type 0 where
  pub sessions : List (Session C)
  pub shared : S
  pub system : System

-- What becomes of a connection: no memory for a session, accept fails, fcntl fails, or none of these.
pub data Accepted : Type 0 where
  no_memory : Accepted
  refused : Accepted
  blocking : ℕ → Accepted
  accepted : ℕ → Accepted

-- The context of the session that has a descriptor.
unfoldable pub find : {C : Type 0} → ℕ → List (Session C) → Option (Option C)
find sd [] = none
find sd (s ∷ rest) = let found = find sd rest in if s.sd == sd then some s.ctx else found

abbrev pub set_ctx : {C : Type 0} → ℕ → Option C → List (Session C) → List (Session C)
set_ctx sd ctx [] = []
set_ctx sd ctx (s ∷ rest) =
    let rest' = set_ctx sd ctx rest in (if s.sd == sd then record s { ctx = ctx } else s) ∷ rest'

abbrev pub discard : {C : Type 0} → ℕ → List (Session C) → List (Session C)
discard sd [] = []
discard sd (s ∷ rest) = let rest' = discard sd rest in if s.sd == sd then rest' else s ∷ rest'

-- tcplistener_accept_callback; the first argument is the bit EV_ERROR of `revents`.
unfoldable pub accept_callback :
    {S C E : Type 0} → Bool → Callbacks S C E → E → Accepted → TcpServer S C → TcpServer S C
accept_callback true listener env answer server = server
accept_callback false listener env no_memory server = server
accept_callback false listener env refused server = server
accept_callback false listener env (blocking sd) server = record server {
  system = open_descriptor sd server.system;
}
accept_callback false listener env (accepted sd) server =
    let (ctx, shared) = listener.cb_conn env sd server.shared in
    record {
      sessions = record { sd = sd; ctx = ctx } ∷ server.sessions;
      shared = shared;
      system = watch sd (open_descriptor sd server.system);
    }

-- tcpsession_destroy. A descriptor 0 stays open.
unfoldable pub tcpsession_destroy : {S C : Type 0} → ℕ → TcpServer S C → TcpServer S C
tcpsession_destroy sd server = record server {
  sessions = discard sd server.sessions;
  system = unwatch sd (if ltb 0 sd then close sd server.system else server.system);
}

-- The end of tcpsession_recv_callback, for what cb_recv answers.
unfoldable pub answer_session : {S C : Type 0} → ℕ → TcpServer S C → Answered S C → TcpServer S C
unfolding tcpsession_destroy
answer_session sd server a =
    let server' = record server {
      sessions = set_ctx sd a.ctx server.sessions;
      shared = a.shared;
    } in
    if a.code == 0 then server' else tcpsession_destroy sd server'

-- tcpsession_recv_callback, for the session of the descriptor `sd`.
unfoldable pub recv_callback :
    {S C E : Type 0}
    → Bool
    → Callbacks S C E
    → E
    → ℕ
    → Option C
    → TcpServer S C
    → Outcome (TcpServer S C)
unfolding answer_session
recv_callback true listener env sd ctx server = done server
recv_callback false listener env sd ctx server = elim listener.cb_recv [
  | none ↦ done server
  | some cb_recv ↦ cb_recv env sd server.shared ctx >>= λ a. done (answer_session sd server a)
]

-- What libev reports: a connection, or bytes that wait for a session.
pub data Event (E : Type 0) : Type 0 where
  connection : Bool → E → Accepted → Event E
  readable : Bool → E → ℕ → Event E

-- The callback that an event has. A descriptor without a session has no watcher, and no event.
unfoldable pub handle :
    {S C E : Type 0} → Callbacks S C E → Event E → TcpServer S C → Outcome (TcpServer S C)
unfolding accept_callback recv_callback find
handle listener (connection error env answer) server =
    done (accept_callback error listener env answer server)
handle listener (readable error env sd) server = elim (find sd server.sessions) [
  | none ↦ done server
  | some ctx ↦ recv_callback error listener env sd ctx server
]
