-- ===== src/TcpServer/Stats.antt =====
-- The callbacks that src/server.c gives a listener: stats_connection and stats_recv.
use statsrelay.Prelude.{ℕ, ◌≡◌, refl, Bool, false, Option, none, some, List, [], ◌∷◌, ◌++◌, arith}
use statsrelay.Outcome.{Outcome, done, undefined, ◌>>=◌}
use statsrelay.Buffer.{Malloc, Buffer}
use statsrelay.Client.Transfer.{Recv}
use statsrelay.Stats.{Server}
use statsrelay.Stats.Session.{World, stats_connection, stats_recv}
use statsrelay.TcpServer.{
  Answered, Callbacks, TcpServer, accepted, accept_callback, recv_callback, find, connection,
  readable, handle,
}

-- What the environment gives a callback.
pub record Given : Type 0 where
  pub memory : Bool
  pub malloc : Malloc
  pub recv : Recv
  pub world : World

-- The server, and what was sent to its clients: the descriptor and the bytes of each response.
pub record Shared : Type 0 where
  pub server : Server
  pub sent : List (ℕ × List ℕ)

abbrev pub session_connected : Given → ℕ → Shared → Option Buffer × Shared
session_connected given sd shared =
    let (ctx, ss) = stats_connection given.memory given.malloc shared.server in
    (ctx, record shared { server = ss })

-- stats_recv uses its context before it tests anything.
abbrev pub session_received : Given → ℕ → Shared → Option Buffer → Outcome (Answered Shared Buffer)
session_received given sd shared none = undefined
session_received given sd shared (some b) =
    stats_recv given.malloc given.recv given.world b shared.server >>= λ p. done (record {
      code = p.code;
      ctx = p.left;
      shared = record { server = p.server; sent = shared.sent ++ (sd, p.responses) ∷ [] };
    })

unfoldable pub stats_callbacks : Callbacks Shared Buffer Given
stats_callbacks = record { cb_conn = session_connected; cb_recv = some session_received }

ctx_of_connection :
    (given : Given) (sd : ℕ) (server : TcpServer Shared Buffer)
    → (stats_connection given.memory given.malloc server.shared.server).0 ≡ none
    → find sd (accept_callback false stats_callbacks given (accepted sd) server).sessions
      ≡ some none
unfolding stats_callbacks find accept_callback
ctx_of_connection given sd server out_of_memory = rw (out_of_memory) (ground arith)

-- If stats_connection has no memory for an accepted connection, then the first bytes from that
-- client make stats_recv use a session at NULL.
pub connection_without_memory :
    (given later : Given) (sd : ℕ) (server : TcpServer Shared Buffer)
    → (stats_connection given.memory given.malloc server.shared.server).0 ≡ none
    → handle stats_callbacks (connection false given (accepted sd)) server
        >>= handle stats_callbacks (readable false later sd)
      ≡ undefined
unfolding stats_callbacks handle recv_callback
connection_without_memory given later sd server out_of_memory =
    rw (ctx_of_connection given sd server out_of_memory, handle) refl
