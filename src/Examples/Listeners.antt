-- ===== src/Examples/Listeners.antt =====
-- Servers that listen, and their sessions.
use statsrelay.Prelude.{ℕ, suc, ◌≡◌, refl, true, false, some, [], ◌∷◌, arith}
use statsrelay.Outcome.{done, undefined, ◌>>=◌}
use statsrelay.Buffer.{Buffer}
use statsrelay.Client.Transfer.{failed, got}
use statsrelay.Listener.{Answer, tcp_ready, Listeners, bind_addresses}
use statsrelay.Listener.Bind.{IsServing, IsBound, bind_addresses-IsBound}
use statsrelay.TcpServer.{Callbacks, TcpServer, accepted, find, connection, readable, handle}
use statsrelay.TcpServer.Sessions.{IsValid}
use statsrelay.TcpServer.Isolation.{Reach, here, next, Reach-IsValid, IsAnswered, readable_session}
use statsrelay.Stats.Session.{stats_connection}
use statsrelay.TcpServer.Stats.{Given, Shared, stats_callbacks, connection_without_memory}
use statsrelay.Examples.{plenty}
use statsrelay.Examples.Servers.{server, world}

-- An address that is served on descriptor 5, and one that is taken.
abbrev pub good : Answer
good = record {
  memory = true;
  printable = true;
  socket = some 5;
  reuse = true;
  nonblock = true;
  bound = true;
  listening = true;
  watcher = true;
}

abbrev pub taken : Answer
taken = record good { socket = some 6; bound = false }

abbrev one_listener : Listeners
one_listener = record {
  listeners = 4 ∷ [];
  system = record { opened = 4 ∷ 1 ∷ []; watched = 4 ∷ [] };
}

one_listener-IsServing : IsServing one_listener
one_listener-IsServing = record {
  bounded = omega arith;
  open_all = λ sd h. ground (arith, h);
  watched_all = λ sd h. ground (arith, h);
}

bind_addresses-IsBound_example :
    IsBound (4 ∷ 5 ∷ []) (bind_addresses tcp_ready (taken ∷ good ∷ []) one_listener)
bind_addresses-IsBound_example =
    bind_addresses-IsBound tcp_ready (taken ∷ good ∷ []) one_listener one_listener-IsServing
      (refl, refl, (refl, refl, tt))

-- Callbacks that count the sessions, and close one at its second read.
abbrev counting : Callbacks ℕ ℕ ℕ
counting = record {
  cb_conn = λ env sd count. (some 0, suc count);
  cb_recv = some (λ env sd count ctx. done (record { code = env; ctx = some 1; shared = count }));
}

abbrev no_session : TcpServer ℕ ℕ
no_session = record {
  sessions = [];
  shared = 0;
  system = record { opened = 4 ∷ []; watched = 4 ∷ [] };
}

no_session-IsValid : IsValid no_session
unfolding find
no_session-IsValid = record {
  distinct = tt;
  open_all = λ sd ctx h. ground (arith, h);
  watched_all = λ sd ctx h. ground (arith, h);
}

abbrev one_session : TcpServer ℕ ℕ
one_session = record {
  sessions = record { sd = 7; ctx = some 0 } ∷ [];
  shared = 1;
  system = record { opened = 7 ∷ 4 ∷ []; watched = 7 ∷ 4 ∷ [] };
}

one_session-Reach : Reach counting no_session one_session
unfolding handle
one_session-Reach = next (connection false 0 (accepted 7)) here refl refl

Reach-IsValid_example : IsValid one_session
Reach-IsValid_example = Reach-IsValid one_session-Reach no_session-IsValid

one_session-IsValid : IsValid one_session
one_session-IsValid = Reach-IsValid one_session-Reach no_session-IsValid

readable_session_example :
    (t : TcpServer ℕ ℕ) × (handle counting (readable false 1 7) one_session ≡ done t)
    × IsAnswered 7 (record { code = 1; ctx = some 1; shared = 1 }) one_session t
unfolding find
readable_session_example =
    readable_session counting 1 7 (some 0) one_session
      (λ env sd count ctx. done (record { code = env; ctx = some 1; shared = count }))
      (record { code = 1; ctx = some 1; shared = 1 }) one_session-IsValid refl refl refl

abbrev out_of_memory : Given
out_of_memory = record { memory = false; malloc = plenty; recv = failed; world = world }

abbrev shared_server : TcpServer Shared Buffer
shared_server = record {
  sessions = [];
  shared = record { server = server; sent = [] };
  system = record { opened = []; watched = [] };
}

connection_without_memory_example :
    handle stats_callbacks (connection false out_of_memory (accepted 7)) shared_server
      >>= handle stats_callbacks
          (readable false (record out_of_memory { recv = got (b'a' ∷ []) }) 7)
    ≡ undefined
unfolding stats_connection
connection_without_memory_example =
    connection_without_memory out_of_memory (record out_of_memory { recv = got (b'a' ∷ []) }) 7
      shared_server refl
