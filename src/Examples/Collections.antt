-- ===== src/Examples/Collections.antt =====
-- A collection of servers.
use statsrelay.Prelude.{ℕ, ◌≡◌, refl, true, false, none, some, [], ◌∷◌, arith, if◌then◌else◌}
use statsrelay.Outcome.{done}
use statsrelay.Listener.{server_bind}
use statsrelay.Listener.Bind.{contains}
use statsrelay.ServerCollection.{
  Process, ServerCollection, Connecting, Connected, init_server, init_server_collection,
  connect_server_collection, destroy_server_collection,
}
use statsrelay.ServerCollection.Lifecycle.{destroy_server_collection_lem}
use statsrelay.Examples.Listeners.{good}

-- One backend, and one address.
abbrev pub carbon : Connecting
carbon = record {
  backends = 1;
  bind = some (b'a' ∷ b':' ∷ b'1' ∷ []);
  created = true;
  taken = record { objects = 11 ∷ 14 ∷ []; sockets = 7 ∷ [] };
  ts = some 12;
  us = some 13;
  tcp_copied = true;
  udp_copied = true;
  tcp_resolve = λ address port. some (good ∷ []);
  udp_resolve = λ address port. none;
}

-- A server that cannot be created: a backend and its socket stay behind.
abbrev pub statsd : Connecting
statsd = record carbon {
  created = false;
  taken = record { objects = 15 ∷ []; sockets = 8 ∷ [] };
  ts = none;
  us = none;
}

abbrev pub process : Process
process = record { live = 9 ∷ []; system = record { opened = []; watched = [] } }

abbrev result : Connected ServerCollection
result = record {
  success = false;
  server = record {
    initialized = true;
    config_file = some 10;
    carbon_server = record {
      enabled = true;
      stats = some (record { objects = 11 ∷ 14 ∷ []; sockets = 7 ∷ [] });
      ts = some (record { object = 12; listeners = 5 ∷ [] });
      us = some (record { object = 13; listeners = [] });
    };
    statsd_server = record init_server { enabled = true };
  };
  process = record {
    live = 15 ∷ 13 ∷ 12 ∷ 11 ∷ 14 ∷ 10 ∷ 9 ∷ [];
    system = record { opened = 8 ∷ 5 ∷ 7 ∷ []; watched = 8 ∷ 5 ∷ 7 ∷ [] };
  };
}

destroy_server_collection_lem_example :
    (q : Process) × (destroy_server_collection result.server result.process
      ≡ done (record result.server { initialized = false }, q))
    × ((x : ℕ)
        → contains x q.live ≡ (if contains x (15 ∷ []) then true else contains x process.live))
    × ((x : ℕ)
        → contains x q.system.opened
          ≡ (if contains x (7 ∷ []) then false else contains x (8 ∷ 5 ∷ 7 ∷ [])))
    × ((later : Process)
        → destroy_server_collection (record result.server { initialized = false }) later
          ≡ done (record result.server { initialized = false }, later))
unfolding init_server_collection connect_server_collection server_bind
destroy_server_collection_lem_example =
    destroy_server_collection_lem (some 10) carbon statsd process result (λ x. ground arith) refl
