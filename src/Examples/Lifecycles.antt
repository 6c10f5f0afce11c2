-- ===== src/Examples/Lifecycles.antt =====
-- A run of main that serves.
use statsrelay.Prelude.{refl, true, some, [], ◌∷◌}
use statsrelay.Outcome.{done}
use statsrelay.ServerCollection.{Connecting, Connected, ServerCollection, init_server}
use statsrelay.Main.{System, Run, use_file, read_file, begin_run}
use statsrelay.Main.Lifecycle.{IsWorking}
use statsrelay.Examples.Collections.{carbon, process}
use statsrelay.Examples.Listeners.{good}
use statsrelay.Examples.Runs.{both, name, system, first_run}

-- The address is served over UDP too.
abbrev both_protocols : Connecting
both_protocols = record carbon {
  udp_resolve = λ address port. some (record good { socket = some 6 } ∷ []);
}

abbrev serving_system : System
serving_system = record system { carbon = both_protocols }

abbrev serving : Run
serving = use_file name (some 10) (begin_run first_run)

-- The configuration is read.
abbrev loaded : Run
loaded = record serving { process = read_file serving_system (some both) serving.process }

abbrev connected : Connected ServerCollection
connected = record {
  success = true;
  server = record {
    initialized = true;
    config_file = some 10;
    carbon_server = record {
      enabled = true;
      stats = some (record { objects = 11 ∷ 14 ∷ []; sockets = 7 ∷ [] });
      ts = some (record { object = 12; listeners = 5 ∷ [] });
      us = some (record { object = 13; listeners = 6 ∷ [] });
    };
    statsd_server = record init_server { enabled = true };
  };
  process = record {
    live = 15 ∷ 13 ∷ 12 ∷ 11 ∷ 14 ∷ 30 ∷ 31 ∷ 10 ∷ 9 ∷ [];
    system = record { opened = 8 ∷ 6 ∷ 5 ∷ 7 ∷ []; watched = 8 ∷ 6 ∷ 5 ∷ 7 ∷ [] };
  };
}

-- In the loop the backend of carbon gets another socket.
abbrev reconnected : Run
reconnected = record loaded {
  servers = record connected.server {
    carbon_server = record connected.server.carbon_server {
      stats = some (record { objects = 11 ∷ 14 ∷ []; sockets = 17 ∷ [] });
    };
  };
  process = record connected.process {
    system = record { opened = 17 ∷ 8 ∷ 6 ∷ 5 ∷ []; watched = 17 ∷ 8 ∷ 6 ∷ 5 ∷ [] };
  };
}

abbrev reconnects :
    IsWorking
      (λ run. done reconnected)
      (record loaded { servers = connected.server; process = connected.process })
reconnects = record {
  end = reconnected;
  returns = refl;
  initialized = refl;
  idle_carbon = λ off. absurd (cc off);
  idle_statsd = λ off. absurd (cc off);
  balanced = λ x. refl;
}
