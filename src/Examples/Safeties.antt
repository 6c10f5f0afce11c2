-- ===== src/Examples/Safeties.antt =====
-- A client that connects to a server and sends a line.
use statsrelay.Prelude.{true, false, List, [], ◌∷◌, ◌++◌, replicate}
use statsrelay.Outcome.{Outcome}
use statsrelay.Buffer.{Buffer}
use statsrelay.Client.Transfer.{got}
use statsrelay.Stats.Relay.{newline}
use statsrelay.TcpServer.{TcpServer, Event, connection, readable, accepted}
use statsrelay.TcpServer.Stats.{Given, Shared}
use statsrelay.Examples.{plenty}
use statsrelay.Examples.Servers.{server, world, counter}

abbrev given : Given
given = record {
  memory = true;
  malloc = plenty;
  recv = got (counter ++ newline ∷ []);
  world = world;
}

abbrev listening : TcpServer Shared Buffer
listening = record {
  sessions = [];
  shared = record { server = server; sent = [] };
  system = record { opened = 4 ∷ []; watched = 4 ∷ [] };
}

abbrev line_sent : List (Event Given)
line_sent = connection false given (accepted 5) ∷ readable false given 5 ∷ []

abbrev fresh : Buffer
fresh = record { mem = replicate 4096 0; head = 0; tail = 0; size = 4096 }
