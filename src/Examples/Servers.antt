-- ===== src/Examples/Servers.antt =====
-- Theorems on a server at a concrete server with one backend.
use statsrelay.Prelude.{
  ℕ, suc, zero, ◌≤◌, ◌≡◌, refl, false, none, some, List, [], ◌∷◌, ◌++◌, replicate, length-replicate,
  arith,
}
use statsrelay.Outcome.{done, undefined, map_outcome, ◌>>=◌}
use statsrelay.Bytes.Search.{Lacks}
use statsrelay.Buffer.{Buffer, ok, spacecount}
use statsrelay.Buffer.Invariant.{IsValid}
use statsrelay.Protocol.{protocol_parser_statsd}
use statsrelay.Ring
use statsrelay.Ring.{Ring}
use statsrelay.Client.Transfer.{got}
use statsrelay.Hash.{stats_hash}
use statsrelay.Stats.{Server, Backend, Env}
use statsrelay.Stats.Relay.{relay_line, send_line}
use statsrelay.Stats.Session.{World, process_lines, read_space, stats_recv, close_unless}
use statsrelay.Stats.Udp.{stats_udp_recv}
use statsrelay.Stats.Udp.Lines.{lines_from, relay_all, stats_udp_recv_lem}
use statsrelay.Stats.Lines.{feed, view, process_lines-eq-feed}
use statsrelay.Stats.Reads.{resume, process_lines-resume, view_session, stats_recv_lem}
use statsrelay.Stats.Routing.{route, IsDelivered, relay_line_delivers, relay_line_overruns}
use statsrelay.Examples.{
  plenty, plenty-IsMalloc, two_bytes, two_bytes-IsValid, connected_client, connected_client-IsOpen,
  up, test_config,
}

abbrev pub answers : Env
answers = record { malloc = plenty; net = up }

abbrev pub world : World
world = record {
  relaying = λ ss line. answers;
  response_memory = plenty;
  sends = λ ss. some 10 ∷ [];
}

abbrev pub backend : Backend
backend = record {
  client = connected_client;
  key = b'h' ∷ b':' ∷ b'1' ∷ [];
  bytes_queued = 2;
  bytes_sent = 0;
  relayed_lines = 1;
  dropped_lines = 0;
  failing = false;
}

abbrev pub server : Server
server = record {
  heap = backend ∷ [];
  bytes_recv_udp = 0;
  bytes_recv_tcp = 0;
  total_connections = 1;
  malformed_lines = 0;
  last_reload = 0;
  config = test_config;
  backend_list = 0 ∷ [];
  ring = some (record { backends = record { allocated_size = 1; size = 1; slots = some 0 ∷ [] } });
  parser = protocol_parser_statsd;
  validator = none;
}

-- `a:1`
abbrev pub counter : List ℕ
counter = b'a' ∷ b':' ∷ b'1' ∷ []

-- A line and the start of the next.
abbrev session : Buffer
session = record { mem = counter ++ 10 ∷ b'b' ∷ []; head = 0; tail = 5; size = 5 }

session-IsValid : IsValid session
session-IsValid = ground arith

process_lines-eq-feed_example :
    map_outcome view (process_lines 5 world session server)
    ≡ feed world [] (counter ++ 10 ∷ b'b' ∷ []) server
process_lines-eq-feed_example =
    process_lines-eq-feed 5 world session server session-IsValid (omega arith)

-- The start of the session.
abbrev started : Buffer
started = record { mem = b'a' ∷ b':' ∷ []; head = 0; tail = 2; size = 2 }

started-IsValid : IsValid started
started-IsValid = ground arith

process_lines-resume_example : map_outcome view (process_lines 5 world session server) ≡ (
    map_outcome view (process_lines 2 world started server)
    >>= resume world (b'1' ∷ 10 ∷ b'b' ∷ []))
process_lines-resume_example =
    process_lines-resume world started session (b'1' ∷ 10 ∷ b'b' ∷ []) server started-IsValid
      session-IsValid refl

room : (read_space plenty two_bytes).0 ≡ ok
unfolding read_space
room = refl

room_left : 1 ≤ spacecount (read_space plenty two_bytes).1
unfolding read_space
room_left = omega arith

stats_recv_lem_example :
    map_outcome view_session (stats_recv plenty (got (10 ∷ [])) world two_bytes server)
    ≡ map_outcome close_unless
        (feed world [] (2 ∷ 3 ∷ 10 ∷ []) (record server { bytes_recv_tcp = 1 }))
stats_recv_lem_example =
    stats_recv_lem world (10 ∷ []) two_bytes server plenty-IsMalloc two_bytes-IsValid (omega arith)
      room room_left

pub counter_parsed : protocol_parser_statsd (some counter) ≡ 1
unfolding protocol_parser_statsd
counter_parsed = refl

routed : route server counter ≡ some (0, 0)
unfolding Ring.choose protocol_parser_statsd stats_hash
routed = refl

relay_line_delivers_example :
    (relay_line answers counter server
      ≡ done (
        (send_line answers counter backend).0,
        record server { heap = (send_line answers counter backend).1 ∷ [] },
      ))
    × IsDelivered counter backend (send_line answers counter backend)
relay_line_delivers_example =
    relay_line_delivers answers counter server refl (omega (arith, counter_parsed)) 0 0 backend
      plenty-IsMalloc (omega (arith, counter_parsed)) routed refl connected_client-IsOpen

-- A key of 9000 bytes.
abbrev long_key : List ℕ
long_key = replicate 9000 b'a'

Lacks-replicate : (n : ℕ) → Lacks b':' (replicate n b'a')
Lacks-replicate zero = tt
Lacks-replicate (suc n) = (λ e. omega (arith, e), Lacks-replicate n)

relay_line_overruns_example : relay_line answers (long_key ++ b':' ∷ b'1' ∷ []) server ≡ undefined
relay_line_overruns_example =
    relay_line_overruns answers server long_key (b'1' ∷ []) refl refl (Lacks-replicate 9000)
      (omega (arith, length-replicate {A = ℕ} 9000 b'a'))

-- A datagram of a line with a newline and a line without.
stats_udp_recv_lem_example :
    stats_udp_recv (some (counter ++ 10 ∷ counter)) (λ ss line. answers) server
    ≡ relay_all (λ ss line. answers) (counter ∷ counter ∷ []) (record server { bytes_recv_udp = 7 })
unfolding lines_from
stats_udp_recv_lem_example =
    stats_udp_recv_lem (λ ss line. answers) (counter ++ 10 ∷ counter) server (omega arith)
