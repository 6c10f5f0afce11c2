-- ===== src/Examples/Making.antt =====
-- Theorems on the making of backends at a concrete server.
use statsrelay.Prelude.{ℕ, ◌≡◌, refl, true, Option, none, some, List, [], ◌∷◌, replicate, arith}
use statsrelay.Client.Connect.{connect}
use statsrelay.Client.Setup.{tcpclient_init}
use statsrelay.Stats.{Server}
use statsrelay.Stats.Backends.{
  Making, parse_address, find_backend, connect_backend, make_backend, blank, stats_server_create,
}
use statsrelay.Stats.Backends.Growing.{make_backends}
use statsrelay.Stats.Backends.Naming.{NamesSame, written_out, tcp_suffix}
use statsrelay.Stats.Backends.Once.{make_backend_again}
use statsrelay.Config.{ProtoConfig}
use statsrelay.Protocol.{protocol_parser_statsd}
use statsrelay.Protocol.Key.{protocol_parser_statsd-le}
use statsrelay.Stats.Safety.{IsSound}
use statsrelay.Stats.Backends.Sound.{stats_server_create-IsSound}
use statsrelay.Ring
use statsrelay.Examples.Rings.{roomy, roomy-IsAllocator}
use statsrelay.Examples.{plenty, plenty-IsMalloc, test_config, connected_client, up}

abbrev pub making : Making
making = record {
  strings = true;
  memory = true;
  longer_list = true;
  copies = record { host = true; port = true; protocol = true };
  malloc = plenty;
  net = up;
  raw = connected_client;
}

abbrev empty_server : Server
empty_server = blank test_config protocol_parser_statsd none

-- `h:1`
abbrev target : List ℕ
target = b'h' ∷ b':' ∷ b'1' ∷ []

abbrev served : Server
served = (make_backend making target empty_server).1

made : make_backend making target empty_server ≡ (some 0, served)
unfolding make_backend parse_address find_backend connect_backend tcpclient_init connect
made = refl

-- `h:1:tcp`, and `g:1` that comes between.
abbrev target_in_full : List ℕ
target_in_full = b'h' ∷ b':' ∷ (b'1' ∷ tcp_suffix)

abbrev between : List (Making × List ℕ)
between = (making, b'g' ∷ b':' ∷ b'1' ∷ []) ∷ []

names_served : NamesSame target target_in_full
names_served = written_out (b'h' ∷ []) (b'1' ∷ []) (ground arith, tt) (ground arith, tt)

make_backend_again_example :
    make_backend making target_in_full (make_backends between served)
    ≡ (some 0, make_backends between served)
make_backend_again_example =
    make_backend_again making making target target_in_full between empty_server served 0 tt refl
      refl names_served made

-- Two shards of one backend.
abbrev one_backend : ProtoConfig
one_backend = record test_config { ring = target ∷ target ∷ [] }

abbrev creation : Option Server
creation = stats_server_create (λ line. making) roomy one_backend protocol_parser_statsd none

abbrev created : Server
created = elim creation [ none ↦ empty_server | some ss ↦ ss ]

created_lem : creation ≡ some created
unfolding stats_server_create Ring.load_from_config make_backend parse_address find_backend
    connect_backend tcpclient_init connect
created_lem = refl

stats_server_create-IsSound_example : IsSound created
stats_server_create-IsSound_example =
    stats_server_create-IsSound (λ line. making) roomy one_backend protocol_parser_statsd none
      created (λ line. (plenty-IsMalloc, (replicate 4096 0, refl))) roomy-IsAllocator (omega arith)
      protocol_parser_statsd-le created_lem
