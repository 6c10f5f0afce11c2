-- ===== src/Config/Parser.antt =====
-- parse_config: what each event of libyaml does to a configuration.
use statsrelay.Prelude.{
  ℕ, ◌+◌, ◌-◌, ◌^◌, ◌%◌, Bool, true, false, not, Option, none, some, List, [], ◌∷◌, if◌then◌else◌,
}
use statsrelay.Outcome.{Outcome, done, undefined}
use statsrelay.Config.{ProtoConfig, Config}
pub use statsrelay.Config.Events.{
  Event, no_event, stream_start, stream_end, document_start, document_end, sequence_start,
  sequence_end, mapping_start, mapping_end, alias, scalar, Read, Strtol, Protocol, carbon, statsd,
  Progress, Next, goes_on, ends, fails, breaks, minus_one, edit_config, key_carbon, key_statsd,
  key_bind, key_max_send_queue, key_shard_map, key_validate, key_tcp_cork, key_always_resolve_dns,
}
unfoldable pub use statsrelay.Config.Scalars.{
  set_boolean, protocol_scalar, key_scalar, value_scalar, shard_address, shard_key, scalar_event,
}
use statsrelay.Config.Scalars.{toggle}

-- One round of the loop: the switch on `event.type`.
unfoldable pub next_event : Strtol → Read → Progress → Next
unfolding scalar_event
next_event strtol r s = elim r.event [
  | no_event ↦ goes_on s
  | stream_start ↦ goes_on s
  | stream_end ↦ ends s
  | document_start ↦ if s.in_document then fails else goes_on (record s { in_document = true })
  | document_end ↦ goes_on (record s { in_document = false })
  | sequence_start ↦ fails
  | sequence_end ↦ fails
  | mapping_start ↦ goes_on (record s { is_key = true; map_nesting = (s.map_nesting + 1) % 2 ^ 32 })
  | mapping_end ↦ goes_on (record s { map_nesting = (s.map_nesting + (2 ^ 32 - 1)) % 2 ^ 32 })
  | alias ↦ fails
  | scalar strval ↦ toggle (scalar_event strtol r strval s)
]

-- The loop. A list that ends stands for a yaml_parser_parse that fails behind its last event.
unfoldable pub parse_events : Strtol → List Read → Progress → Outcome (Option Config)
unfolding next_event
parse_events strtol [] s = done none
parse_events strtol (r ∷ reads) s = elim (next_event strtol r s) [
  | goes_on s' ↦ parse_events strtol reads s'
  | ends s' ↦ done (some s'.config)
  | fails ↦ done none
  | breaks ↦ undefined
]

-- What the calls before the loop answer: malloc for the configuration, statsrelay_list_new for the
-- first ring, strdup for the two addresses, and yaml_parser_initialize.
pub record Start : Type 0 where
  pub memory : Bool
  pub carbon_ring : Bool
  pub carbon_bind : Bool
  pub statsd_bind : Bool
  pub parser : Bool

abbrev pub init_proto_config : ProtoConfig
init_proto_config = record {
  initialized = false;
  bind = none;
  enable_validation = true;
  enable_tcp_cork = true;
  always_resolve_dns = false;
  max_send_queue = 134217728;
  ring = [];
}

abbrev pub default_carbon : List ℕ
default_carbon =
    b'1' ∷ b'2' ∷ b'7' ∷ b'.' ∷ b'0' ∷ b'.' ∷ b'0' ∷ b'.' ∷ b'1' ∷ b':' ∷ b'2' ∷ b'0' ∷ b'0' ∷ b'3'
    ∷ []

abbrev pub default_statsd : List ℕ
default_statsd =
    b'1' ∷ b'2' ∷ b'7' ∷ b'.' ∷ b'0' ∷ b'.' ∷ b'0' ∷ b'.' ∷ b'1' ∷ b':' ∷ b'8' ∷ b'1' ∷ b'2' ∷ b'5'
    ∷ []

abbrev pub initial_config : Start → Config
initial_config start = record {
  carbon_config = record init_proto_config {
    bind = if start.carbon_bind then some default_carbon else none;
  };
  statsd_config = record init_proto_config {
    bind = if start.statsd_bind then some default_statsd else none;
  };
}

abbrev pub initial_progress : Start → Progress
initial_progress start = record {
  config = initial_config start;
  protoc = none;
  shard_count = minus_one;
  map_nesting = 0;
  in_document = false;
  is_key = false;
  update_bind = false;
  update_send_queue = false;
  update_validate = false;
  update_tcp_cork = false;
  always_resolve_dns = false;
  expect_shard_map = false;
}

-- The allocation of the second ring, which the source does not test, is taken to succeed. If the parser
-- cannot be set up, yaml_event_delete is called on an event that was never set.
unfoldable pub parse_config : Strtol → Start → List Read → Outcome (Option Config)
unfolding parse_events
parse_config strtol start reads =
    if not start.memory
    then done none
    else if not start.carbon_ring
    then done none
    else if not start.parser
    then undefined
    else parse_events strtol reads (initial_progress start)
