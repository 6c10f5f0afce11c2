-- ===== src/Config/Events.antt =====
-- src/yaml_config.c: the events of libyaml, the variables of parse_config, and the keys that it knows.
use statsrelay.Prelude.{ℕ, ◌-◌, ◌^◌, Bool, Option, none, some, List, [], ◌∷◌}
use statsrelay.Config.{ProtoConfig, Config}

-- The events of libyaml. A scalar has its value up to the first NUL.
pub data Event : Type 0 where
  no_event stream_start stream_end document_start document_end : Event
  sequence_start sequence_end mapping_start mapping_end alias : Event
  scalar : List ℕ → Event

-- One event, and whether statsrelay_list_expand and strdup have memory while it is handled.
pub record Read : Type 0 where
  pub event : Event
  pub expanded : Bool
  pub copied : Bool

-- strtol: whether it read a number, and the 64 bits of the long that it returns.
abbrev pub Strtol : Type 0
Strtol = List ℕ → Bool × ℕ

-- The two values that the pointer `protoc` has beside NULL.
pub data Protocol : Type 0 where
  carbon statsd : Protocol

-- The local variables of parse_config. `shard_count` is an int, here with the 64 bits that it has where
-- it is compared with a long; `map_nesting` has the 32 bits of its value.
pub record Progress : Type 0 where
  pub config : Config
  pub protoc : Option Protocol
  pub shard_count : ℕ
  pub map_nesting : ℕ
  pub in_document : Bool
  pub is_key : Bool
  pub update_bind : Bool
  pub update_send_queue : Bool
  pub update_validate : Bool
  pub update_tcp_cork : Bool
  pub always_resolve_dns : Bool
  pub expect_shard_map : Bool

-- What an event leads to: the next round, the end of the loop, `goto parse_err`, or a use of memory
-- that the program does not own.
pub data Next : Type 0 where
  goes_on ends : Progress → Next
  fails breaks : Next

abbrev pub minus_one : ℕ
minus_one = 2 ^ 64 - 1

abbrev pub edit_config : Protocol → (ProtoConfig → ProtoConfig) → Config → Config
edit_config carbon f c = record c { carbon_config = f c.carbon_config }
edit_config statsd f c = record c { statsd_config = f c.statsd_config }

-- A write through `protoc`.
unfoldable pub edit : (ProtoConfig → ProtoConfig) → Progress → Next
edit f s = elim s.protoc [
  | none ↦ breaks
  | some p ↦ goes_on (record s { config = edit_config p f s.config })
]

abbrev pub key_carbon : List ℕ
key_carbon = b'c' ∷ b'a' ∷ b'r' ∷ b'b' ∷ b'o' ∷ b'n' ∷ []

abbrev pub key_statsd : List ℕ
key_statsd = b's' ∷ b't' ∷ b'a' ∷ b't' ∷ b's' ∷ b'd' ∷ []

abbrev pub key_bind : List ℕ
key_bind = b'b' ∷ b'i' ∷ b'n' ∷ b'd' ∷ []

abbrev pub key_max_send_queue : List ℕ
key_max_send_queue =
    b'm' ∷ b'a' ∷ b'x' ∷ b'_' ∷ b's' ∷ b'e' ∷ b'n' ∷ b'd' ∷ b'_' ∷ b'q' ∷ b'u' ∷ b'e' ∷ b'u' ∷ b'e'
    ∷ []

abbrev pub key_shard_map : List ℕ
key_shard_map = b's' ∷ b'h' ∷ b'a' ∷ b'r' ∷ b'd' ∷ b'_' ∷ b'm' ∷ b'a' ∷ b'p' ∷ []

abbrev pub key_validate : List ℕ
key_validate = b'v' ∷ b'a' ∷ b'l' ∷ b'i' ∷ b'd' ∷ b'a' ∷ b't' ∷ b'e' ∷ []

abbrev pub key_tcp_cork : List ℕ
key_tcp_cork = b't' ∷ b'c' ∷ b'p' ∷ b'_' ∷ b'c' ∷ b'o' ∷ b'r' ∷ b'k' ∷ []

abbrev pub key_always_resolve_dns : List ℕ
key_always_resolve_dns =
    b'a' ∷ b'l' ∷ b'w' ∷ b'a' ∷ b'y' ∷ b's' ∷ b'_' ∷ b'r' ∷ b'e' ∷ b's' ∷ b'o' ∷ b'l' ∷ b'v' ∷ b'e'
    ∷ b'_' ∷ b'd' ∷ b'n' ∷ b's' ∷ []
