-- ===== src/Config/Scalars.antt =====
-- src/yaml_config.c: what parse_config does with a scalar.
use statsrelay.Prelude.{
  ℕ, ◌+◌, ◌-◌, ◌^◌, Bool, true, false, not, Option, none, some, List, [], ◌∷◌, ◌++◌, if◌then◌else◌,
  ◌==◌, u64,
}
use statsrelay.Bytes.{same_bytes}
use statsrelay.Config.{ProtoConfig}
use statsrelay.Config.Events.{
  Read, Strtol, Protocol, carbon, statsd, Progress, Next, goes_on, ends, fails, breaks, minus_one,
  edit_config, edit, key_carbon, key_statsd, key_bind, key_max_send_queue, key_shard_map,
  key_validate, key_tcp_cork, key_always_resolve_dns,
}

unfoldable pub set_boolean : List ℕ → Option Bool
unfolding same_bytes
set_boolean strval =
    if same_bytes strval (b't' ∷ b'r' ∷ b'u' ∷ b'e' ∷ [])
    then some true
    else if same_bytes strval (b'f' ∷ b'a' ∷ b'l' ∷ b's' ∷ b'e' ∷ [])
    then some false
    else none

abbrev select : Protocol → Progress → Next
select p s = goes_on (record s {
  protoc = some p;
  config = edit_config p (λ c. record c { initialized = true }) s.config;
})

-- A scalar inside one map: the name of a protocol.
unfoldable pub protocol_scalar : List ℕ → Progress → Next
unfolding same_bytes
protocol_scalar strval s =
    if same_bytes strval key_carbon
    then select carbon s
    else if same_bytes strval key_statsd
    then select statsd s
    else fails

-- A key inside two maps.
unfoldable pub key_scalar : List ℕ → Progress → Progress
unfolding same_bytes
key_scalar strval s =
    if same_bytes strval key_bind
    then record s { update_bind = true }
    else if same_bytes strval key_max_send_queue
    then record s { update_send_queue = true }
    else if same_bytes strval key_shard_map
    then record s { shard_count = minus_one; expect_shard_map = true }
    else if same_bytes strval key_validate
    then record s { update_validate = true }
    else if same_bytes strval key_tcp_cork
    then record s { update_tcp_cork = true }
    else if same_bytes strval key_always_resolve_dns
    then record s { always_resolve_dns = true }
    else s

-- A Boolean field, if the text is one.
abbrev pub edit_boolean : Option Bool → (Bool → ProtoConfig → ProtoConfig) → Progress → Next
edit_boolean none f s = fails
edit_boolean (some b) f s = edit (f b) s

-- A value inside two maps. A strdup that fails leaves `bind` NULL; a text that is no number is logged.
unfoldable pub value_scalar : Strtol → Bool → List ℕ → Progress → Next
unfolding edit set_boolean
value_scalar strtol copied strval s =
    if s.update_bind
    then (edit (λ c. record c { bind = if copied then some strval else none })
        (record s { update_bind = false }))
    else if s.update_send_queue
    then (edit (λ c. record c { max_send_queue = (strtol strval).1 })
        (record s { update_send_queue = false }))
    else if s.update_validate
    then (edit_boolean (set_boolean strval) (λ b c. record c { enable_validation = b })
        (record s { update_validate = false }))
    else if s.update_tcp_cork
    then (edit_boolean (set_boolean strval) (λ b c. record c { enable_tcp_cork = b })
        (record s { update_tcp_cork = false }))
    else if s.always_resolve_dns
    then edit_boolean (set_boolean strval) (λ b c. record c { always_resolve_dns = b }) s
    else goes_on s

-- A value of the shard map. If the list cannot grow, destroy_config reads behind its block.
unfoldable pub shard_address : Read → List ℕ → Progress → Next
unfolding edit
shard_address r strval s = if not r.expanded then breaks else elim s.protoc [
  | none ↦ breaks
  | some p ↦ if r.copied then edit (λ c. record c { ring = c.ring ++ strval ∷ [] }) s else fails
]

-- A key of the shard map: the next number. At INT_MAX the addition overflows.
unfoldable pub shard_key : Strtol → List ℕ → Progress → Next
shard_key strtol strval s =
    let (number, numval) = strtol strval in
    if not number
    then fails
    else if s.shard_count == 2 ^ 31 - 1
    then breaks
    else (let shard_count = u64 (s.shard_count + 1) in
        if numval == shard_count then goes_on (record s { shard_count = shard_count }) else fails)

-- `is_key = !is_key` behind the switch on `map_nesting`.
abbrev pub toggle : Next → Next
toggle (goes_on s) = goes_on (record s { is_key = not s.is_key })
toggle (ends s) = ends s
toggle fails = fails
toggle breaks = breaks

unfoldable pub scalar_event : Strtol → Read → List ℕ → Progress → Next
unfolding protocol_scalar key_scalar value_scalar shard_address shard_key
scalar_event strtol r strval s =
    if s.map_nesting == 0
    then fails
    else if s.map_nesting == 1
    then protocol_scalar strval s
    else if s.map_nesting == 2
    then (if s.is_key then goes_on (key_scalar strval s) else value_scalar strtol r.copied strval s)
    else if s.map_nesting == 3
    then (if not s.expect_shard_map
        then fails
        else if s.is_key
        then shard_key strtol strval s
        else shard_address r strval s)
    else goes_on s
