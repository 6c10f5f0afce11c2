-- ===== src/Examples/Configs.antt =====
-- Configurations, and the documents that say them.
use statsrelay.Prelude.{ℕ, ◌≡◌, ◌≢◌, refl, ap, true, false, none, some, List, [], ◌∷◌, arith, ◌==◌}
use statsrelay.Outcome.{done}
use statsrelay.Decimal.{value_from, value_from-decimal}
use statsrelay.Config.{ProtoConfig}
use statsrelay.Config.Parser.{
  Strtol, carbon, statsd, Start, initial_config, parse_config, key_bind, key_max_send_queue,
  key_shard_map, key_validate, key_tcp_cork, key_always_resolve_dns,
}
use statsrelay.Config.Document.{
  Section, max_send_queue, validate, shard_map, meaning, events_of, pair_events, boolean_text,
}
use statsrelay.Config.Reading.{parse_config-events_of}
use statsrelay.Config.RoundTrip.{ReadsDecimal, IsWritable, document_of, parse_config-document_of}
use statsrelay.Config.Flags.{IsUnknown, dns_events, always_resolve_dns_sticks}
use statsrelay.Examples.{test_config}

-- A strtol for digits alone.
abbrev pub digits : Strtol
digits text = (true, value_from 0 text)

abbrev pub start : Start
start = record {
  memory = true;
  carbon_ring = true;
  carbon_bind = true;
  statsd_bind = true;
  parser = true;
}

abbrev sections : List Section
sections =
    (
      statsd,
      validate false
          ∷ shard_map
              ((b'0' ∷ [], b'h' ∷ b':' ∷ b'1' ∷ []) ∷ (b'1' ∷ [], b'k' ∷ b':' ∷ b'2' ∷ []) ∷ [])
          ∷ [],
    )
    ∷ (carbon, max_send_queue (b'6' ∷ b'4' ∷ []) ∷ [])
    ∷ []

parse_config-events_of_example :
    parse_config digits start (events_of sections)
    ≡ done (some (meaning digits sections (initial_config start)))
parse_config-events_of_example =
    parse_config-events_of digits start sections refl refl refl
      (((refl, omega arith, (refl, omega arith, tt)), tt), (tt, tt))

abbrev pub small : ProtoConfig
small = record test_config {
  bind = some (b'h' ∷ b':' ∷ b'1' ∷ []);
  ring = (b'a' ∷ b':' ∷ b'2' ∷ []) ∷ (b'b' ∷ b':' ∷ b'3' ∷ []) ∷ [];
}

pub small-IsWritable : IsWritable small
small-IsWritable = record {
  initialized = refl;
  address = (_, refl);
  queue = omega arith;
  shards = omega arith;
}

pub digits-ReadsDecimal : ReadsDecimal digits
digits-ReadsDecimal n h = ap (λ k. (true, k)) (value_from-decimal n (omega (arith, h)))

parse_config-document_of_example :
    parse_config digits start
      (events_of (document_of (record { carbon_config = small; statsd_config = small })))
    ≡ done (some (record { carbon_config = small; statsd_config = small }))
parse_config-document_of_example =
    parse_config-document_of digits start (record { carbon_config = small; statsd_config = small })
      refl refl refl digits-ReadsDecimal small-IsWritable small-IsWritable

abbrev comment : List ℕ
comment = b'n' ∷ b'o' ∷ b't' ∷ b'e' ∷ []

abbrev first_byte : List ℕ → ℕ
first_byte [] = 0
first_byte (x ∷ xs) = x

starts_otherwise : (xs ys : List ℕ) → (first_byte xs == first_byte ys) ≡ false → xs ≢ ys
starts_otherwise xs ys h e = ground (arith, ap first_byte e, h)

comment-IsUnknown : IsUnknown comment
comment-IsUnknown = record {
  not_bind = starts_otherwise comment key_bind refl;
  not_queue = starts_otherwise comment key_max_send_queue refl;
  not_shards = starts_otherwise comment key_shard_map refl;
  not_validate = starts_otherwise comment key_validate refl;
  not_cork = starts_otherwise comment key_tcp_cork refl;
  not_dns = starts_otherwise comment key_always_resolve_dns refl;
}

always_resolve_dns_sticks_example :
    parse_config digits start (dns_events statsd true (pair_events comment comment [])) ≡ done none
always_resolve_dns_sticks_example =
    always_resolve_dns_sticks digits start statsd true comment comment [] refl refl refl
      comment-IsUnknown (starts_otherwise comment (boolean_text true) refl)
      (starts_otherwise comment (boolean_text false) refl)
