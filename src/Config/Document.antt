-- ===== src/Config/Document.antt =====
-- Documents of known settings, what they mean, and the events that libyaml makes of them.
use statsrelay.Prelude.{ℕ, suc, ◌^◌, ◌<◌, ◌≡◌, Bool, true, false, some, List, [], ◌∷◌, ◌++◌}
use statsrelay.Config.{ProtoConfig, Config}
use statsrelay.Config.Parser.{
  Event, stream_start, stream_end, document_start, document_end, mapping_start, mapping_end, scalar,
  Read, Strtol, Protocol, carbon, statsd, edit_config, key_carbon, key_statsd, key_bind,
  key_max_send_queue, key_shard_map, key_validate, key_tcp_cork, key_always_resolve_dns,
}

-- One setting of a protocol. A shard is its key and its address.
pub data Setting : Type 0 where
  bind : List ℕ → Setting
  max_send_queue : List ℕ → Setting
  validate tcp_cork always_resolve_dns : Bool → Setting
  shard_map : List (List ℕ × List ℕ) → Setting

abbrev pub Section : Type 0
Section = Protocol × List Setting

abbrev pub addresses : List (List ℕ × List ℕ) → List (List ℕ)
addresses [] = []
addresses ((key, address) ∷ shards) = address ∷ addresses shards

-- What a setting does to the record of its protocol.
abbrev pub set_to : Strtol → Setting → ProtoConfig → ProtoConfig
set_to strtol (bind text) c = record c { bind = some text }
set_to strtol (max_send_queue text) c = record c { max_send_queue = (strtol text).1 }
set_to strtol (validate b) c = record c { enable_validation = b }
set_to strtol (tcp_cork b) c = record c { enable_tcp_cork = b }
set_to strtol (always_resolve_dns b) c = record c { always_resolve_dns = b }
set_to strtol (shard_map shards) c = record c { ring = c.ring ++ addresses shards }

abbrev pub set_all : Strtol → List Setting → ProtoConfig → ProtoConfig
set_all strtol [] c = c
set_all strtol (x ∷ xs) c = set_all strtol xs (set_to strtol x c)

-- A document changes the configuration by one section after the other.
abbrev pub meaning : Strtol → List Section → Config → Config
meaning strtol [] c = c
meaning strtol ((p, settings) ∷ sections) c =
    meaning strtol sections
      (edit_config p (λ pc. set_all strtol settings (record pc { initialized = true })) c)

-- The keys of a shard map are the numbers from `i` on.
abbrev pub IsNumbered : Strtol → ℕ → List (List ℕ × List ℕ) → Type 0
IsNumbered strtol i [] = Unit {0}
IsNumbered strtol i ((key, address) ∷ shards) =
    (strtol key ≡ (true, i)) × (i < 2 ^ 31) × IsNumbered strtol (suc i) shards

abbrev pub AreNumbered : Strtol → List Setting → Type 0
AreNumbered strtol [] = Unit {0}
AreNumbered strtol (shard_map shards ∷ xs) = IsNumbered strtol 0 shards × AreNumbered strtol xs
AreNumbered strtol (_ ∷ xs) = AreNumbered strtol xs

abbrev pub IsDocument : Strtol → List Section → Type 0
IsDocument strtol [] = Unit {0}
IsDocument strtol ((p, settings) ∷ sections) =
    AreNumbered strtol settings × IsDocument strtol sections

-- An event that is handled where memory is plenty.
abbrev pub reading : Event → Read
reading e = record { event = e; expanded = true; copied = true }

abbrev pub boolean_text : Bool → List ℕ
boolean_text true = b't' ∷ b'r' ∷ b'u' ∷ b'e' ∷ []
boolean_text false = b'f' ∷ b'a' ∷ b'l' ∷ b's' ∷ b'e' ∷ []

abbrev pub pair_events : List ℕ → List ℕ → List Read → List Read
pair_events key value rest = reading (scalar key) ∷ reading (scalar value) ∷ rest

abbrev pub shard_events : List (List ℕ × List ℕ) → List Read → List Read
shard_events [] rest = rest
shard_events ((key, address) ∷ shards) rest = pair_events key address (shard_events shards rest)

-- The events of a setting, before others.
abbrev pub setting_events : Setting → List Read → List Read
setting_events (bind text) rest = pair_events key_bind text rest
setting_events (max_send_queue text) rest = pair_events key_max_send_queue text rest
setting_events (validate b) rest = pair_events key_validate (boolean_text b) rest
setting_events (tcp_cork b) rest = pair_events key_tcp_cork (boolean_text b) rest
setting_events (always_resolve_dns b) rest =
    pair_events key_always_resolve_dns (boolean_text b) rest
setting_events (shard_map shards) rest =
    reading (scalar key_shard_map)
    ∷ reading mapping_start
    ∷ shard_events shards (reading mapping_end ∷ rest)

abbrev pub settings_events : List Setting → List Read → List Read
settings_events [] rest = rest
settings_events (x ∷ xs) rest = setting_events x (settings_events xs rest)

abbrev pub protocol_key : Protocol → List ℕ
protocol_key carbon = key_carbon
protocol_key statsd = key_statsd

abbrev pub section_events : List Section → List Read → List Read
section_events [] rest = rest
section_events ((p, settings) ∷ sections) rest =
    reading (scalar (protocol_key p))
    ∷ reading mapping_start
    ∷ settings_events settings (reading mapping_end ∷ section_events sections rest)

abbrev pub events_of : List Section → List Read
events_of sections =
    reading stream_start
    ∷ reading document_start
    ∷ reading mapping_start
    ∷ section_events sections (reading mapping_end ∷ reading document_end ∷ reading stream_end ∷ [])
