-- ===== src/Config.antt =====
-- src/yaml_config.h, src/yaml_config.c: the configuration of both protocols.
-- This file has the records; the parser stands in `Parser`.
pub mod Events
pub mod Scalars
pub mod Parser
pub mod Document
pub mod Shards
pub mod Settings
pub mod Reading
pub mod RoundTrip
pub mod Flags
use statsrelay.Prelude.{ℕ, Bool, Option, List, [], ◌∷◌}

pub record ProtoConfig : Type 0 where
  pub initialized : Bool
  pub bind : Option (List ℕ)
  pub enable_validation : Bool
  pub enable_tcp_cork : Bool
  pub always_resolve_dns : Bool
  pub max_send_queue : ℕ
  pub ring : List (List ℕ)

pub record Config : Type 0 where
  pub statsd_config : ProtoConfig
  pub carbon_config : ProtoConfig

-- `/etc/statsrelay.yaml`
abbrev pub default_config : List ℕ
default_config =
    b'/' ∷ b'e' ∷ b't' ∷ b'c' ∷ b'/' ∷ b's' ∷ b't' ∷ b'a' ∷ b't' ∷ b's' ∷ b'r' ∷ b'e' ∷ b'l' ∷ b'a'
    ∷ b'y' ∷ b'.' ∷ b'y' ∷ b'a' ∷ b'm' ∷ b'l' ∷ []
