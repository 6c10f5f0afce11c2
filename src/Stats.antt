-- ===== src/Stats.antt =====
-- src/stats.c, src/stats.h: a server with its backends, and the sessions of its TCP clients.
-- This file has the state; the functions stand in the modules below.
pub mod Backends
pub mod Relay
pub mod Report
pub mod Session
pub mod Udp
pub mod Lines
pub mod Reads
pub mod Routing
pub mod Delivery
pub mod Safety
use statsrelay.Prelude.{ℕ, Bool, Option, List}
use statsrelay.Protocol.{Parser}
use statsrelay.Config.{ProtoConfig}
use statsrelay.Ring.{Ring, Pointer}
use statsrelay.Client.{Client}
use statsrelay.Client.Connect.{Network}
use statsrelay.Buffer.{Malloc}

pub record Backend : Type 0 where
  pub client : Client
  pub key : List ℕ
  pub bytes_queued : ℕ
  pub bytes_sent : ℕ
  pub relayed_lines : ℕ
  pub dropped_lines : ℕ
  pub failing : Bool

-- 0 for a line that is valid.
abbrev pub Validator : Type 0
Validator = List ℕ → ℕ

-- A `stats_backend_t *` is the place of the backend in `heap`, which has every backend that was made.
pub record Server : Type 0 where
  pub heap : List Backend
  pub bytes_recv_udp : ℕ
  pub bytes_recv_tcp : ℕ
  pub total_connections : ℕ
  pub malformed_lines : ℕ
  pub last_reload : ℕ
  pub config : ProtoConfig
  pub backend_list : List Pointer
  pub ring : Option Ring
  pub parser : Parser
  pub validator : Option Validator

-- What malloc and the network answer while one line is relayed.
pub record Env : Type 0 where
  pub malloc : Malloc
  pub net : Network
