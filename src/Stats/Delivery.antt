-- ===== src/Stats/Delivery.antt =====
-- What becomes of the bytes that a server relays to one backend: stats_relay_line and the callbacks of
-- the backends' clients, in any order.
pub mod Advance
pub mod Steps
pub mod Whole
use statsrelay.Prelude.{
  ℕ, ◌+◌, ◌<◌, ◌≡◌, Option, none, some, List, [], ◌∷◌, ◌++◌, ◌==◌, length, u64, set, get_elem?,
  if◌then◌else◌,
}
use statsrelay.Outcome.{Outcome, Holds, done, ◌>>=◌}
use statsrelay.Buffer.Invariant.{IsMalloc}
use statsrelay.Buffer.Queue.{contents}
use statsrelay.Ring
use statsrelay.Ring.{Pointer}
use statsrelay.Client.{Event}
use statsrelay.Client.Action.{Action, act, Allowed, accepted, sent_bytes, IsOpen}
use statsrelay.Stats.{Backend, Server, Env}
use statsrelay.Stats.Relay.{stats_sent, relay_line, key_buffer_size, newline}
use statsrelay.Stats.Routing.{route}

-- A line of a session, or an event of libev at the client of a backend.
pub data Happening : Type 0 where
  relayed : Env → List ℕ → Happening
  event : Pointer → Action → Happening

-- The bytes that a line which was relayed with `code` adds to the queue of backend `p`.
abbrev pub given_to : Pointer → List ℕ → ℕ → Option (Pointer × ℕ) → List ℕ
given_to p line code none = []
given_to p line code (some (q, _)) =
    if q == p then (if code == 0 then line ++ newline ∷ [] else []) else []

abbrev pub sent_by : Pointer → Pointer → List Event → List ℕ
sent_by p q events = if q == p then sent_bytes events else []

abbrev pub after_act : Action → Backend → Backend
after_act a b = stats_sent (act a b.client).1 (record b { client = (act a b.client).2 })

-- What one happening adds to the bytes that backend `p` is given and to those that it sends.
unfoldable pub happen : Pointer → Happening → Server → Outcome (List ℕ × List ℕ × Server)
unfolding relay_line act stats_sent
happen p (relayed env line) ss =
    relay_line env line ss >>= λ r. done (given_to p line r.0 (route ss line), [], r.1)
happen p (event q a) ss = elim (get_elem? ss.heap q) [
  | none ↦ done ([], [], ss)
  | some b ↦
      done ([], sent_by p q (act a b.client).1, record ss { heap = set ss.heap q (after_act a b) })
]

-- The bytes given to backend `p` and those that it sends, in a sequence of happenings.
unfoldable pub history : Pointer → List Happening → Server → Outcome (List ℕ × List ℕ × Server)
unfolding happen
history p [] ss = done ([], [], ss)
history p (h ∷ hs) ss =
    happen p h ss >>= λ r. history p hs r.2 >>= λ t. done (r.0 ++ t.0, r.1 ++ t.1, t.2)

-- Each backend has a valid queue, and the ring leads to backends.
pub record IsReady (ss : Server) : Type 0 where
  pub opened : (q : Pointer) (b : Backend) → get_elem? ss.heap q ≡ some b → IsOpen b.client
  pub live : (key : List ℕ) (q i : ℕ) → Ring.choose ss.ring key ≡ some (q, i) → q < length ss.heap

-- malloc keeps its contract and the key of a line fits its buffer; send(2) takes no more bytes than it
-- is given.
abbrev pub IsPossible : Happening → Server → Type 0
IsPossible (relayed env line) ss = IsMalloc env.malloc × (ss.parser (some line) < key_buffer_size)
IsPossible (event q a) ss =
    (b : Backend)
    → get_elem? ss.heap q ≡ some b
    → Allowed a b.client × ((code : ℕ) → accepted a code ≡ [])

-- The stream of a backend and its byte counters.
pub record Advances (given out : List ℕ) (b b' : Backend) : Type 0 where
  pub same_key : b'.key ≡ b.key
  pub stream : out ++ contents b'.client.send_queue ≡ contents b.client.send_queue ++ given
  pub counts_sent : u64 b'.bytes_sent ≡ u64 (b.bytes_sent + length out)
  pub counts_queued : u64 b'.bytes_queued ≡ u64 (b.bytes_queued + length given)

-- Each happening of a sequence is possible where it comes.
abbrev pub ArePossible : Pointer → List Happening → Server → Type 0
ArePossible p [] ss = Unit {0}
ArePossible p (h ∷ hs) ss =
    IsPossible h ss × Holds (λ (r : List ℕ × List ℕ × Server). ArePossible p hs r.2) (happen p h ss)
