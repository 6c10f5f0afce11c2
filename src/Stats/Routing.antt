-- ===== src/Stats/Routing.antt =====
-- The backend that stats_relay_line gives a line to.
use statsrelay.Protocol.{Parser, protocol_parser_statsd}
use statsrelay.Protocol.Key.{protocol_parser_statsd-append}
use statsrelay.Bytes.Search.{Lacks}
use statsrelay.Prelude.{
  ap, ◌∙◌, ℕ, ◌+◌, ◌≤◌, ◌<◌, ◌≡◌, refl, true, false, ◌&&◌, Option, some, List, [], ◌∷◌, ◌++◌, ◌==◌,
  ltb, take, length, u64, arith, inl, inr, ◌≢◌, ◌⊎◌, set, get_elem?,
}
use statsrelay.Outcome.{done, undefined}
use statsrelay.Buffer.Invariant.{IsMalloc}
use statsrelay.Buffer.Queue.{contents}
use statsrelay.Ring
use statsrelay.Ring.{Pointer, Ring}
use statsrelay.Client.{Client, Event, on_error}
use statsrelay.Client.Action.{IsOpen}
use statsrelay.Client.Transfer.{sendall}
use statsrelay.Client.Send.{IsSent, sendall-IsSent}
use statsrelay.Client.Stream.{sendall_events}
use statsrelay.Stats.{Backend, Server, Env}
use statsrelay.Stats.Relay.{
  record_send, stats_sent, send_line, forward, rejects, relay_line, key_buffer_size, newline,
}

-- The line passes validation, or there is none.
abbrev pub IsAccepted : Server → List ℕ → Type 0
IsAccepted ss line = (ss.config.enable_validation && rejects ss.validator line) ≡ false

-- The backend that the key of a line is sent to.
abbrev pub route : Server → List ℕ → Option (Pointer × ℕ)
route ss line = Ring.choose ss.ring (take (ss.parser (some line)) line ++ 0 ∷ [])

-- A backend before and after it was given a line: the line is queued whole and counted as relayed, or
-- nothing is queued and it is counted as dropped.
pub record IsDelivered (line : List ℕ) (b : Backend) (result : ℕ × Backend) : Type 0 where
  pub opened : IsOpen result.1.client
  pub same_key : result.1.key ≡ b.key
  pub same_sent : result.1.bytes_sent ≡ b.bytes_sent
  pub outcome :
      ((result.0 ≡ 0)
        × (contents result.1.client.send_queue
            ≡ contents b.client.send_queue ++ (line ++ newline ∷ []))
        × (result.1.relayed_lines ≡ u64 (b.relayed_lines + 1))
        × (result.1.bytes_queued ≡ u64 (b.bytes_queued + (length line + 1)))
        × (result.1.dropped_lines ≡ b.dropped_lines)
        × (result.1.failing ≡ false))
      ⊎ ((result.0 ≡ 2)
          × (contents result.1.client.send_queue ≡ contents b.client.send_queue)
          × (result.1.relayed_lines ≡ b.relayed_lines)
          × (result.1.bytes_queued ≡ b.bytes_queued)
          × (result.1.dropped_lines ≡ u64 (b.dropped_lines + 1))
          × (result.1.failing ≡ true))

abbrev IsQuiet : List Event → Type 0
IsQuiet events = (events ≡ []) ⊎ (events ≡ on_error ∷ [])

≢→== : (a b : ℕ) → a ≢ b → (a == b) ≡ false
≢→== a b h = ground (arith, h)

record_send-IsDelivered :
    (line : List ℕ) (b : Backend) (code : ℕ) (events : List Event) (c : Client)
    → IsQuiet events
    → IsSent (line ++ newline ∷ []) b.client (code, events, c)
    → IsOpen c
    → IsDelivered line b (record_send line b (code, events, c))
unfolding record_send stats_sent
record_send-IsDelivered line b code events c quiet r o = elim r.outcome [
  | inl (zero_code, queued, _) ↦ elim quiet [
    | inl e ↦
        rw (e, zero_code)
          (record {
            opened = o;
            same_key = refl;
            same_sent = refl;
            outcome = inl (refl, queued, refl, refl, refl, refl);
          })
    | inr e ↦
        rw (e, zero_code)
          (record {
            opened = o;
            same_key = refl;
            same_sent = refl;
            outcome = inl (refl, queued, refl, refl, refl, refl);
          })
  ]
  | inr (nonzero, same) ↦
      let test : (code == 0) ≡ false = ≢→== code 0 nonzero in
      elim quiet [
        | inl e ↦
            rw (e, test)
              (record {
                opened = o;
                same_key = refl;
                same_sent = refl;
                outcome = inr (refl, same, refl, refl, refl, refl);
              })
        | inr e ↦
            rw (e, test)
              (record {
                opened = o;
                same_key = refl;
                same_sent = refl;
                outcome = inr (refl, same, refl, refl, refl, refl);
              })
      ]
]

pub send_line-IsDelivered :
    (env : Env) (line : List ℕ) (b : Backend)
    → IsMalloc env.malloc
    → IsOpen b.client
    → IsDelivered line b (send_line env line b)
unfolding send_line
send_line-IsDelivered env line b m o =
    let buf = line ++ newline ∷ [] in
    let result = sendall env.malloc env.net buf b.client in
    let r = sendall-IsSent env.net buf b.client m o.valid o.sized in
    record_send-IsDelivered line b result.0 result.1 result.2
      (sendall_events env.malloc env.net buf b.client) r
      (record { valid = r.valid; sized = r.sized })

module _ (env : Env) (line : List ℕ) (ss : Server) (ok : IsAccepted ss line)
    (found : 0 < ss.parser (some line)) where
  -- For a line that passes validation, whose key has 1 to 8191 bytes and is assigned by the ring to
  -- a live backend with a valid, non-empty queue block, where malloc keeps its contract:
  -- stats_relay_line changes that backend alone, and either queues the whole line with its newline,
  -- counts it as relayed and returns 0, or queues nothing, counts it as dropped, flags the backend
  -- as failing and returns 2.
  pub relay_line_delivers :
      (p i : ℕ) (b : Backend)
      → IsMalloc env.malloc
      → ss.parser (some line) < key_buffer_size
      → route ss line ≡ some (p, i)
      → get_elem? ss.heap p ≡ some b
      → IsOpen b.client
      → (relay_line env line ss
          ≡ done (
            (send_line env line b).0,
            record ss { heap = set ss.heap p (send_line env line b).1 },
          ))
        × IsDelivered line b (send_line env line b)
  unfolding relay_line forward
  relay_line_delivers p i b m fits r h o =
      let nonzero : (ss.parser (some line) == 0) ≡ false = ground arith in
      let within : ltb key_buffer_size (ss.parser (some line) + 1) ≡ false = ground arith in
      (rw (ok, nonzero, within, r, forward, h) refl, send_line-IsDelivered env line b m o)

-- In a server of the statsd protocol, a line that passes validation and whose first colon stands
-- behind 8192 bytes or more makes stats_relay_line write past the end of `key_buffer`.
pub relay_line_overruns :
    (env : Env) (ss : Server) (key rest : List ℕ)
    → IsAccepted ss (key ++ b':' ∷ rest)
    → ss.parser ≡ protocol_parser_statsd
    → Lacks b':' key
    → key_buffer_size ≤ length key
    → relay_line env (key ++ b':' ∷ rest) ss ≡ undefined
unfolding relay_line
relay_line_overruns env ss key rest ok statsd plain long =
    let parsed : ss.parser (some (key ++ b':' ∷ rest)) ≡ length key =
      ap (λ (p : Parser). p (some (key ++ b':' ∷ rest))) statsd
      ∙ protocol_parser_statsd-append key rest plain in
    let nonzero : (ss.parser (some (key ++ b':' ∷ rest)) == 0) ≡ false = ground (arith, parsed) in
    let beyond : ltb key_buffer_size (ss.parser (some (key ++ b':' ∷ rest)) + 1) ≡ true =
      ground (arith, parsed) in
    rw (ok, nonzero, beyond) refl
