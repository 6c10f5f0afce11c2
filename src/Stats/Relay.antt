-- ===== src/Stats/Relay.antt =====
-- stats_relay_line: one line to the backend of its key.
use statsrelay.Prelude.{
  ℕ, ◌+◌, Bool, true, false, ◌&&◌, not, Option, none, some, List, [], ◌∷◌, ◌++◌, if◌then◌else◌,
  ◌==◌, ltb, take, length, set, get_elem?, u64,
}
use statsrelay.Outcome.{Outcome, done, undefined}
use statsrelay.Ring
use statsrelay.Ring.{Pointer}
use statsrelay.Client.{Client, Event, on_sent, on_recv, on_connected, on_error}
use statsrelay.Client.Transfer.{sendall}
use statsrelay.Stats.{Backend, Server, Validator, Env}

-- stats_sent, the callback that the client of a backend calls behind each send.
unfoldable pub stats_sent : List Event → Backend → Backend
stats_sent [] backend = backend
stats_sent (on_sent bytes ∷ events) backend =
    stats_sent events (record backend { bytes_sent = u64 (backend.bytes_sent + length bytes) })
stats_sent (on_recv _ ∷ events) backend = stats_sent events backend
stats_sent (on_connected ∷ events) backend = stats_sent events backend
stats_sent (on_error ∷ events) backend = stats_sent events backend

-- `sizeof(key_buffer)`
abbrev pub key_buffer_size : ℕ
key_buffer_size = 8192

abbrev pub newline : ℕ
newline = 10

-- What stats_relay_line records of a call of tcpclient_sendall, and its result.
unfoldable pub record_send : List ℕ → Backend → ℕ × List Event × Client → ℕ × Backend
unfolding stats_sent
record_send line backend (code, events, client) =
    let sent = stats_sent events (record backend { client = client }) in
    if not (code == 0)
    then (2, record sent { dropped_lines = u64 (sent.dropped_lines + 1); failing = true })
    else (
      0,
      record sent {
        failing = false;
        bytes_queued = u64 (sent.bytes_queued + (length line + 1));
        relayed_lines = u64 (sent.relayed_lines + 1);
      },
    )

unfoldable pub send_line : Env → List ℕ → Backend → ℕ × Backend
unfolding record_send
send_line env line backend =
    record_send line backend (sendall env.malloc env.net (line ++ newline ∷ []) backend.client)

unfoldable pub forward : Env → List ℕ → Pointer → Server → Outcome (ℕ × Server)
forward env line p ss = elim (get_elem? ss.heap p) [
  | none ↦ undefined
  | some backend ↦
      let (code, backend') = send_line env line backend in
      done (code, record ss { heap = set ss.heap p backend' })
]

unfoldable pub rejects : Option Validator → List ℕ → Bool
rejects none line = false
rejects (some validator) line = not (validator line == 0)

unfoldable pub relay_line : Env → List ℕ → Server → Outcome (ℕ × Server)
unfolding rejects
relay_line env line ss =
    if ss.config.enable_validation && rejects ss.validator line
    then done (1, ss)
    else (let key_len = ss.parser (some line) in
        if key_len == 0
        then done (1, record ss { malformed_lines = u64 (ss.malformed_lines + 1) })
        else if ltb key_buffer_size (key_len + 1)
        then undefined
        else (elim (Ring.choose ss.ring (take key_len line ++ 0 ∷ [])) [
          | none ↦ done (1, ss)
          | some (p, _) ↦ forward env line p ss
        ]))
