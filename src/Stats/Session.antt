-- ===== src/Stats/Session.antt =====
-- A TCP client's session: stats_connection, stats_process_lines and stats_recv.
use statsrelay.Prelude.{
  ℕ, zero, suc, ◌+◌, Bool, true, false, ◌&&◌, not, Option, none, some, List, [], ◌∷◌, ◌++◌,
  if◌then◌else◌, ◌==◌, ltb, take, length, u64,
}
use statsrelay.Outcome.{Outcome, done, undefined, map_outcome}
use statsrelay.Bytes.{memchr, same_bytes}
use statsrelay.Buffer
use statsrelay.Buffer.{Malloc, Buffer, Status, ok, fail, datacount, spacecount, copy_in}
use statsrelay.Buffer.Queue.{contents}
use statsrelay.Client.Transfer.{Recv, failed, closed, got}
use statsrelay.Stats.{Server, Env}
use statsrelay.Stats.Relay.{relay_line, newline}
use statsrelay.Stats.Report.{max_udp_length, send_statistics}

-- What the system answers a server: to the relay of a line, and to a status response.
pub record World : Type 0 where
  pub relaying : Server → List ℕ → Env
  pub response_memory : Malloc
  pub sends : Server → List (Option ℕ)

-- `sizeof(line_buffer)`
abbrev pub line_buffer_size : ℕ
line_buffer_size = max_udp_length + 2

abbrev pub status_line : List ℕ
status_line = b's' ∷ b't' ∷ b'a' ∷ b't' ∷ b'u' ∷ b's' ∷ []

-- `len == 6 && strcmp(line_buffer, "status\n") == 0`
unfoldable pub is_status : List ℕ → Bool
unfolding same_bytes
is_status line = length line == 6 && same_bytes line status_line

-- What the processing of a session gives: the result, the bytes written back to the client, and the
-- session's buffer and server after it.
pub record Processed (B : Type 0) : Type 0 where
  pub code : ℕ
  pub responses : List ℕ
  pub left : B
  pub server : Server

abbrev pub respond : {B : Type 0} → List ℕ → Processed B → Processed B
respond bytes p = record p { responses = bytes ++ p.responses }

abbrev pub stopped : {B : Type 0} → ℕ → B → Server → Processed B
stopped code left ss = record { code = code; responses = []; left = left; server = ss }

-- stats_process_lines. Each round consumes a byte at least, so `datacount b` rounds are enough. A
-- line longer than `line_buffer` is copied past its end.
unfoldable pub process_lines : ℕ → World → Buffer → Server → Outcome (Processed Buffer)
process_lines zero world b ss = done (stopped 0 b ss)
process_lines (suc rounds) world b ss = elim (datacount b == 0) [
  | true ↦ done (stopped 0 b ss)
  | false ↦ elim (memchr newline (contents b)) [
    | none ↦ done (stopped 0 b ss)
    | some len ↦
        let line = take len (contents b) in
        let rest = (Buffer.consume b (len + 1)).1 in
        elim (ltb line_buffer_size (len + 2)) [
          | true ↦ undefined
          | false ↦ elim (is_status line) [
            | true ↦
                map_outcome (respond (send_statistics world.response_memory (world.sends ss) ss))
                  (process_lines rounds world rest ss)
            | false ↦ elim (relay_line (world.relaying ss line) line ss) [
              | undefined ↦ undefined
              | done (code, ss') ↦ elim (code == 0) [
                | true ↦ process_lines rounds world rest ss'
                | false ↦ done (stopped 1 b ss')
              ]
            ]
          ]
        ]
  ]
]

-- stats_connection: the counters, and the buffer of a new session; none if memory runs out.
unfoldable pub stats_connection : Bool → Malloc → Server → Option Buffer × Server
stats_connection memory malloc ss =
    if not memory
    then (none, ss)
    else (let (status, b) = Buffer.init malloc Buffer.unset in
        elim status [
          | fail ↦ (none, ss)
          | ok ↦ (some b, record ss { total_connections = u64 (ss.total_connections + 1) })
        ])

-- Room for a read: the bytes are moved to the front, and then the buffer is doubled.
unfoldable pub read_space : Malloc → Buffer → Status × Buffer
read_space malloc b =
    if spacecount b == 0
    then (let moved = Buffer.realign b in
        if spacecount moved == 0 then Buffer.expand malloc moved else (ok, moved))
    else (ok, b)

-- The end of stats_recv: a session that failed is destroyed.
abbrev pub close_unless : {B : Type 0} → Processed B → Processed (Option B)
close_unless p = record {
  code = if p.code == 0 then 0 else 1;
  responses = p.responses;
  left = if p.code == 0 then some p.left else none;
  server = p.server;
}

-- stats_recv, for what recv(2) returns.
unfoldable pub stats_recv :
    Malloc → Recv → World → Buffer → Server → Outcome (Processed (Option Buffer))
stats_recv malloc recv world b ss =
    let (room, b1) = read_space malloc b in
    elim room [
      | fail ↦ done (stopped 1 none ss)
      | ok ↦ elim recv [
        | failed ↦ done (stopped 1 none ss)
        | closed ↦ done (stopped 1 none ss)
        | got bytes ↦
            let ss1 = record ss { bytes_recv_tcp = u64 (ss.bytes_recv_tcp + length bytes) } in
            let (fits, b2) = Buffer.produced (copy_in b1 b1.tail bytes) (length bytes) in
            elim fits [
              | fail ↦ done (stopped 1 none ss1)
              | ok ↦ map_outcome close_unless (process_lines (datacount b2) world b2 ss1)
            ]
      ]
    ]
