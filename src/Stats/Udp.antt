-- ===== src/Stats/Udp.antt =====
-- stats_udp_recv: the lines of one datagram.
pub mod Lines
use statsrelay.Prelude.{
  ℕ, zero, suc, ◌+◌, true, false, Option, none, some, List, if◌then◌else◌, ◌==◌, ltb, take, drop,
  length, u64,
}
use statsrelay.Outcome.{Outcome, done, undefined}
use statsrelay.Bytes.{memchr}
use statsrelay.Stats.{Server, Env}
use statsrelay.Stats.Relay.{relay_line, newline}
use statsrelay.Stats.Session.{line_buffer_size}

-- The loop over the bytes from `offset` on. Each round passes a byte at least. The last line may lack
-- its newline. `relaying` is what the system answers while a line is relayed.
unfoldable pub udp_lines : ℕ → (Server → List ℕ → Env) → List ℕ → Server → Outcome (ℕ × Server)
udp_lines zero relaying bytes ss = done (0, ss)
udp_lines (suc rounds) relaying bytes ss = elim (length bytes == 0) [
  | true ↦ done (0, ss)
  | false ↦
      let line_len : ℕ = elim (memchr newline bytes) [ none ↦ length bytes | some i ↦ i ] in
      let line = take line_len bytes in
      elim (ltb line_buffer_size (line_len + 2)) [
        | true ↦ undefined
        | false ↦ elim (relay_line (relaying ss line) line ss) [
          | undefined ↦ undefined
          | done (code, ss') ↦ elim (code == 0) [
            | true ↦ udp_lines rounds relaying (drop (line_len + 1) bytes) ss'
            | false ↦ done (1, ss')
          ]
        ]
      ]
]

-- The bytes that read(2) returns, `none` for an error.
unfoldable pub stats_udp_recv :
    Option (List ℕ) → (Server → List ℕ → Env) → Server → Outcome (ℕ × Server)
stats_udp_recv none relaying ss = done (1, ss)
stats_udp_recv (some bytes) relaying ss =
    if length bytes == 0
    then done (1, ss)
    else (udp_lines (length bytes) relaying bytes
        (record ss { bytes_recv_udp = u64 (ss.bytes_recv_udp + length bytes) }))
