-- ===== src/Stats/Report.antt =====
-- stats_send_statistics: the text of the counters, built in a buffer of fixed size.
pub mod Printing
pub mod Text
pub mod Sending
use statsrelay.Prelude.{
  ℕ, ◌-◌, Bool, true, false, Option, none, some, List, [], ◌∷◌, ◌++◌, if◌then◌else◌, ◌==◌, ltb,
  take, length, get_elem?,
}
use Prim.Native.Char.{code}
use Prim.Native.String.{String}
use statsrelay.Decimal.{decimal}
use statsrelay.Buffer
use statsrelay.Buffer.{Malloc, Buffer, spacecount, datacount, copy_in}
use statsrelay.Buffer.Queue.{contents}
use statsrelay.Ring.{Pointer}
use statsrelay.Stats.{Backend, Server}

abbrev pub max_udp_length : ℕ
max_udp_length = 65536

abbrev codes : String → List ℕ
codes String.[] = []
codes (String.◌∷◌ c s) = code c ∷ codes s

abbrev bool_digit : Bool → ℕ
bool_digit true = 1
bool_digit false = 0

-- `buffer_produced(b, snprintf(buffer_tail(b), buffer_spacecount(b), ...))`: what does not fit is cut,
-- and the count that snprintf returns is that of the whole text.
unfoldable pub print_into : Buffer → List ℕ → Buffer
print_into b text =
    let space = spacecount b in
    let written =
      if ltb (length text) space
      then text ++ 0 ∷ []
      else if space == 0
      then []
      else take (space - 1) text ++ 0 ∷ [] in
    (Buffer.produced (copy_in b b.tail written) (length text)).1

abbrev line : String → ℕ → List ℕ
line label n = codes label ++ decimal n ++ 10 ∷ []

abbrev backend_line : List ℕ → String → ℕ → List ℕ
backend_line key label n = codes "backend:" ++ key ++ line label n

unfoldable pub print_backend : Buffer → Backend → Buffer
unfolding decimal print_into
print_backend b0 backend =
    let b1 = print_into b0 (backend_line backend.key " bytes_queued gauge " backend.bytes_queued) in
    let b2 = print_into b1 (backend_line backend.key " bytes_sent gauge " backend.bytes_sent) in
    let b3 =
      print_into b2 (backend_line backend.key " relayed_lines gauge " backend.relayed_lines) in
    let b4 =
      print_into b3 (backend_line backend.key " dropped_lines gauge " backend.dropped_lines) in
    print_into b4 (backend_line backend.key " failing boolean " (bool_digit backend.failing))

unfoldable pub print_backends : Buffer → List Backend → List Pointer → Buffer
unfolding print_backend
print_backends b heap [] = b
print_backends b heap (p ∷ ps) = elim (get_elem? heap p) [
  | none ↦ print_backends b heap ps
  | some backend ↦ print_backends (print_backend b backend) heap ps
]

unfoldable pub print_statistics : Buffer → Server → Buffer
unfolding print_backends decimal print_into
print_statistics b0 ss =
    let b1 = print_into b0 (line "global bytes_recv_udp gauge " ss.bytes_recv_udp) in
    let b2 = print_into b1 (line "global bytes_recv_tcp gauge " ss.bytes_recv_tcp) in
    let b3 = print_into b2 (line "global total_connections gauge " ss.total_connections) in
    let b4 = print_into b3 (line "global last_reload timestamp " ss.last_reload) in
    let b5 = print_into b4 (line "global malformed_lines gauge " ss.malformed_lines) in
    print_into (print_backends b5 ss.heap ss.backend_list) (10 ∷ [])

-- The loop of send(2): the bytes that went out, for what each call returns (`none` for an error).
unfoldable pub send_response : List (Option ℕ) → Buffer → List ℕ
send_response [] b = []
send_response (none ∷ sends) b = []
send_response (some n ∷ sends) b =
    let rest = send_response sends (Buffer.consume b n).1 in
    if datacount b == 0 then [] else if n == 0 then [] else take n (contents b) ++ rest

-- The bytes that a session's socket gets. The server is not changed.
unfoldable pub send_statistics : Malloc → List (Option ℕ) → Server → List ℕ
unfolding print_statistics send_response
send_statistics malloc sends ss = elim (Buffer.create_buffer malloc max_udp_length) [
  | none ↦ []
  | some b ↦ send_response sends (print_statistics b ss)
]
