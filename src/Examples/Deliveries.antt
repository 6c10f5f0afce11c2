-- ===== src/Examples/Deliveries.antt =====
-- A line and an event of libev at a server with one backend.
use statsrelay.Prelude.{
  ℕ, zero, suc, ◌<◌, ◌≤◌, ◌≡◌, refl, true, some, List, [], ◌∷◌, arith, subst, get_elem?,
}
use statsrelay.Outcome.{done}
use statsrelay.Buffer.{datacount, expand, realign, produced, copy_in}
use statsrelay.Protocol.{protocol_parser_statsd}
use statsrelay.Hash.{stats_hash}
use statsrelay.Ring
use statsrelay.Ring.{Pointer, read_slot}
use statsrelay.Client.Action.{writable, IsOpen, accepted}
use statsrelay.Stats.{Server, Backend}
use statsrelay.Stats.Relay.{send_line, record_send, stats_sent, relay_line, forward}
use statsrelay.Client.Transfer.{sendall, enqueue, make_space}
use statsrelay.Client.Connect.{connect}
use statsrelay.Stats.Delivery.{
  Happening, relayed, event, happen, history, IsReady, ArePossible, Advances,
}
use statsrelay.Stats.Delivery.Whole.{history_delivers}
use statsrelay.Examples.{plenty-IsMalloc, connected_client-IsOpen}
use statsrelay.Examples.Servers.{answers, server, backend, counter, counter_parsed}

abbrev line_and_write : List Happening
line_and_write = relayed answers counter ∷ event 0 (writable 10 true (some 3)) ∷ []

opened : (q : Pointer) (b : Backend) → get_elem? server.heap q ≡ some b → IsOpen b.client
opened zero b found =
    let same : backend ≡ b = cc in
    subst (λ (d : Backend). IsOpen d.client) same connected_client-IsOpen
opened (suc q) b found = absurd (cc found)

one_slot : (index q i : ℕ) → read_slot (get_elem? (some 0 ∷ []) index) index ≡ some (q, i) → q < 1
one_slot zero q i found = ground arith
one_slot (suc index) q i found = absurd (cc found)

pub server-IsReady : IsReady server
unfolding Ring.choose
server-IsReady = record { opened = opened; live = λ key q i found. one_slot _ q i found }

-- The line is queued behind two bytes.
writes :
    (b : Backend)
    → get_elem? ((send_line answers counter backend).1 ∷ []) 0 ≡ some b
    → (3 ≤ datacount b.client.send_queue)
      × ((code : ℕ) → accepted (writable 10 true (some 3)) code ≡ [])
unfolding send_line record_send stats_sent sendall connect enqueue make_space expand realign
    produced copy_in
writes b found =
    let same : (send_line answers counter backend).1 ≡ b = cc in
    (subst (λ (d : Backend). 3 ≤ datacount d.client.send_queue) same (omega arith), λ code. refl)

possible : ArePossible 0 line_and_write server
unfolding happen relay_line forward send_line sendall connect protocol_parser_statsd stats_hash
    Ring.choose
possible = ((plenty-IsMalloc, omega (arith, counter_parsed)), (writes, tt))

history_delivers_example :
    (given : List ℕ) × (out : List ℕ) × (ss : Server) × (b : Backend) × (history 0 line_and_write
        server
      ≡ done (given, out, ss))
    × IsReady ss
    × (get_elem? ss.heap 0 ≡ some b)
    × Advances given out backend b
history_delivers_example =
    history_delivers 0 line_and_write server backend server-IsReady possible refl
