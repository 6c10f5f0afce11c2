-- ===== src/Stats/Delivery/Whole.antt =====
-- A sequence of happenings, seen from one backend.
use statsrelay.Prelude.{ℕ, ◌≡◌, refl, some, List, [], ◌∷◌, ◌++◌, get_elem?, subst}
use statsrelay.Outcome.{Holds, done}
use statsrelay.Ring.{Pointer}
use statsrelay.Stats.{Backend, Server}
use statsrelay.Stats.Delivery.{Happening, history, IsReady, ArePossible, Advances}
use statsrelay.Stats.Delivery.Advance.{Advances-refl, Advances-trans}
use statsrelay.Stats.Delivery.Steps.{happen-Moves}

-- From a server in which each backend has a valid, non-empty queue block and the ring leads to
-- backends only, let lines be relayed and events of libev come to the backends' clients in any
-- order, where malloc keeps its contract, each key is shorter than 8192 bytes and send(2) takes no
-- more bytes than it is given. Then no step is undefined and the server is such a server again; and
-- for each backend, the bytes that it has sent followed by those still queued are those queued at
-- first followed by the lines for it that stats_relay_line returned 0 for, each with its newline,
-- in their order; its key is the same, and modulo 2^64 bytes_sent has grown by the bytes sent and
-- bytes_queued by those of the lines.
pub history_delivers :
    (p : Pointer) (hs : List Happening) (ss : Server) (b : Backend)
    → IsReady ss
    → ArePossible p hs ss
    → get_elem? ss.heap p ≡ some b
    → (given : List ℕ) × (out : List ℕ) × (ss' : Server) × (b' : Backend) × (history p hs ss
        ≡ done (given, out, ss'))
      × IsReady ss'
      × (get_elem? ss'.heap p ≡ some b')
      × Advances given out b b'
unfolding history
history_delivers p [] ss b r possible found = ([], [], ss, b, refl, r, found, Advances-refl b)
history_delivers p (h ∷ hs) ss b r possible found =
    let ((g, o, ss1), runs, moves) = happen-Moves p h ss r possible.0 in
    let (b1, found1, adv) = moves.moved b found in
    let possible' : ArePossible p hs ss1 =
      subst (Holds (λ (r : List ℕ × List ℕ × Server). ArePossible p hs r.2)) runs possible.1 in
    let (g', o', ss2, b2, runs', ready, found2, adv') =
      history_delivers p hs ss1 b1 moves.ready possible' found1 in
    (
      g ++ g',
      o ++ o',
      ss2,
      b2,
      rw (runs, runs') refl,
      ready,
      found2,
      Advances-trans g g' o o' adv adv',
    )
