-- ===== src/Examples/Clients.antt =====
-- Theorems on a backend's connection at concrete clients.
use statsrelay.Prelude.{
  min, ◌≤◌, ◌≡◌, inl, refl, true, false, none, some, List, [], ◌∷◌, ◌++◌, arith,
}
use statsrelay.Buffer.{datacount, produced, copy_in}
use statsrelay.Buffer.Queue.{contents}
use statsrelay.Client.{Client}
use statsrelay.Client.Connect.{Network, connect, connected_event}
use statsrelay.Client.Transfer.{make_space, enqueue, sendall}
use statsrelay.Client.Action.{Action, writable, send, act, IsOpen, here, next, does}
use statsrelay.Client.Send.{IsSent, sendall-IsSent}
use statsrelay.Client.Stream.{run, Behaved, stream_conserved}
use statsrelay.Client.Drain.{IsDrained, drain, drain-IsDrained}
use statsrelay.Client.Watchers.{IsConsistent, Reach-IsConsistent}
use statsrelay.Client.Backoff.{IsStuck, dns_failure_is_final, getsockopt_failure_is_final}
use statsrelay.Examples.{
  plenty, plenty-IsMalloc, two_bytes-IsValid, waiting_client, connecting_client, connected_client,
  connected_client-IsOpen, up, down,
}

-- A byte is queued, and three are sent.
abbrev traffic : List Action
traffic = send plenty up (9 ∷ []) ∷ writable 11 true (some 3) ∷ []

sent_at_most : 3 ≤ datacount (act (send plenty up (9 ∷ [])) connected_client).2.send_queue
unfolding act sendall connect enqueue make_space produced copy_in
sent_at_most = omega arith

traffic-Behaved : Behaved traffic connected_client
traffic-Behaved = (plenty-IsMalloc, (sent_at_most, tt))

stream_conserved_example :
    (run traffic connected_client).1 ++ contents (run traffic connected_client).2.send_queue
    ≡ (2 ∷ 3 ∷ []) ++ (run traffic connected_client).0
stream_conserved_example =
    stream_conserved traffic connected_client connected_client-IsOpen traffic-Behaved

sendall-IsSent_example :
    IsSent (8 ∷ 9 ∷ []) connected_client (sendall plenty up (8 ∷ 9 ∷ []) connected_client)
sendall-IsSent_example =
    sendall-IsSent up (8 ∷ 9 ∷ []) connected_client plenty-IsMalloc two_bytes-IsValid (omega arith)

waiting-IsConsistent : IsConsistent waiting_client
waiting-IsConsistent = ground arith

connecting-IsConsistent : IsConsistent connecting_client
connecting-IsConsistent = ground arith

pub connected-IsConsistent : IsConsistent connected_client
connected-IsConsistent = ground arith

Reach-IsConsistent_example :
    IsConsistent (act (writable 11 true (some 2)) connected_client).2
    × IsOpen (act (writable 11 true (some 2)) connected_client).2
Reach-IsConsistent_example =
    Reach-IsConsistent (next here (does (writable 11 true (some 2)) refl (omega arith)))
      connected_client-IsOpen connected-IsConsistent

-- A network where socket(2) fails.
abbrev no_socket : Network
no_socket = record up { socket = none }

refused : (connect no_socket waiting_client).0 ≡ 4
unfolding connect
refused = refl

dns_failure_is_final_example :
    ((connect down waiting_client).2 ≡ (connect down waiting_client).2)
    × (sendall plenty up (9 ∷ []) (connect down waiting_client).2
        ≡ (1, [], (connect down waiting_client).2))
dns_failure_is_final_example =
    dns_failure_is_final down up plenty (9 ∷ []) waiting_client (connect down waiting_client).2
      waiting-IsConsistent refl refl (inl refl) here

abbrev stuck : Client
stuck = (connected_event 12 none false connecting_client).1

getsockopt_failure_is_final_example : IsStuck (act (send plenty up (1 ∷ [])) stuck).2
getsockopt_failure_is_final_example =
    getsockopt_failure_is_final 12 false connecting_client (act (send plenty up (1 ∷ [])) stuck).2
      connecting-IsConsistent refl (next here (does (send plenty up (1 ∷ [])) tt plenty-IsMalloc))

-- A byte at a time: two bytes need two events.
drain-IsDrained_example : IsDrained connected_client (drain 2 (λ n. min n 1) 11 connected_client)
drain-IsDrained_example =
    drain-IsDrained 2 (λ n. min n 1) 11 connected_client connected_client-IsOpen
      (λ n. (λ h. omega (arith, h), omega arith)) refl (omega arith) (omega arith)
