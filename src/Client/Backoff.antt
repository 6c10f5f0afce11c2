-- ===== src/Client/Backoff.antt =====
-- The attempts of a client to connect again.
use statsrelay.Prelude.{
  [], ℕ, ◌+◌, ◌-◌, ◌≤◌, ◌<◌, ◌≡◌, refl, ap, ◌∙◌, sym, subst, Bool, true, false, none, List, arith,
  ◌⊎◌,
}
use statsrelay.Buffer.{Malloc}
use statsrelay.Client.{Client, init, connecting, backoff, Event}
use statsrelay.Client.Connect.{Network, connect, connected_event, retry_timeout}
use statsrelay.Client.Transfer.{sendall, enqueue}
use statsrelay.Client.Action.{
  Action, timeout, readable, writable, send, act, Step, does, Reach, here, next,
}
use statsrelay.Client.Watchers.{IsConsistent}

-- After a call of tcpclient_connect that returned 3, 4, 5 or 6, a further call that comes no more
-- than TCPCLIENT_RETRY_TIMEOUT seconds later returns 2, reports nothing and changes nothing.
connect_waits :
    (net later : Network) (c : Client)
    → 3 ≤ (connect net c).0
    → (connect net c).0 ≤ 6
    → later.now ≤ net.now + retry_timeout
    → connect later (connect net c).2 ≡ (2, [], (connect net c).2)
unfolding connect
connect_waits net later c lo hi soon = ground arith

-- No handler of libev can run, and no address is known.
abbrev pub IsLost : Client → Type 0
IsLost c =
    (c.addr ≡ none)
    × (c.timeout_active ≡ false)
    × (c.connect_watcher.active ≡ false)
    × (c.read_watcher.active ≡ false)
    × (c.write_watcher.active ≡ false)

sendall_lost :
    (malloc : Malloc) (net : Network) (buf : List ℕ) (c : Client)
    → c.addr ≡ none
    → sendall malloc net buf c ≡ (1, [], c)
unfolding sendall
sendall_lost malloc net buf c lost = ground arith

Step-lost : {c d : Client} → Step c d → IsLost c → d ≡ c
unfolding act
Step-lost {c} (does (timeout now) on fits) lost = absurd (cc (sym on ∙ lost.1))
Step-lost {c} (does (Action.connected now sockopt broken) on fits) lost =
    absurd (cc (sym on ∙ lost.2))
Step-lost {c} (does (readable now ready room recv) on fits) lost = absurd (cc (sym on ∙ lost.3))
Step-lost {c} (does (writable now ready sent) on fits) lost = absurd (cc (sym on ∙ lost.4))
Step-lost {c} (does (send malloc net buf) on fits) lost =
    ap (λ (r : ℕ × List Event × Client). r.2) (sendall_lost malloc net buf c lost.0)

Reach-lost : {c d : Client} → Reach c d → IsLost c → d ≡ c
Reach-lost here lost = refl
Reach-lost {c} (next {d} r st) lost =
    let same = Reach-lost r lost in Step-lost st (subst IsLost (sym same) lost) ∙ same

IsLost-of_dns :
    (net : Network) (c : Client)
    → IsConsistent c
    → c.config.always_resolve_dns ≡ true
    → net.getaddrinfo ≡ none
    → (c.state ≡ init) ⊎ ((c.state ≡ backoff) × (retry_timeout < net.now - c.last_error))
    → IsLost (connect net c).2
unfolding connect
IsLost-of_dns net c v always failed ready = ground arith

-- For a consistent client with `always_resolve_dns` that starts a connection attempt in which
-- getaddrinfo fails: no event or call changes it any more, and every later tcpclient_sendall
-- returns 1, whatever the network answers by then.
pub dns_failure_is_final :
    (net later : Network) (malloc : Malloc) (buf : List ℕ) (c d : Client)
    → IsConsistent c
    → c.config.always_resolve_dns ≡ true
    → net.getaddrinfo ≡ none
    → (c.state ≡ init) ⊎ ((c.state ≡ backoff) × (retry_timeout < net.now - c.last_error))
    → Reach (connect net c).2 d
    → (d ≡ (connect net c).2) × (sendall malloc later buf d ≡ (1, [], d))
dns_failure_is_final net later malloc buf c d v always failed ready r =
    let lost = IsLost-of_dns net c v always failed ready in
    let same = Reach-lost r lost in
    (same, sendall_lost malloc later buf d (ap (λ (k : Client). k.addr) same ∙ lost.0))

-- The client is connecting, and nothing that libev watches can end the attempt.
abbrev pub IsStuck : Client → Type 0
IsStuck c =
    (c.state ≡ connecting)
    × (c.timeout_active ≡ false)
    × (c.connect_watcher.active ≡ false)
    × (c.read_watcher.active ≡ false)
    × (c.write_watcher.active ≡ false)

enqueue-IsStuck :
    (malloc : Malloc) (buf : List ℕ) (c : Client) → IsStuck c → IsStuck (enqueue malloc buf c).1
unfolding enqueue
enqueue-IsStuck malloc buf c s = ground arith

sendall-IsStuck :
    (malloc : Malloc) (net : Network) (buf : List ℕ) (c : Client)
    → IsStuck c
    → IsStuck (sendall malloc net buf c).2
sendall-IsStuck malloc net buf c s =
    let still : connect net c ≡ (1, [], c) = unfold connect in ground arith in
    unfold sendall in ground (arith, enqueue-IsStuck malloc buf c s, still)

Step-IsStuck : {c d : Client} → Step c d → IsStuck c → IsStuck d
unfolding act
Step-IsStuck {c} (does (timeout now) on fits) s = absurd (cc (sym on ∙ s.1))
Step-IsStuck {c} (does (Action.connected now sockopt broken) on fits) s = absurd (cc (sym on ∙ s.2))
Step-IsStuck {c} (does (readable now ready room recv) on fits) s = absurd (cc (sym on ∙ s.3))
Step-IsStuck {c} (does (writable now ready sent) on fits) s = absurd (cc (sym on ∙ s.4))
Step-IsStuck {c} (does (send malloc net buf) on fits) s = sendall-IsStuck malloc net buf c s

Reach-IsStuck : {c d : Client} → Reach c d → IsStuck c → IsStuck d
Reach-IsStuck here s = s
Reach-IsStuck (next r st) s = Step-IsStuck st (Reach-IsStuck r s)

-- If getsockopt fails when the connection attempt of a consistent client ends, then the client is
-- in STATE_CONNECTING ever after, with no timer and no watcher running.
pub getsockopt_failure_is_final :
    (now : ℕ) (broken : Bool) (c d : Client)
    → IsConsistent c
    → c.connect_watcher.active ≡ true
    → Reach (connected_event now none broken c).1 d
    → IsStuck d
getsockopt_failure_is_final now broken c d v on r =
    Reach-IsStuck r (unfold connected_event in ground arith)
