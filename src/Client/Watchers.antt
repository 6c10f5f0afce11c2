-- ===== src/Client/Watchers.antt =====
-- The state machine of a client against what libev watches.
use statsrelay.Prelude.{
  ℕ, ◌-◌, ◌<◌, ◌≡◌, refl, ap, ◌∙◌, sym, Bool, true, Option, List, arith, Bool-cases, inl, inr, ◌⊎◌,
  Option-cases, leb, ltb, length,
}
use statsrelay.Buffer.{Malloc, datacount}
use statsrelay.Client.{Client, State, init, connecting, backoff, connected, terminated, Watcher}
use statsrelay.Client.Connect.{
  Network, connect, connect_init, open_socket, connect_timeout, connected_event, retry_timeout,
}
use statsrelay.Client.Transfer.{Recv, read_event, write_event, sendall, enqueue}
use statsrelay.Buffer.Invariant.{IsMalloc}
use statsrelay.Client.Action.{
  Action, timeout, readable, writable, send, act, Allowed, Enabled, IsOpen, Step, does, Reach, here,
  next,
}
use statsrelay.Client.Stream.{Step-IsOpen}
use statsrelay.Buffer.Queue.{length-contents}
use statsrelay.Client.Send.{connect_frame, enqueue-IsQueued}

-- A watcher that libev has is flagged, so that tcpclient_destroy stops it.
abbrev pub IsFlagged : Watcher → Type 0
IsFlagged w = w.active ≡ true → w.started ≡ true

-- Which watchers, timer and descriptor go with which state.
pub record IsConsistent (c : Client) : Type 0 where
  pub connect_flag : IsFlagged c.connect_watcher
  pub read_flag : IsFlagged c.read_watcher
  pub write_flag : IsFlagged c.write_watcher
  pub connect_only : c.connect_watcher.active ≡ true → c.state ≡ connecting
  pub timeout_only : c.timeout_active ≡ true → c.state ≡ connecting
  pub read_only : c.read_watcher.active ≡ true → c.state ≡ connected
  pub write_only : c.write_watcher.active ≡ true → c.state ≡ connected
  pub open_only : c.sd_open ≡ true → (c.state ≡ connecting) ⊎ (c.state ≡ connected)
  pub open_connecting : c.state ≡ connecting → c.sd_open ≡ true
  pub open_connected : c.state ≡ connected → c.sd_open ≡ true
  pub reading : c.state ≡ connected → c.read_watcher.active ≡ true
  pub flushing : c.state ≡ connected → 0 < datacount c.send_queue → c.write_watcher.active ≡ true

open_socket-IsConsistent :
    (net : Network) (c : Client)
    → IsConsistent c
    → c.state ≡ init
    → IsConsistent (open_socket net c).2
unfolding open_socket
open_socket-IsConsistent net c v e = ground arith

connect_init-IsConsistent :
    (net : Network) (c : Client)
    → IsConsistent c
    → c.state ≡ init
    → IsConsistent (connect_init net c).2
unfolding connect_init
connect_init-IsConsistent net c v e = ground arith

connect_timeout-IsConsistent :
    (now : ℕ) (c : Client)
    → IsConsistent c
    → c.timeout_active ≡ true
    → IsConsistent (connect_timeout now c).1
unfolding connect_timeout
connect_timeout-IsConsistent now c v e = ground arith

connected_event-IsConsistent :
    (now : ℕ) (sockopt : Option ℕ) (broken : Bool) (c : Client)
    → IsConsistent c
    → c.connect_watcher.active ≡ true
    → IsConsistent (connected_event now sockopt broken c).1
unfolding connected_event
connected_event-IsConsistent now sockopt broken c v e = ground arith

read_event-IsConsistent :
    (now : ℕ) (ready room : Bool) (recv : Recv) (c : Client)
    → IsConsistent c
    → c.read_watcher.active ≡ true
    → IsConsistent (read_event now ready room recv c).1
unfolding read_event
read_event-IsConsistent now ready room recv c v e = ground arith

write_event-IsConsistent :
    (now : ℕ) (ready : Bool) (sent : Option ℕ) (c : Client)
    → IsConsistent c
    → c.write_watcher.active ≡ true
    → IsConsistent (write_event now ready sent c).1
unfolding write_event
write_event-IsConsistent now ready sent c v e = ground arith

restarted :
    (c : Client) → IsConsistent c → c.state ≡ backoff → IsConsistent (record c { state = init })
restarted c v e = ground arith

connect-IsConsistent :
    (net : Network) (c : Client) → IsConsistent c → IsConsistent (connect net c).2
connect-IsConsistent net c v = by_state c.state refl
  where
    by_state : (s : State) → c.state ≡ s → IsConsistent (connect net c).2
    by_state init e = unfold connect in rw (e, connect) (connect_init-IsConsistent net c v e)
    by_state connecting e = unfold connect in rw (e, connect) v
    by_state connected e = unfold connect in rw (e, connect) v
    by_state terminated e = unfold connect in rw (e, connect) v
    by_state backoff e = elim (Bool-cases (ltb retry_timeout (net.now - c.last_error))) [
      | inl expired ↦
          unfold connect in
          rw (e, expired, connect)
            (connect_init-IsConsistent net (record c { state = init }) (restarted c v e) refl)
      | inr waiting ↦ unfold connect in rw (e, waiting, connect) v
    ]

count_kept :
    (malloc : Malloc) (buf : List ℕ) (c : Client)
    → IsMalloc malloc
    → IsOpen c
    → ((enqueue malloc buf c).0 ≡ 0)
      ⊎ (datacount (enqueue malloc buf c).1.send_queue ≡ datacount c.send_queue)
count_kept malloc buf c m o =
    let q = enqueue-IsQueued buf c m o.valid o.sized in
    elim q.outcome [
      | inl (done, _) ↦ inl done
      | inr (_, kept) ↦
          inr (sym (length-contents q.valid) ∙ ap length kept ∙ length-contents o.valid)
    ]

enqueue-IsConsistent :
    (malloc : Malloc) (buf : List ℕ) (c : Client)
    → IsMalloc malloc
    → IsOpen c
    → IsConsistent c
    → IsConsistent (enqueue malloc buf c).1
enqueue-IsConsistent malloc buf c m o v =
    unfold enqueue in ground (arith, count_kept malloc buf c m o)

sendall-IsConsistent :
    (malloc : Malloc) (net : Network) (buf : List ℕ) (c : Client)
    → IsMalloc malloc
    → IsOpen c
    → IsConsistent c
    → IsConsistent (sendall malloc net buf c).2
unfolding sendall
sendall-IsConsistent malloc net buf c m o v = elim (Option-cases c.addr) [
  | inl lost ↦ rw (lost, sendall) v
  | inr (addr, known) ↦
      let c1 = (connect net c).2 in
      let v1 = connect-IsConsistent net c v in
      let same = (connect_frame net c).0 in
      let o1 : IsOpen c1 = record { valid = rw same o.valid; sized = rw same o.sized } in
      elim (Bool-cases (leb c1.config.max_send_queue (datacount c1.send_queue))) [
        | inl full ↦ rw (known, full, sendall) (flagged c1 v1)
        | inr room ↦ rw (known, room, sendall) (enqueue-IsConsistent malloc buf c1 m o1 v1)
      ]
]
  where
    flagged : (d : Client) → IsConsistent d → IsConsistent (record d { failing = true })
    flagged d w = ground arith

Step-IsConsistent : {c d : Client} → Step c d → IsOpen c → IsConsistent c → IsConsistent d
unfolding act
Step-IsConsistent {c} (does a on fits) o v = by_action a on fits
  where
    by_action : (a : Action) → Enabled a c → Allowed a c → IsConsistent (act a c).2
    by_action (timeout now) on fits = connect_timeout-IsConsistent now c v on
    by_action (Action.connected now sockopt broken) on fits =
        connected_event-IsConsistent now sockopt broken c v on
    by_action (readable now ready room recv) on fits =
        read_event-IsConsistent now ready room recv c v on
    by_action (writable now ready sent) on fits = write_event-IsConsistent now ready sent c v on
    by_action (send malloc net buf) on fits = sendall-IsConsistent malloc net buf c fits o v

-- From a client that is consistent and has a valid, non-empty queue block, every client reached by
-- events that libev can deliver and by sendall calls is consistent and has such a block. Consistent
-- means: a connected client reads, and waits for EV_WRITE while bytes are queued; the descriptor is
-- open exactly in the states connecting and connected; watchers and timer run only in the state
-- they belong to; each running watcher is flagged.
pub Reach-IsConsistent :
    {c d : Client} → Reach c d → IsOpen c → IsConsistent c → IsConsistent d × IsOpen d
Reach-IsConsistent here o v = (v, o)
Reach-IsConsistent (next r st) o v =
    let (v', o') = Reach-IsConsistent r o v in (Step-IsConsistent st o' v', Step-IsOpen st o')
