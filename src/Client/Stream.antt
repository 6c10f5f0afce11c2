-- ===== src/Client/Stream.antt =====
-- The bytes that a client accepts against those that it sends.
use statsrelay.Prelude.{
  ℕ, zero, suc, ◌≤◌, ◌≡◌, refl, ap, ◌∙◌, sym, Bool, true, false, Option, none, some, List, [], ◌∷◌,
  ◌++◌, arith, ltb, take, Bool-cases, inl, inr, ◌⊎◌, ◌≢◌, append_assoc, append-nil,
  take-append-drop,
}
use statsrelay.Buffer.{Malloc, datacount, consume}
use statsrelay.Buffer.Invariant.{IsMalloc, consume-IsValid}
use statsrelay.Buffer.Queue.{contents, consume_lem}
use statsrelay.Buffer.Growth.{size-consume}
use statsrelay.Client.{Client, Event, on_sent, on_error}
use statsrelay.Client.Connect.{Network, connect, connect_timeout, connected_event}
use statsrelay.Client.Transfer.{Recv, read_event, write_event, after_send, sendall}
use statsrelay.Client.Send.{sendall-IsSent}
use statsrelay.Client.Action.{
  Action, timeout, connected, readable, writable, send, act, Allowed, accepted, sent_bytes, IsOpen,
  Step, does,
}

-- What a handler reports as sent, before what it leaves queued, is what was queued, before `more`.
abbrev pub Keeps : Client → List ℕ → List Event × Client → Type 0
Keeps c more (events, c') =
    IsOpen c' × (sent_bytes events ++ contents c'.send_queue ≡ contents c.send_queue ++ more)

queue-after_send : (n : ℕ) (c : Client) → (after_send n c).send_queue ≡ (consume c.send_queue n).1
unfolding after_send
queue-after_send n c = ground arith

-- A handler that reports no byte and leaves the queue.
quiet :
    (c : Client) (result : List Event × Client)
    → IsOpen c
    → result.1.send_queue ≡ c.send_queue
    → sent_bytes result.0 ≡ []
    → Keeps c [] result
quiet c (events, c') o same none_sent = (
  record { valid = rw same o.valid; sized = rw same o.sized },
  ap (λ l. l ++ contents c'.send_queue) none_sent ∙ ap contents same ∙ sym (append-nil _),
)

timeout-Keeps : (now : ℕ) (c : Client) → IsOpen c → Keeps c [] (connect_timeout now c)
timeout-Keeps now c o =
    quiet c (connect_timeout now c) o (unfold connect_timeout in refl)
      (unfold connect_timeout in refl)

connected-Keeps :
    (now : ℕ) (sockopt : Option ℕ) (broken : Bool) (c : Client)
    → IsOpen c
    → Keeps c [] (connected_event now sockopt broken c)
unfolding connected_event
connected-Keeps now sockopt broken c o =
    quiet c (connected_event now sockopt broken c) o (ground arith) (ground arith)

read-Keeps :
    (now : ℕ) (ready room : Bool) (recv : Recv) (c : Client)
    → IsOpen c
    → Keeps c [] (read_event now ready room recv c)
unfolding read_event
read-Keeps now ready room recv c o =
    quiet c (read_event now ready room recv c) o (ground arith) (ground arith)

taken_out :
    (n : ℕ) (c : Client)
    → IsOpen c
    → n ≤ datacount c.send_queue
    → Keeps c [] (on_sent (take n (contents c.send_queue)) ∷ [], after_send n c)
taken_out n c o fits =
    let q = queue-after_send n c in
    let left = (consume_lem n o.valid).0 fits in
    (
      record { valid = rw q (consume-IsValid n o.valid); sized = rw (q, size-consume) o.sized },
      ap (λ l. l ++ contents (after_send n c).send_queue)
            (append-nil (take n (contents c.send_queue)))
          ∙ ap (λ l. take n (contents c.send_queue) ++ l) (ap contents q ∙ left.1)
          ∙ take-append-drop n (contents c.send_queue)
          ∙ sym (append-nil _),
    )

pub write-Keeps :
    (now : ℕ) (ready : Bool) (sent : Option ℕ) (c : Client)
    → IsOpen c
    → Allowed (writable now ready sent) c
    → Keeps c [] (write_event now ready sent c)
write-Keeps now ready none c o fits =
    quiet c (write_event now ready none c) o (unfold write_event in ground arith)
      (unfold write_event in ground arith)
write-Keeps now false (some n) c o fits =
    quiet c (write_event now false (some n) c) o (unfold write_event in refl)
      (unfold write_event in refl)
write-Keeps now true (some n) c o fits = elim (Bool-cases (ltb 0 (datacount c.send_queue))) [
  | inr empty ↦
      quiet c (write_event now true (some n) c) o (unfold write_event in rw empty)
        (unfold write_event in rw empty)
  | inl full ↦ unfold write_event in rw (full, write_event) (taken_out n c o fits)
]

sendall_silent :
    (malloc : Malloc) (net : Network) (buf : List ℕ) (c : Client)
    → sent_bytes (sendall malloc net buf c).1 ≡ []
unfolding sendall connect
sendall_silent malloc net buf c = ground arith

-- A sendall calls no callback but that of an error.
pub sendall_events :
    (malloc : Malloc) (net : Network) (buf : List ℕ) (c : Client)
    → ((sendall malloc net buf c).1 ≡ []) ⊎ ((sendall malloc net buf c).1 ≡ on_error ∷ [])
unfolding sendall connect
sendall_events malloc net buf c = ground arith

accepted_none :
    (malloc : Malloc) (net : Network) (buf : List ℕ) (code : ℕ)
    → code ≢ 0
    → accepted (send malloc net buf) code ≡ []
accepted_none malloc net buf zero h = absurd (h refl)
accepted_none malloc net buf (suc code) h = refl

send-Keeps :
    (malloc : Malloc) (net : Network) (buf : List ℕ) (c : Client)
    → IsMalloc malloc
    → IsOpen c
    → Keeps c
        (accepted (send malloc net buf) (sendall malloc net buf c).0)
        ((sendall malloc net buf c).1, (sendall malloc net buf c).2)
send-Keeps malloc net buf c m o =
    let r = sendall-IsSent net buf c m o.valid o.sized in
    (
      record { valid = r.valid; sized = r.sized },
      ap (λ l. l ++ contents (sendall malloc net buf c).2.send_queue)
            (sendall_silent malloc net buf c)
          ∙ elim r.outcome [
            | inl (done, all, _) ↦
                all
                ∙ ap (λ l. contents c.send_queue ++ l)
                    (sym (ap (accepted (send malloc net buf)) done))
            | inr (refused, kept) ↦
                kept
                ∙ sym (append-nil _)
                ∙ ap (λ l. contents c.send_queue ++ l)
                    (sym (accepted_none malloc net buf (sendall malloc net buf c).0 refused))
          ],
    )

pub act-Keeps :
    (a : Action) (c : Client)
    → IsOpen c
    → Allowed a c
    → Keeps c (accepted a (act a c).0) ((act a c).1, (act a c).2)
unfolding act
act-Keeps (timeout now) c o fits = timeout-Keeps now c o
act-Keeps (connected now sockopt broken) c o fits = connected-Keeps now sockopt broken c o
act-Keeps (readable now ready room recv) c o fits = read-Keeps now ready room recv c o
act-Keeps (writable now ready sent) c o fits = write-Keeps now ready sent c o fits
act-Keeps (send malloc net buf) c o fits = send-Keeps malloc net buf c fits o

-- The bytes accepted, the bytes sent and the client at the end of a list of actions.
unfoldable pub run : List Action → Client → List ℕ × List ℕ × Client
run [] c = ([], [], c)
run (a ∷ actions) c =
    let (code, events, c') = act a c in
    let (more, out, last) = run actions c' in
    (accepted a code ++ more, sent_bytes events ++ out, last)

abbrev pub Behaved : List Action → Client → Type 0
Behaved [] c = Unit {0}
Behaved (a ∷ actions) c = Allowed a c × Behaved actions (act a c).2

-- For a client with a valid, non-empty queue block, and any sequence of events and sendall calls in
-- which malloc keeps its contract and send(2) takes no more bytes than it is given: the bytes
-- reported as sent, followed by those still queued, are the bytes queued at first, followed by
-- those of each sendall that returned 0.
pub stream_conserved :
    (actions : List Action) (c : Client)
    → IsOpen c
    → Behaved actions c
    → (run actions c).1 ++ contents (run actions c).2.send_queue
      ≡ contents c.send_queue ++ (run actions c).0
unfolding run
stream_conserved [] c o fits = sym (append-nil _)
stream_conserved (a ∷ actions) c o fits =
    let (o', kept) = act-Keeps a c o fits.0 in
    let rest = stream_conserved actions (act a c).2 o' fits.1 in
    append_assoc (sent_bytes (act a c).1) (run actions (act a c).2).1 _
    ∙ ap (λ l. sent_bytes (act a c).1 ++ l) rest
    ∙ sym (append_assoc (sent_bytes (act a c).1) (contents (act a c).2.send_queue) _)
    ∙ ap (λ l. l ++ (run actions (act a c).2).0) kept
    ∙ append_assoc (contents c.send_queue) (accepted a (act a c).0) _

pub Step-IsOpen : {c d : Client} → Step c d → IsOpen c → IsOpen d
Step-IsOpen {c} (does a on fits) o = (act-Keeps a c o fits).0
