-- ===== src/Client/Drain.antt =====
-- How the queue of a connected client empties.
use statsrelay.Prelude.{
  ℕ, zero, suc, ◌+◌, ◌-◌, ◌≤◌, ◌<◌, ◌≡◌, refl, ap, ◌∙◌, sym, subst, true, some, List, [], ◌∷◌, ◌++◌,
  arith, ltb, ◌==◌, ◌&&◌, if◌then◌else◌, length, Bool-cases, inl, inr, ◌⊎◌, append-nil, le→ltb,
  ltb→lt,
}
use statsrelay.Buffer.{Buffer, datacount, consume, ok}
use statsrelay.Buffer.Queue.{contents, length-contents}
use statsrelay.Client.{Client, Event, Watcher, idle, watching}
use statsrelay.Client.Transfer.{write_event, after_send}
use statsrelay.Client.Action.{sent_bytes, IsOpen}
use statsrelay.Client.Stream.{write-Keeps}

-- send(2) on a socket that has room: a byte at least, and no more than it is given.
abbrev pub TakesSome : (ℕ → ℕ) → Type 0
TakesSome send = (n : ℕ) → (0 < n → 0 < send n) × (send n ≤ n)

-- The write events of a socket that has room, at most `rounds` of them. libev calls the handler only
-- while it watches the socket. The bytes that are sent, and the client.
unfoldable pub drain : ℕ → (ℕ → ℕ) → ℕ → Client → List ℕ × Client
drain zero send now c = ([], c)
drain (suc rounds) send now c =
    let (events, c') = write_event now true (some (send (datacount c.send_queue))) c in
    let (out, last) = drain rounds send now c' in
    if c.write_watcher.active then (sent_bytes events ++ out, last) else ([], c)

drain-idle :
    (rounds : ℕ) (send : ℕ → ℕ) (now : ℕ) (c : Client)
    → c.write_watcher ≡ idle
    → drain rounds send now c ≡ ([], c)
unfolding drain
drain-idle zero send now c h = refl
drain-idle (suc rounds) send now c h = rw (h, drain) refl

-- The queue is empty and not watched, or shorter and watched.
abbrev Shrinks : Client → Client → Type 0
Shrinks c c' =
    (c'.state ≡ c.state)
    × (((datacount c'.send_queue ≡ 0) × (c'.write_watcher ≡ idle))
        ⊎ ((0 < datacount c'.send_queue)
            × (datacount c'.send_queue < datacount c.send_queue)
            × (c'.write_watcher ≡ watching)))

consumed :
    (b : Buffer) (n : ℕ)
    → 0 < n
    → n ≤ datacount b
    → ((consume b n).0 ≡ ok) × (datacount (consume b n).1 ≡ datacount b - n)
unfolding consume
consumed b n some_bytes fits =
    rw (le→ltb b.tail (b.head + n) (omega (arith, some_bytes, fits)), consume)
      (refl, omega (arith, some_bytes, fits))

after_send-Shrinks :
    (n : ℕ) (c : Client)
    → 0 < n
    → n ≤ datacount c.send_queue
    → c.write_watcher ≡ watching
    → Shrinks c (after_send n c)
unfolding after_send
after_send-Shrinks n c some_bytes fits watched =
    let (status, left) = consumed c.send_queue n some_bytes fits in
    let queue = (consume c.send_queue n).1 in
    elim (Bool-cases (c.failing && ltb (datacount queue) c.config.max_send_queue)) [
      | inl over ↦ elim (Bool-cases (datacount queue == 0)) [
        | inl last ↦ rw (status, over, last, after_send) (refl, inl (ground (arith, last), refl))
        | inr more ↦
            rw (status, over, more, after_send)
              (refl, inr (ground (arith, more), omega (arith, left, some_bytes, fits), watched))
      ]
      | inr still ↦ elim (Bool-cases (datacount queue == 0)) [
        | inl last ↦ rw (status, still, last, after_send) (refl, inl (ground (arith, last), refl))
        | inr more ↦
            rw (status, still, more, after_send)
              (refl, inr (ground (arith, more), omega (arith, left, some_bytes, fits), watched))
      ]
    ]

write_event-Shrinks :
    (send : ℕ → ℕ) (now : ℕ) (c : Client)
    → TakesSome send
    → c.write_watcher ≡ watching
    → Shrinks c (write_event now true (some (send (datacount c.send_queue))) c).1
unfolding write_event
write_event-Shrinks send now c takes watched = elim (Bool-cases (ltb 0 (datacount c.send_queue))) [
  | inr empty ↦ rw (empty, write_event) (refl, inl (ground (arith, empty), refl))
  | inl full ↦
      let (some_bytes, fits) = takes (datacount c.send_queue) in
      rw (full, write_event)
        (after_send-Shrinks (send (datacount c.send_queue)) c (some_bytes (ltb→lt _ _ full)) fits
          watched)
]

-- What the write events leave: all that was queued is sent, and the socket is not watched for more.
pub record IsDrained (c : Client) (r : List ℕ × Client) : Type 0 where
  pub sent : r.0 ≡ contents c.send_queue
  pub empty : datacount r.1.send_queue ≡ 0
  pub unwatched : r.1.write_watcher ≡ idle
  pub state : r.1.state ≡ c.state

no_contents : {c : Client} → IsOpen c → datacount c.send_queue ≡ 0 → contents c.send_queue ≡ []
no_contents {c} o h = of_length (contents c.send_queue) (length-contents o.valid ∙ h)
  where
    of_length : (xs : List ℕ) → length xs ≡ 0 → xs ≡ []
    of_length [] e = refl
    of_length (x ∷ xs) e = absurd (omega (arith, e))

drain_next :
    (rounds : ℕ) (send : ℕ → ℕ) (now : ℕ) (c : Client)
    → c.write_watcher ≡ watching
    → let (events, c') = write_event now true (some (send (datacount c.send_queue))) c in
      drain (suc rounds) send now c
      ≡ (sent_bytes events ++ (drain rounds send now c').0, (drain rounds send now c').1)
unfolding drain
drain_next rounds send now c watched =
    let (events, c') = write_event now true (some (send (datacount c.send_queue))) c in
    ap
      (λ (w : Watcher).
        if w.active
        then (sent_bytes events ++ (drain rounds send now c').0, (drain rounds send now c').1)
        else ([], c))
      watched

-- A write event, and what leaves nothing behind it.
after_event :
    (c c' : Client) (events : List Event) (r : List ℕ × Client)
    → sent_bytes events ++ contents c'.send_queue ≡ contents c.send_queue ++ []
    → c'.state ≡ c.state
    → IsDrained c' r
    → IsDrained c (sent_bytes events ++ r.0, r.1)
after_event c c' events r kept same d = record {
  sent = ap (λ l. sent_bytes events ++ l) d.sent ∙ kept ∙ append-nil (contents c.send_queue);
  empty = d.empty;
  unwatched = d.unwatched;
  state = d.state ∙ same;
}

-- If a client has a valid, non-empty queue block and libev watches its socket for writing, and
-- send(2) always takes a byte at least and no more than it is given, then as many write events as
-- there are queued bytes, and one at least, send all of them in order, leave the queue empty and
-- the socket not watched for writing, and keep the state.
pub drain-IsDrained :
    (rounds : ℕ) (send : ℕ → ℕ) (now : ℕ) (c : Client)
    → IsOpen c
    → TakesSome send
    → c.write_watcher ≡ watching
    → 0 < rounds
    → datacount c.send_queue ≤ rounds
    → IsDrained c (drain rounds send now c)
drain-IsDrained zero send now c o takes watched some_rounds enough = absurd (omega arith)
drain-IsDrained (suc rounds) send now c o takes watched some_rounds enough =
    let n = send (datacount c.send_queue) in
    let (events, c') = write_event now true (some n) c in
    let (o', kept) = write-Keeps now true (some n) c o (takes (datacount c.send_queue)).1 in
    let (same, result) = write_event-Shrinks send now c takes watched in
    subst (IsDrained c) (sym (drain_next rounds send now c watched)) (
      after_event c c' events (drain rounds send now c') kept same (elim result [
        | inl (last, off) ↦ subst (IsDrained c') (sym (drain-idle rounds send now c' off)) (record {
          sent = sym (no_contents o' last);
          empty = last;
          unwatched = off;
          state = refl;
        })
        | inr (more, fewer, still) ↦
            drain-IsDrained rounds send now c' o' takes still (omega (arith, more, fewer, enough))
              (omega (arith, fewer, enough))
      ]))
