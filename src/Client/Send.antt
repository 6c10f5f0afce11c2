-- ===== src/Client/Send.antt =====
-- What tcpclient_sendall does to the queue of bytes.
use statsrelay.Prelude.{
  ℕ, zero, suc, ◌+◌, ◌≤◌, ◌<◌, ◌≡◌, refl, ap, ◌∙◌, Bool, true, false, List, ◌++◌, arith, ltb, leb,
  length, Bool-cases, inl, inr, if◌then◌else◌, ◌⊎◌, ◌≢◌, Option-cases, ltb→le, leb→lt,
}
use statsrelay.Buffer.{Malloc, Buffer, datacount, spacecount, expand, produced, copy_in, realign}
use statsrelay.Buffer.Invariant.{
  Status-cases, IsValid, IsMalloc, realign-IsValid, copy_in-IsValid, produced-IsValid,
}
use statsrelay.Buffer.Queue.{contents, contents-realign, contents-produced, length-contents}
use statsrelay.Buffer.Growth.{expand-IsDoubled}
use statsrelay.Config.{ProtoConfig}
use statsrelay.Client.Connect.{Network, connect}
use statsrelay.Client.{Event, Client}
use statsrelay.Client.Transfer.{make_space, enqueue, sendall}

-- The loop leaves the queued bytes; when it ends well, there is room for `len` more.
pub record HasRoom (len : ℕ) (b : Buffer) (result : Bool × Buffer) : Type 0 where
  pub valid : IsValid result.1
  pub kept : contents result.1 ≡ contents b
  pub counted : datacount result.1 ≡ datacount b
  pub room : result.0 ≡ true → len ≤ spacecount result.1
  pub bigger : b.size ≤ result.1.size

-- If the rounds and the free space are together at least `len`, the block is valid and not of size
-- 0, and malloc keeps its contract, then the loop that doubles the send queue ends: when it reports
-- success there is room for `len` bytes. In either case the queued bytes are as before and the
-- block is valid and not smaller.
make_space-HasRoom :
    (rounds : ℕ) {malloc : Malloc} (len : ℕ) (b : Buffer)
    → IsMalloc malloc
    → IsValid b
    → 0 < b.size
    → len ≤ spacecount b + rounds
    → HasRoom len b (make_space rounds malloc len b)
unfolding make_space
make_space-HasRoom zero len b m v pos enough = record {
  valid = v;
  kept = refl;
  counted = refl;
  room = λ _. omega arith;
  bigger = omega arith;
}
make_space-HasRoom (suc rounds) {malloc} len b m v pos enough =
    elim (Bool-cases (ltb (spacecount b) len)) [
      | inr fits ↦
          rw (fits, make_space)
            (record {
              valid = v;
              kept = refl;
              counted = refl;
              room = λ _. ltb→le _ _ fits;
              bigger = omega arith;
            })
      | inl short ↦
          let d = expand-IsDoubled m v in
          elim (Status-cases (expand malloc b).0) [
            | inl grown ↦
                let ih =
                  make_space-HasRoom rounds len (expand malloc b).1 m d.valid
                    (omega (arith, d.grown grown)) (omega (arith, d.gained grown)) in
                rw (short, grown, make_space)
                  (record {
                    valid = ih.valid;
                    kept = ih.kept ∙ d.kept;
                    counted = ih.counted ∙ d.counted;
                    room = ih.room;
                    bigger = omega (arith, ih.bigger, d.grown grown);
                  })
            | inr stuck ↦
                rw (short, stuck, make_space)
                  (record {
                    valid = d.valid;
                    kept = d.kept;
                    counted = d.counted;
                    room = λ e. absurd (cc e);
                    bigger = omega (arith, ap (λ (q : Buffer). q.size) (d.same stuck));
                  })
          ]
    ]

realign_fields : (b : Buffer) → (datacount (realign b) ≡ datacount b) × ((realign b).size ≡ b.size)
unfolding realign copy_in
realign_fields b = ground arith

produced_size :
    (b : Buffer) (bytes : List ℕ)
    → (produced (copy_in b b.tail bytes) (length bytes)).1.size ≡ b.size
unfolding produced copy_in
produced_size b bytes = ground arith

-- What enqueue returns: all bytes are queued in order, or none is and memory has run out.
pub record IsQueued (malloc : Malloc) (buf : List ℕ) (c : Client) (result : ℕ × Client)
    : Type 0 where
  pub valid : IsValid result.1.send_queue
  pub sized : 0 < result.1.send_queue.size
  pub outcome :
      ((result.0 ≡ 0) × (contents result.1.send_queue ≡ contents c.send_queue ++ buf))
      ⊎ ((result.0 ≡ 4) × (contents result.1.send_queue ≡ contents c.send_queue))

aligned-HasRoom :
    {b : Buffer} (len : ℕ)
    → IsValid b
    → let q = if ltb (spacecount b) len then realign b else b in
      IsValid q × (contents q ≡ contents b) × (datacount q ≡ datacount b) × (q.size ≡ b.size)
aligned-HasRoom {b} len v = elim (Bool-cases (ltb (spacecount b) len)) [
  | inl e ↦ rw e (realign-IsValid v, contents-realign v, (realign_fields b).0, (realign_fields b).1)
  | inr e ↦ rw e (v, refl, refl, refl)
]

-- tcpclient_sendall past its guards: the bytes are queued whole, or memory has run out.
pub enqueue-IsQueued :
    {malloc : Malloc} (buf : List ℕ) (c : Client)
    → IsMalloc malloc
    → IsValid c.send_queue
    → 0 < c.send_queue.size
    → IsQueued malloc buf c (enqueue malloc buf c)
unfolding enqueue
enqueue-IsQueued {malloc} buf c m v pos =
    let len = length buf in
    let q = if ltb (spacecount c.send_queue) len then realign c.send_queue else c.send_queue in
    let (valid, kept, counted, sized) = aligned-HasRoom len v in
    let r =
      make_space-HasRoom len {malloc = malloc} len q m valid (omega (arith, sized)) (omega arith) in
    elim (Bool-cases (make_space len malloc len q).0) [
      | inr stuck ↦
          rw (stuck, enqueue)
            (record {
              valid = r.valid;
              sized = omega (arith, r.bigger, sized);
              outcome = inr (refl, r.kept ∙ kept);
            })
      | inl fits ↦
          rw (fits, enqueue)
            (record {
              valid =
                  produced-IsValid len
                    (copy_in-IsValid _ buf r.valid (omega (arith, r.room fits, r.valid)));
              sized = rw produced_size (omega (arith, r.bigger, sized));
              outcome = inl (
                refl,
                (contents-produced buf r.valid (r.room fits)).1
                    ∙ ap (λ l. l ++ buf) (r.kept ∙ kept),
              );
            })
    ]

-- tcpclient_connect leaves the queue and the configuration.
pub connect_frame :
    (net : Network) (c : Client)
    → ((connect net c).2.send_queue ≡ c.send_queue) × ((connect net c).2.config ≡ c.config)
unfolding connect
connect_frame net c = ground arith

-- What sendall returns: the bytes are queued whole, behind a queue below its limit, or not at all.
pub record IsSent (buf : List ℕ) (c : Client) (result : ℕ × List Event × Client) : Type 0 where
  pub valid : IsValid result.2.send_queue
  pub sized : 0 < result.2.send_queue.size
  pub outcome :
      ((result.0 ≡ 0)
        × (contents result.2.send_queue ≡ contents c.send_queue ++ buf)
        × (length (contents c.send_queue) < c.config.max_send_queue))
      ⊎ ((result.0 ≢ 0) × (contents result.2.send_queue ≡ contents c.send_queue))

-- For a client with a valid, non-empty queue block, in every state and whatever the network
-- answers, where malloc keeps its contract: tcpclient_sendall either returns 0, with all bytes
-- queued behind the earlier ones and a queue that was below `max_send_queue`, or returns another
-- code and leaves the queued bytes as they were.
pub sendall-IsSent :
    {malloc : Malloc} (net : Network) (buf : List ℕ) (c : Client)
    → IsMalloc malloc
    → IsValid c.send_queue
    → 0 < c.send_queue.size
    → IsSent buf c (sendall malloc net buf c)
unfolding sendall
sendall-IsSent {malloc} net buf c m v pos = elim (Option-cases c.addr) [
  | inl lost ↦
      rw (lost, sendall) (record { valid = v; sized = pos; outcome = inr (ground arith, refl) })
  | inr (addr, known) ↦
      let c1 = (connect net c).2 in
      let (same, config) = connect_frame net c in
      let valid : IsValid c1.send_queue = rw same v in
      let sized : 0 < c1.send_queue.size = rw same pos in
      elim (Bool-cases (leb c1.config.max_send_queue (datacount c1.send_queue))) [
        | inl full ↦
            rw (known, full, sendall)
              (record {
                valid = valid;
                sized = sized;
                outcome = inr (ground arith, ap contents same);
              })
        | inr room ↦
            let q = enqueue-IsQueued buf c1 m valid sized in
            rw (known, room, sendall)
              (record { valid = q.valid; sized = q.sized; outcome = outcome q.outcome room })
      ]
]
  where
    below :
        leb (connect net c).2.config.max_send_queue (datacount (connect net c).2.send_queue) ≡ false
        → length (contents c.send_queue) < c.config.max_send_queue
    below room = omega (
      arith,
      leb→lt _ _ room,
      length-contents v,
      ap datacount (connect_frame net c).0,
      ap (λ (k : ProtoConfig). k.max_send_queue) (connect_frame net c).1,
    )

    outcome :
        {code : ℕ} {queued : List ℕ}
        → ((code ≡ 0) × (queued ≡ contents (connect net c).2.send_queue ++ buf))
          ⊎ ((code ≡ 4) × (queued ≡ contents (connect net c).2.send_queue))
        → leb (connect net c).2.config.max_send_queue (datacount (connect net c).2.send_queue)
          ≡ false
        → ((code ≡ 0)
            × (queued ≡ contents c.send_queue ++ buf)
            × (length (contents c.send_queue) < c.config.max_send_queue))
          ⊎ ((code ≢ 0) × (queued ≡ contents c.send_queue))
    outcome (inl (done, all)) room =
        inl (done, all ∙ ap (λ q. contents q ++ buf) (connect_frame net c).0, below room)
    outcome (inr (out, kept)) room = inr (omega arith, kept ∙ ap contents (connect_frame net c).0)
