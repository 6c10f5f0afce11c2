-- ===== src/Client/Transfer.antt =====
-- The events of a connected socket, and tcpclient_sendall.
use statsrelay.Prelude.{
  ℕ, zero, suc, Bool, true, false, ◌&&◌, not, Option, none, some, List, [], ◌∷◌, if◌then◌else◌, ltb,
  leb, ◌==◌, take, length,
}
use statsrelay.Buffer.{
  Malloc, ok, fail, Buffer, datacount, spacecount, expand, consume, produced, copy_in, realign,
}
use statsrelay.Buffer.Queue.{contents}
use statsrelay.Client.{
  State, init, connected, backoff, Event, on_sent, on_recv, on_error, Client, idle, watching, stop,
  release,
}
use statsrelay.Client.Connect.{Network, connect}

-- What recv(2) returns: an error, the end of the stream, or bytes.
pub data Recv : Type 0 where
  failed closed : Recv
  got : List ℕ → Recv

-- tcpclient_read_event. `readable` is the flag EV_READ, `room` whether malloc gives a buffer.
unfoldable pub read_event : ℕ → Bool → Bool → Recv → Client → List Event × Client
read_event now readable room recv c = if not (readable && room) then ([], c) else (elim recv [
  | failed ↦ (
    on_error ∷ [],
    record c {
      read_watcher = release c.read_watcher;
      write_watcher = release c.write_watcher;
      sd_open = false;
      state = backoff;
      last_error = now;
    },
  )
  | closed ↦ (
    on_error ∷ [],
    record c {
      read_watcher = stop c.read_watcher;
      write_watcher = stop c.write_watcher;
      sd_open = false;
      state = init;
      last_error = now;
    },
  )
  | got bytes ↦ (on_recv bytes ∷ [], c)
])

-- What write_event does with the queue behind a send of `n` bytes.
unfoldable pub after_send : ℕ → Client → Client
unfolding consume
after_send n c =
    let (status, queue) = consume c.send_queue n in
    let c1 = record c { send_queue = queue } in
    elim status [
      | fail ↦ c1
      | ok ↦
          let c2 =
            if c1.failing && ltb (datacount queue) c.config.max_send_queue
            then record c1 { failing = false }
            else c1 in
          if datacount queue == 0 then record c2 { write_watcher = idle } else c2
    ]

-- tcpclient_write_event. `writable` is the flag EV_WRITE; `send` is what send(2) returns, `none` for
-- an error.
unfoldable pub write_event : ℕ → Bool → Option ℕ → Client → List Event × Client
unfolding after_send
write_event now writable send c =
    if not writable
    then ([], c)
    else if ltb 0 (datacount c.send_queue)
    then (elim send [
      | none ↦ (
        on_error ∷ [],
        record c {
          write_watcher = stop c.write_watcher;
          read_watcher = stop c.read_watcher;
          last_error = now;
          state = backoff;
          sd_open = false;
        },
      )
      | some n ↦ (on_sent (take n (contents c.send_queue)) ∷ [], after_send n c)
    ])
    else ([], record c { write_watcher = idle })

-- `while (buffer_spacecount(sendq) < len) buffer_expand(sendq)`: whether it went well, and the buffer.
unfoldable pub make_space : ℕ → Malloc → ℕ → Buffer → Bool × Buffer
unfolding expand
make_space zero malloc len b = (true, b)
make_space (suc rounds) malloc len b = elim (ltb (spacecount b) len) [
  | false ↦ (true, b)
  | true ↦
      let (status, b') = expand malloc b in
      elim status [ ok ↦ make_space rounds malloc len b' | fail ↦ (false, b') ]
]

abbrev pub is_connected : State → Bool
is_connected connected = true
is_connected _ = false

-- tcpclient_sendall from the test of `spacecount` on. Each round of the loop frees a byte at least,
-- so `len` rounds are enough.
unfoldable pub enqueue : Malloc → List ℕ → Client → ℕ × Client
enqueue malloc buf c =
    let len = length buf in
    let aligned =
      if ltb (spacecount c.send_queue) len then realign c.send_queue else c.send_queue in
    let (room, queue) = make_space len malloc len aligned in
    if not room then (4, record c { send_queue = queue }) else (
      0,
      record c {
        send_queue = (produced (copy_in queue queue.tail buf) len).1;
        write_watcher = if is_connected c.state then watching else c.write_watcher;
      },
    )

-- tcpclient_sendall
unfoldable pub sendall : Malloc → Network → List ℕ → Client → ℕ × List Event × Client
sendall malloc net buf c = elim c.addr [
  | none ↦ (1, [], c)
  | some _ ↦
      let (_, events, c1) = connect net c in
      if leb c1.config.max_send_queue (datacount c1.send_queue)
      then (2, events, record c1 { failing = true })
      else (let (code, c2) = enqueue malloc buf c1 in (code, events, c2))
]
