-- ===== src/Client/Setup.antt =====
-- tcpclient_init and tcpclient_destroy: a client's first and last state.
use statsrelay.Prelude.{
  ℕ, ◌^◌, ◌<◌, ◌≡◌, Bool, true, false, Option, none, some, List, [], ◌∷◌, arith, if◌then◌else◌, not,
}
use statsrelay.Buffer
use statsrelay.Buffer.{Malloc, Buffer, initial_buffer_size}
use statsrelay.Buffer.Invariant.{IsValid, IsMalloc, newsize-IsValid}
use statsrelay.Buffer.Queue.{contents, contents-newsize}
use statsrelay.Buffer.Growth.{size-le-newsize}
use statsrelay.Config.{ProtoConfig}
use statsrelay.Client.{Client, init, dgram, idle, release}
use statsrelay.Client.Action.{IsOpen}
use statsrelay.Client.Watchers.{IsConsistent}

abbrev pub default_buffer_size : ℕ
default_buffer_size = 2 ^ 16

abbrev tcp : List ℕ
tcp = b't' ∷ b'c' ∷ b'p' ∷ []

-- Whether calloc gives the three copies of strings.
pub record Copies : Type 0 where
  pub host : Bool
  pub port : Bool
  pub protocol : Bool

-- The send queue: buffer_init and buffer_newsize, whose results are not looked at.
unfoldable pub fresh_queue : Malloc → Buffer → Buffer
fresh_queue malloc b = (Buffer.newsize malloc (Buffer.init malloc b).1 default_buffer_size).1

-- The fields that tcpclient_init sets before it looks at its arguments.
abbrev begun : ProtoConfig → Client → Client
begun config c = record c {
  state = init;
  addr = none;
  last_error = 0;
  failing = false;
  sd = none;
  socktype = dgram;
  config = config;
}

-- A copy that calloc cannot make is NULL, here the empty string. libev watches nothing of a new client.
unfoldable pub tcpclient_init :
    Malloc
    → Copies
    → ProtoConfig
    → Option (List ℕ)
    → Option (List ℕ)
    → Option (List ℕ)
    → Client
    → ℕ × Client
tcpclient_init malloc copies config none port protocol c = (1, begun config c)
tcpclient_init malloc copies config (some host) port protocol c =
    if not copies.host then (1, record (begun config c) { host = [] }) else elim port [
      | none ↦ (1, record (begun config c) { host = host })
      | some port' ↦
          if not copies.port
          then (1, record (begun config c) { host = host; port = [] })
          else if not copies.protocol
          then (1, record (begun config c) { host = host; port = port'; protocol = [] })
          else (
            0,
            record (begun config c) {
              host = host;
              port = port';
              protocol = elim protocol [ none ↦ tcp | some p ↦ p ];
              send_queue = fresh_queue malloc c.send_queue;
              sd_open = false;
              timeout_active = false;
              connect_watcher = idle;
              read_watcher = idle;
              write_watcher = idle;
            },
          )
    ]

-- tcpclient_destroy
unfoldable pub tcpclient_destroy : Client → Client
tcpclient_destroy c = record c {
  timeout_active = false;
  connect_watcher = release c.connect_watcher;
  read_watcher = release c.read_watcher;
  write_watcher = release c.write_watcher;
  sd_open = false;
  addr = none;
  send_queue = Buffer.destroy c.send_queue;
}

-- What a client that was set up is: consistent, open, and with an empty queue.
pub record IsReady (c : Client) : Type 0 where
  pub consistent : IsConsistent c
  pub opened : IsOpen c
  pub empty : contents c.send_queue ≡ []

fresh_queue_lem :
    {malloc : Malloc} (b : Buffer) (block : List ℕ)
    → IsMalloc malloc
    → malloc initial_buffer_size ≡ some block
    → let q = fresh_queue malloc b in IsValid q × (0 < q.size) × (contents q ≡ [])
fresh_queue_lem {malloc} b block m got =
    let b0 : Buffer = record { mem = block; head = 0; tail = 0; size = initial_buffer_size } in
    let start : Buffer.init malloc b ≡ (Buffer.ok, b0) =
      unfold Buffer.init in rw (got, Buffer.init, Buffer.allocate) in
    let v0 : IsValid b0 = record {
      ordered = omega arith;
      within = omega arith;
      block = m.sized _ block got;
      small = omega arith;
    } in
    unfold fresh_queue in
    rw (start, fresh_queue)
      (
        newsize-IsValid default_buffer_size m v0 (omega arith),
        omega (arith, size-le-newsize malloc b0 default_buffer_size (omega arith)),
        contents-newsize malloc default_buffer_size v0 (omega arith),
      )

-- If tcpclient_init returns 0, malloc keeps its contract and it gave the first block of the send
-- queue, then the client is consistent and its queue block is valid, not of size 0, and empty.
pub tcpclient_init-IsReady :
    {malloc : Malloc} (copies : Copies) (config : ProtoConfig)
    (host port protocol : Option (List ℕ)) (c : Client) (block : List ℕ)
    → IsMalloc malloc
    → malloc initial_buffer_size ≡ some block
    → (tcpclient_init malloc copies config host port protocol c).0 ≡ 0
    → IsReady (tcpclient_init malloc copies config host port protocol c).1
unfolding tcpclient_init
tcpclient_init-IsReady copies config none port protocol c block m got h = absurd (omega arith)
tcpclient_init-IsReady copies config (some host) none protocol c block m got h =
    absurd (ground arith)
tcpclient_init-IsReady copies config (some host) (some port) protocol c block m got h =
    let copied : (copies.host ≡ true) × (copies.port ≡ true) × (copies.protocol ≡ true) =
      ground arith in
    let (valid, sized, empty) = fresh_queue_lem c.send_queue block m got in
    rw (copied.0, copied.1, copied.2, tcpclient_init)
      (record {
        consistent = ground arith;
        opened = record { valid = valid; sized = sized };
        empty = empty;
      })

-- tcpclient_destroy of a consistent client stops its timer and its three watchers and closes its
-- descriptor, so that libev delivers no event to the freed client.
tcpclient_destroy_quiet :
    (c : Client)
    → IsConsistent c
    → ((tcpclient_destroy c).timeout_active ≡ false)
      × ((tcpclient_destroy c).connect_watcher.active ≡ false)
      × ((tcpclient_destroy c).read_watcher.active ≡ false)
      × ((tcpclient_destroy c).write_watcher.active ≡ false)
      × ((tcpclient_destroy c).sd_open ≡ false)
unfolding tcpclient_destroy
tcpclient_destroy_quiet c v = ground arith
