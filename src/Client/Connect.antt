-- ===== src/Client/Connect.antt =====
-- tcpclient_connect and the two events that end a connection attempt.
use statsrelay.Prelude.{
  ℕ, ◌-◌, Bool, true, false, ◌||◌, not, Option, none, some, List, [], ◌∷◌, if◌then◌else◌, ltb, ◌==◌,
  take,
}
use statsrelay.Bytes.{same_bytes}
use statsrelay.Client.{
  init, connecting, backoff, connected, terminated, Event, on_connected, on_error, SockType, dgram,
  stream, Client, watching, stop, release,
}

-- What the system answers during one call: the time, and getaddrinfo, socket, fcntl and connect.
-- `none` and `false` are failures; connect that returns EINPROGRESS has not failed.
pub record Network : Type 0 where
  pub now : ℕ
  pub getaddrinfo : Option ℕ
  pub socket : Option ℕ
  pub nonblock : Bool
  pub connect : Bool

abbrev pub retry_timeout : ℕ
retry_timeout = 1

abbrev udp : List ℕ
udp = b'u' ∷ b'd' ∷ b'p' ∷ []

-- `strncmp(protocol, "udp", 3) == 0`
abbrev sock_type : List ℕ → SockType
sock_type protocol = if same_bytes (take 3 protocol) udp then dgram else stream

-- `last_error = time(NULL)`, the state BACKOFF and the error callback.
abbrev fail_to : ℕ → ℕ → Client → ℕ × List Event × Client
fail_to code now c = (code, on_error ∷ [], record c { last_error = now; state = backoff })

-- From the socket on, with the address that was found.
unfoldable pub open_socket : Network → Client → ℕ × List Event × Client
open_socket net c = elim net.socket [
  | none ↦ fail_to 4 net.now c
  | some sd ↦
      let opened = record c { sd = some sd; sd_open = true } in
      if not net.nonblock
      then fail_to 5 net.now (record opened { sd_open = false })
      else (let waiting = record opened { connect_watcher = watching; timeout_active = true } in
          if not net.connect
          then (fail_to 6 net.now (record waiting {
            timeout_active = false;
            connect_watcher = stop waiting.connect_watcher;
            sd_open = false;
          }))
          else (0, [], record waiting { state = connecting }))
]

-- The branch of tcpclient_connect for STATE_INIT.
unfoldable pub connect_init : Network → Client → ℕ × List Event × Client
unfolding open_socket same_bytes
connect_init net c =
    let c' = if c.config.always_resolve_dns then record c { addr = none } else c in
    elim c'.addr [
      | none ↦
          let typed = record c' { socktype = sock_type c'.protocol } in
          elim net.getaddrinfo [
            | none ↦ fail_to 3 net.now typed
            | some addr ↦ open_socket net (record typed { addr = some addr })
          ]
      | some addr ↦ open_socket net c'
    ]

unfoldable pub connect : Network → Client → ℕ × List Event × Client
unfolding connect_init
connect net c = elim c.state [
  | connected ↦ (1, [], c)
  | connecting ↦ (1, [], c)
  | backoff ↦
      if ltb retry_timeout (net.now - c.last_error)
      then connect_init net (record c { state = init })
      else (2, [], c)
  | init ↦ connect_init net c
  | terminated ↦ (7, [], c)
]

-- tcpclient_connect_timeout. The timer does not repeat.
unfoldable pub connect_timeout : ℕ → Client → List Event × Client
connect_timeout now c = (
  on_error ∷ [],
  record c {
    timeout_active = false;
    connect_watcher = release c.connect_watcher;
    sd_open = false;
    last_error = now;
    state = backoff;
  },
)

-- tcpclient_connected: `sockopt` is the socket's error, `none` where getsockopt fails, and `broken`
-- is whether libev reports EV_ERROR.
unfoldable pub connected_event : ℕ → Option ℕ → Bool → Client → List Event × Client
connected_event now sockopt broken c =
    let quiet = record c { timeout_active = false; connect_watcher = stop c.connect_watcher } in
    elim sockopt [
      | none ↦ ([], quiet)
      | some err ↦
          if broken || not (err == 0)
          then ([], record quiet { sd_open = false; last_error = now; state = backoff })
          else (
            on_connected ∷ [],
            record quiet { state = connected; read_watcher = watching; write_watcher = watching },
          )
    ]
