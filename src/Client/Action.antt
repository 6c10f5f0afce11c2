-- ===== src/Client/Action.antt =====
-- What can happen to a client: an event of libev or a call of tcpclient_sendall.
use statsrelay.Prelude.{ℕ, zero, suc, ◌≤◌, ◌<◌, ◌≡◌, Bool, true, Option, some, List, [], ◌∷◌, ◌++◌}
use statsrelay.Buffer.{Malloc, datacount}
use statsrelay.Buffer.Invariant.{IsValid, IsMalloc}
use statsrelay.Client.{Client, Event, on_sent, on_connected, on_error, on_recv}
use statsrelay.Client.Connect.{Network, connect_timeout, connected_event}
use statsrelay.Client.Transfer.{Recv, read_event, write_event, sendall}

-- The bytes that a handler reported as sent.
abbrev pub sent_bytes : List Event → List ℕ
sent_bytes [] = []
sent_bytes (on_sent bytes ∷ es) = bytes ++ sent_bytes es
sent_bytes (on_connected ∷ es) = sent_bytes es
sent_bytes (on_error ∷ es) = sent_bytes es
sent_bytes (on_recv _ ∷ es) = sent_bytes es

-- One thing that happens to a client, with what the environment answers.
pub data Action : Type 0 where
  timeout : ℕ → Action
  connected : ℕ → Option ℕ → Bool → Action
  readable : ℕ → Bool → Bool → Recv → Action
  writable : ℕ → Bool → Option ℕ → Action
  send : Malloc → Network → List ℕ → Action

unfoldable pub act : Action → Client → ℕ × List Event × Client
act (timeout now) c = let (events, c') = connect_timeout now c in (0, events, c')
act (connected now sockopt broken) c =
    let (events, c') = connected_event now sockopt broken c in (0, events, c')
act (readable now ready room recv) c =
    let (events, c') = read_event now ready room recv c in (0, events, c')
act (writable now ready sent) c = let (events, c') = write_event now ready sent c in (0, events, c')
act (send malloc net buf) c = sendall malloc net buf c

-- What the environment guarantees of an action: malloc's contract, and send(2) takes no more bytes
-- than it is given.
abbrev pub Allowed : Action → Client → Type 0
Allowed (send malloc net buf) c = IsMalloc malloc
Allowed (writable now ready (some n)) c = n ≤ datacount c.send_queue
Allowed _ c = Unit {0}

-- The bytes that an action hands over: those of a sendall that returns 0.
abbrev pub accepted : Action → ℕ → List ℕ
accepted (send malloc net buf) zero = buf
accepted (send malloc net buf) (suc code) = []
accepted _ code = []

pub record IsOpen (c : Client) : Type 0 where
  pub valid : IsValid c.send_queue
  pub sized : 0 < c.send_queue.size

-- libev calls a handler only while it has its watcher; sendall can be called at any time.
abbrev pub Enabled : Action → Client → Type 0
Enabled (timeout now) c = c.timeout_active ≡ true
Enabled (connected now sockopt broken) c = c.connect_watcher.active ≡ true
Enabled (readable now ready room recv) c = c.read_watcher.active ≡ true
Enabled (writable now ready sent) c = c.write_watcher.active ≡ true
Enabled (send malloc net buf) c = Unit {0}

pub data Step (c : Client) : Client → Type 0 where
  does : (a : Action) → Enabled a c → Allowed a c → Step c (act a c).2

pub data Reach (c : Client) : Client → Type 0 where
  here : Reach c c
  next : {d e : Client} → Reach c d → Step d e → Reach c e
