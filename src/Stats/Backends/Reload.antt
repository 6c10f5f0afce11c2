-- ===== src/Stats/Backends/Reload.antt =====
-- hashring_dealloc with kill_backend: what stats_server_reload does to the backends' clients.
use statsrelay.Prelude.{
  ℕ, zero, suc, ◌<◌, length, length-set, get_elem?_total, ◌≡◌, ◌≢◌, refl, subst, ap, ◌∙◌, sym, true,
  false, Option, some, List, [], ◌∷◌, map, get_elem?, arith, Bool-cases, Option-cases, inl, inr,
  get_elem?-set_self, get_elem?-set_ne, lt_of_get_elem?,
}
use native.Mathlib.Decide.{ℕ_discrete}
use statsrelay.PointerList.Holds.{Holds}
use statsrelay.Ring.{Pointer, Ring, seen, dealloc_slots, dealloc}
use statsrelay.Ring.Dealloc.{passed}
use statsrelay.Client.{Client}
use statsrelay.Client.Setup.{tcpclient_destroy}
use statsrelay.Client.Watchers.{IsConsistent, IsFlagged}
use statsrelay.Stats.{Backend, Server}
use statsrelay.Stats.Backends.Ready.{some_inj}
use statsrelay.Stats.Backends.{Making, kill_backend, backend_callbacks, stats_server_reload}

-- The watchers that libev has are those that tcpclient_destroy stops.
record IsFlaggedClient (c : Client) : Type 0 where
  connect_flag : IsFlagged c.connect_watcher
  read_flag : IsFlagged c.read_watcher
  write_flag : IsFlagged c.write_watcher

-- libev delivers no event to the client, and its descriptor is closed.
pub record IsQuiet (c : Client) : Type 0 where
  pub timer : c.timeout_active ≡ false
  pub connect_off : c.connect_watcher.active ≡ false
  pub read_off : c.read_watcher.active ≡ false
  pub write_off : c.write_watcher.active ≡ false
  pub closed : c.sd_open ≡ false

abbrev AllClients : (Client → Type 0) → Server → Type 0
AllClients P s = (q : Pointer) (b : Backend) → get_elem? s.heap q ≡ some b → P b.client

-- The backends of the slots that were passed.
abbrev PassedQuiet : List (Option Pointer) → Server → Type 0
PassedQuiet earlier s =
    (q : Pointer) (b : Backend)
    → seen q earlier ≡ true
    → get_elem? s.heap q ≡ some b
    → IsQuiet b.client

tcpclient_destroy-IsQuiet : (c : Client) → IsFlaggedClient c → IsQuiet (tcpclient_destroy c)
unfolding tcpclient_destroy
tcpclient_destroy-IsQuiet c f = ground (arith, f.connect_flag, f.read_flag, f.write_flag)

tcpclient_destroy-IsFlagged :
    (c : Client) → IsFlaggedClient c → IsFlaggedClient (tcpclient_destroy c)
unfolding tcpclient_destroy
tcpclient_destroy-IsFlagged c f = ground (arith, f.connect_flag, f.read_flag, f.write_flag)

-- What kill_backend leaves at its pointer, and at another.
kill_same :
    (p : Pointer) (s : Server) (b' : Backend)
    → get_elem? (kill_backend p s).heap p ≡ some b'
    → (b : Backend) × (get_elem? s.heap p ≡ some b) × (b'.client ≡ tcpclient_destroy b.client)
unfolding kill_backend
kill_same p s b' found = elim (Option-cases (get_elem? s.heap p)) [
  | inl dead ↦ absurd (cc (dead, rw (dead, kill_backend) at found))
  | inr (b, live) ↦
      let gone : Backend = record b { client = tcpclient_destroy b.client } in
      let at : some gone ≡ some b' =
        sym (get_elem?-set_self s.heap p gone (lt_of_get_elem? s.heap p live))
        ∙ rw (live, kill_backend) at found in
      (b, live, sym (ap (λ (c : Backend). c.client) (some_inj at)))
]

kill_other :
    (p q : Pointer) (s : Server) → p ≢ q → get_elem? (kill_backend p s).heap q ≡ get_elem? s.heap q
unfolding kill_backend
kill_other p q s other = elim (Option-cases (get_elem? s.heap p)) [
  | inl dead ↦ rw (dead, kill_backend) refl
  | inr (b, live) ↦
      rw (live, kill_backend)
        (get_elem?-set_ne s.heap p q (record b { client = tcpclient_destroy b.client }) other)
]

kill-flagged :
    (p : Pointer) (s : Server)
    → AllClients IsFlaggedClient s
    → AllClients IsFlaggedClient (kill_backend p s)
kill-flagged p s f q b' found = elim (ℕ_discrete p q) [
  | yes same ↦
      let (b, live, e) =
        kill_same p s b'
          (subst (λ k. get_elem? (kill_backend p s).heap k ≡ some b') (sym same) found) in
      subst IsFlaggedClient (sym e) (tcpclient_destroy-IsFlagged b.client (f p b live))
  | no other ↦ f q b' (sym (kill_other p q s other) ∙ found)
]

-- A step of the outer loop of hashring_dealloc.
kill-PassedQuiet :
    (x : Pointer) (earlier : List (Option Pointer)) (s : Server)
    → AllClients IsFlaggedClient s
    → PassedQuiet earlier s
    → PassedQuiet (some x ∷ earlier) (kill_backend x s)
kill-PassedQuiet x earlier s f quiet q b' passed found = elim (ℕ_discrete x q) [
  | yes same ↦
      let (b, live, e) =
        kill_same x s b'
          (subst (λ k. get_elem? (kill_backend x s).heap k ≡ some b') (sym same) found) in
      subst IsQuiet (sym e) (tcpclient_destroy-IsQuiet b.client (f x b live))
  | no other ↦ quiet q b' (ground (arith, passed, other)) (sym (kill_other x q s other) ∙ found)
]

seen-PassedQuiet :
    (x : Pointer) (earlier : List (Option Pointer)) (s : Server)
    → seen x earlier ≡ true
    → PassedQuiet earlier s
    → PassedQuiet (some x ∷ earlier) s
seen-PassedQuiet x earlier s old quiet q b' passed found = elim (ℕ_discrete x q) [
  | yes same ↦ quiet q b' (subst (λ k. seen k earlier ≡ true) same old) found
  | no other ↦ quiet q b' (ground (arith, passed, other)) found
]

dealloc_slots-PassedQuiet :
    (env : List ℕ → Making) (xs : List Pointer) (earlier : List (Option Pointer)) (s : Server)
    → AllClients IsFlaggedClient s
    → PassedQuiet earlier s
    → PassedQuiet
        (passed xs earlier)
        (dealloc_slots (backend_callbacks env) (map some xs) earlier s)
unfolding dealloc_slots
dealloc_slots-PassedQuiet env [] earlier s f quiet = quiet
dealloc_slots-PassedQuiet env (x ∷ xs) earlier s f quiet = elim (Bool-cases (seen x earlier)) [
  | inl old ↦
      rw (old, dealloc_slots)
        (dealloc_slots-PassedQuiet env xs (some x ∷ earlier) s f
          (seen-PassedQuiet x earlier s old quiet))
  | inr new ↦
      rw (new, dealloc_slots)
        (dealloc_slots-PassedQuiet env xs (some x ∷ earlier) (kill_backend x s) (kill-flagged x s f)
          (kill-PassedQuiet x earlier s f quiet))
]

length-kill : (p : Pointer) (s : Server) → length (kill_backend p s).heap ≡ length s.heap
unfolding kill_backend
length-kill p s = elim (Option-cases (get_elem? s.heap p)) [
  | inl dead ↦ rw (dead, kill_backend) refl
  | inr (b, live) ↦
      rw (live, kill_backend)
        (length-set s.heap p (record b { client = tcpclient_destroy b.client }))
]

length-dealloc_slots :
    (env : List ℕ → Making) (xs : List Pointer) (earlier : List (Option Pointer)) (s : Server)
    → length (dealloc_slots (backend_callbacks env) (map some xs) earlier s).heap ≡ length s.heap
unfolding dealloc_slots
length-dealloc_slots env [] earlier s = refl
length-dealloc_slots env (x ∷ xs) earlier s = elim (Bool-cases (seen x earlier)) [
  | inl old ↦ rw (old, dealloc_slots) (length-dealloc_slots env xs (some x ∷ earlier) s)
  | inr new ↦
      rw (new, dealloc_slots)
        (length-dealloc_slots env xs (some x ∷ earlier) (kill_backend x s) ∙ length-kill x s)
]

seen-passed :
    (xs : List Pointer) (earlier : List (Option Pointer)) (q : Pointer)
    → seen q earlier ≡ true
    → seen q (passed xs earlier) ≡ true
seen-passed [] earlier q old = old
seen-passed (x ∷ xs) earlier q old = seen-passed xs (some x ∷ earlier) q (ground (arith, old))

seen-get :
    (xs : List Pointer) (earlier : List (Option Pointer)) (i : ℕ) (q : Pointer)
    → get_elem? xs i ≡ some q
    → seen q (passed xs earlier) ≡ true
seen-get [] earlier i q at = absurd (cc at)
seen-get (x ∷ xs) earlier zero q at =
    seen-passed xs (some x ∷ earlier) q (ground (arith, some_inj at))
seen-get (x ∷ xs) earlier (suc i) q at = seen-get xs (some x ∷ earlier) i q at

-- If a server has a ring that holds the pointers `xs`, and each backend's client is consistent,
-- then stats_server_reload leaves each backend that a pointer of `xs` leads to with a destroyed
-- client, however often the pointer stands there: its timer and its three watchers are stopped and
-- its descriptor is closed, so that libev delivers no event to it.
pub stats_server_reload-IsQuiet :
    (env : List ℕ → Making) (now : ℕ) (ss : Server) (ring : Ring) (xs : List Pointer)
    → ss.ring ≡ some ring
    → Holds ring.backends xs
    → ((p : Pointer) (b : Backend) → get_elem? ss.heap p ≡ some b → IsConsistent b.client)
    → (q i : ℕ) → q < length ss.heap
    → get_elem? xs i ≡ some q
    → (b : Backend) × (get_elem? (stats_server_reload env now ss).heap q ≡ some b)
      × IsQuiet b.client
unfolding stats_server_reload dealloc
stats_server_reload-IsQuiet env now ss ring xs e h v q i inside at =
    let (b, found) =
      get_elem?_total after.heap q (omega (arith, inside, length-dealloc_slots env xs [] start)) in
    (
      b,
      rw (e, h.held, dealloc, stats_server_reload) found,
      dealloc_slots-PassedQuiet env xs [] start (λ p c live. flagged c.client (v p c live))
          (λ p c old. absurd (cc old)) q b (seen-get xs [] i q at) found,
    )
  where
    flagged : (c : Client) → IsConsistent c → IsFlaggedClient c
    flagged c v = record {
      connect_flag = v.connect_flag;
      read_flag = v.read_flag;
      write_flag = v.write_flag;
    }

    start : Server
    start = record ss { ring = some ring }

    after : Server
    after = dealloc_slots (backend_callbacks env) (map some xs) [] start
