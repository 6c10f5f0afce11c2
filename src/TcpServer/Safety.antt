-- ===== src/TcpServer/Safety.antt =====
-- A TCP server with the callbacks of stats.c: no sequence of events takes it out of its memory.
use statsrelay.Prelude.{
  ℕ, ◌+◌, ◌<◌, ◌≡◌, refl, ap, ◌∙◌, sym, subst, Bool, true, false, Option, none, some, List, [], ◌∷◌,
  ◌++◌, ◌==◌, u64, arith, Bool-cases, Option-cases, inl, inr,
}
use statsrelay.Outcome.{Outcome, done, Holds, ◌>>=◌}
use statsrelay.Buffer.{Malloc, Buffer, init, allocate, unset, initial_buffer_size, ok, Status}
use statsrelay.Buffer.Invariant.{IsValid, IsMalloc}
use statsrelay.Stats.{Server}
use statsrelay.Stats.Session.{stats_connection}
use statsrelay.Stats.Safety.{IsSound, IsHonest}
use statsrelay.Stats.Safety.Session.{IsSession, IsReceived, stats_recv-IsSound}
use statsrelay.TcpServer.{
  Answered, TcpServer, Accepted, no_memory, refused, blocking, accepted, find, set_ctx,
  accept_callback, tcpsession_destroy, answer_session, recv_callback, Event, connection, readable,
  handle,
}
use statsrelay.TcpServer.Sessions.{find-set_ctx, find-discard}
use statsrelay.TcpServer.Stats.{Given, Shared, stats_callbacks}

-- A session's context is a valid buffer that is not of size 0.
abbrev pub HasBuffer : Option Buffer → Type 0
HasBuffer ctx = (b : Buffer) × (ctx ≡ some b) × IsValid b × (0 < b.size)

pub record IsSafe (server : TcpServer Shared Buffer) : Type 0 where
  pub sessions : (sd : ℕ) (ctx : Option Buffer) → find sd server.sessions ≡ some ctx → HasBuffer ctx
  pub sound : IsSound server.shared.server

-- There is memory for a session; recv(2) and malloc keep their contracts, and the lines are short.
abbrev pub IsPossible : Event Given → TcpServer Shared Buffer → Type 0
IsPossible (connection error given answer) server =
    (given.memory ≡ true)
    × IsMalloc given.malloc
    × ((block : List ℕ) × (given.malloc initial_buffer_size ≡ some block))
IsPossible (readable error given sd) server =
    IsMalloc given.malloc
    × IsHonest given.world
    × ((b : Buffer)
        → find sd server.sessions ≡ some (some b)
        → IsReceived given.malloc given.recv b)

some_inj {ℓ} : {A : Type ℓ} {a b : A} → some a ≡ some b → a ≡ b
some_inj e = cc

-- A new session has an empty buffer.
stats_connection_lem :
    (memory : Bool) (malloc : Malloc) (ss : Server) (block : List ℕ)
    → memory ≡ true
    → malloc initial_buffer_size ≡ some block
    → stats_connection memory malloc ss ≡ (
      some (record { mem = block; head = 0; tail = 0; size = initial_buffer_size }),
      record ss { total_connections = u64 (ss.total_connections + 1) },
    )
unfolding stats_connection init allocate
stats_connection_lem memory malloc ss block enough given =
    let started : init malloc unset
        ≡ (ok, record { mem = block; head = 0; tail = 0; size = initial_buffer_size }) =
      rw (given, init, allocate) refl in
    rw (enough, started, stats_connection)
      (ap
        (λ (r : Status × Buffer).
          (some r.1, record ss { total_connections = u64 (ss.total_connections + 1) }))
        started)

accept_callback-IsSafe :
    (error : Bool) (given : Given) (answer : Accepted) (server : TcpServer Shared Buffer)
    → IsPossible (connection error given answer) server
    → IsSafe server
    → IsSafe (accept_callback error stats_callbacks given answer server)
unfolding accept_callback stats_callbacks find
accept_callback-IsSafe true given answer server possible s = s
accept_callback-IsSafe false given no_memory server possible s = s
accept_callback-IsSafe false given refused server possible s = s
accept_callback-IsSafe false given (blocking sd) server possible s = record {
  sessions = s.sessions;
  sound = s.sound;
}
accept_callback-IsSafe false given (accepted sd) server (memory, m, (block, answer)) s =
    let made =
      stats_connection_lem given.memory given.malloc server.shared.server block memory answer in
    record {
      sessions = λ x ctx found. elim (Bool-cases (sd == x)) [
        | inl same ↦ (
          record { mem = block; head = 0; tail = 0; size = initial_buffer_size },
          sym (some_inj (rw (same, find) at found)) ∙ ap (λ (r : Option Buffer × Server). r.0) made,
          record {
            ordered = omega arith;
            within = omega arith;
            block = m.sized initial_buffer_size block answer;
            small = omega arith;
          },
          omega arith,
        )
        | inr other ↦ s.sessions x ctx (rw (other, find) at found)
      ];
      sound = subst IsSound (sym (ap (λ (r : Option Buffer × Server). r.1) made)) (record {
        ready = record { opened = s.sound.ready.opened; live = s.sound.ready.live };
        bounded = s.sound.bounded;
      });
    }

IsSession-HasBuffer :
    (code : ℕ) (ctx : Option Buffer) → IsSession code ctx → (code == 0) ≡ true → HasBuffer ctx
IsSession-HasBuffer code none h zero_code = absurd (h (ground (arith, zero_code)))
IsSession-HasBuffer code (some b) (v, pos) zero_code = (b, refl, v, pos)

answer_session-IsSafe :
    (sd : ℕ) (server : TcpServer Shared Buffer) (ctx : Option Buffer) (a : Answered Shared Buffer)
    → find sd server.sessions ≡ some ctx
    → IsSafe server
    → IsSound a.shared.server
    → IsSession a.code a.ctx
    → IsSafe (answer_session sd server a)
unfolding answer_session tcpsession_destroy
answer_session-IsSafe sd server ctx a found s sound session = elim (Bool-cases (a.code == 0)) [
  | inl zero_code ↦
      rw (zero_code, answer_session)
        (record {
          sessions = λ x c at. elim (Bool-cases (x == sd)) [
            | inl same ↦
                subst HasBuffer
                  (some_inj
                    (rw same at (sym (find-set_ctx x sd a.ctx ctx server.sessions found) ∙ at)))
                  (IsSession-HasBuffer a.code a.ctx session zero_code)
            | inr other ↦
                s.sessions x c
                  (rw other at (sym (find-set_ctx x sd a.ctx ctx server.sessions found) ∙ at))
          ];
          sound = sound;
        })
  | inr failed ↦
      rw (failed, answer_session)
        (record {
          sessions = λ x c at. elim (Bool-cases (x == sd)) [
            | inl same ↦
                absurd (
                  cc (rw same at (sym (find-discard x sd (set_ctx sd a.ctx server.sessions)) ∙ at)))
            | inr other ↦ s.sessions x c (
                rw other at (
                  sym (find-set_ctx x sd a.ctx ctx server.sessions found)
                  ∙ (rw other at
                      (sym (find-discard x sd (set_ctx sd a.ctx server.sessions)) ∙ at))))
          ];
          sound = sound;
        })
]

-- One event, in a safe state.
pub handle-IsSafe :
    (event : Event Given) (server : TcpServer Shared Buffer)
    → IsPossible event server
    → IsSafe server
    → (t : TcpServer Shared Buffer) × (handle stats_callbacks event server ≡ done t) × IsSafe t
unfolding handle recv_callback stats_callbacks
handle-IsSafe (connection error given answer) server possible s = (
  accept_callback error stats_callbacks given answer server,
  refl,
  accept_callback-IsSafe error given answer server possible s,
)
handle-IsSafe (readable true given sd) server possible s =
    elim (Option-cases (find sd server.sessions)) [
      | inl absent ↦ (server, rw (absent, handle) refl, s)
      | inr (ctx, found) ↦ (server, rw (found, handle, recv_callback) refl, s)
    ]
handle-IsSafe (readable false given sd) server (m, honest, received) s =
    elim (Option-cases (find sd server.sessions)) [
      | inl absent ↦ (server, rw (absent, handle) refl, s)
      | inr (ctx, found) ↦
          let (b, is_some, v, pos) = s.sessions sd ctx found in
          let here = found ∙ ap some is_some in
          let (p, runs, sound, session) =
            stats_recv-IsSound given.malloc given.recv given.world b server.shared.server m honest v
              pos (received b here) s.sound in
          let a : Answered Shared Buffer = record {
            code = p.code;
            ctx = p.left;
            shared = record {
              server = p.server;
              sent = server.shared.sent ++ (sd, p.responses) ∷ [];
            };
          } in
          (
            answer_session sd server a,
            rw (here, runs, handle, recv_callback) refl,
            answer_session-IsSafe sd server (some b) a here s sound session,
          )
    ]

-- One event after the other.
unfoldable pub handle_all :
    List (Event Given) → TcpServer Shared Buffer → Outcome (TcpServer Shared Buffer)
unfolding handle stats_callbacks
handle_all [] server = done server
handle_all (event ∷ events) server = handle stats_callbacks event server >>= handle_all events

-- Each event is possible where it comes.
abbrev pub ArePossible : List (Event Given) → TcpServer Shared Buffer → Type 0
ArePossible [] server = Unit {0}
ArePossible (event ∷ events) server =
    IsPossible event server × Holds (ArePossible events) (handle stats_callbacks event server)
