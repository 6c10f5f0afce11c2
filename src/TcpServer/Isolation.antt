-- ===== src/TcpServer/Isolation.antt =====
-- What an event on one session does to that session, and to the others.
use statsrelay.Prelude.{
  ℕ, ◌≡◌, refl, ◌∙◌, sym, subst, Bool, true, false, Option, none, some, if◌then◌else◌, ◌==◌, ==_iff,
  ltb, arith, Bool-cases, Option-cases, inl, inr,
}
use statsrelay.Outcome.{Outcome, done, undefined, Holds, ◌>>=◌}
use statsrelay.Listener.{System, unwatch, close}
use statsrelay.Listener.Bind.{contains, contains-remove}
use statsrelay.TcpServer.{
  Answered, Callbacks, TcpServer, find, set_ctx, tcpsession_destroy, answer_session, recv_callback,
  Event, connection, readable, handle,
}
use statsrelay.TcpServer.Sessions.{
  IsValid, IsFresh, accept_callback-IsValid, answer_session-IsValid, find-set_ctx, find-discard,
}

-- An event that can come: a new connection has a descriptor that is not open.
abbrev pub Allowed : {S C E : Type 0} → Event E → TcpServer S C → Type 0
Allowed (connection error env answer) server = IsFresh answer server.system
Allowed (readable error env sd) server = Unit {0}

-- The states that the events lead to, as long as no callback is undefined.
pub data Reach {S C E : Type 0} (listener : Callbacks S C E) (server : TcpServer S C)
    : TcpServer S C → Type 0 where
  here : Reach listener server server
  next :
      {s t : TcpServer S C} (event : Event E)
      → Reach listener server s
      → Allowed event s
      → handle listener event s ≡ done t
      → Reach listener server t

answer-IsValid :
    {S C : Type 0}
    → (sd : ℕ) (ctx : Option C) (server : TcpServer S C) (o : Outcome (Answered S C))
    → IsValid server
    → find sd server.sessions ≡ some ctx
    → Holds IsValid (o >>= λ a. done (answer_session sd server a))
answer-IsValid sd ctx server (done a) v found = answer_session-IsValid sd server ctx a v found
answer-IsValid sd ctx server undefined v found = tt

recv_callback-IsValid :
    {S C E : Type 0}
    → (error : Bool) (listener : Callbacks S C E) (env : E) (sd : ℕ) (ctx : Option C)
      (server : TcpServer S C)
    → IsValid server
    → find sd server.sessions ≡ some ctx
    → Holds IsValid (recv_callback error listener env sd ctx server)
unfolding recv_callback
recv_callback-IsValid true listener env sd ctx server v found = v
recv_callback-IsValid false listener env sd ctx server v found =
    elim (Option-cases listener.cb_recv) [
      | inl absent ↦ rw (absent, recv_callback) v
      | inr (cb_recv, present) ↦
          rw (present, recv_callback)
            (answer-IsValid sd ctx server (cb_recv env sd server.shared ctx) v found)
    ]

pub handle-IsValid :
    {S C E : Type 0}
    → (listener : Callbacks S C E) (event : Event E) (server : TcpServer S C) → Allowed event server
    → IsValid server
    → Holds IsValid (handle listener event server)
unfolding handle
handle-IsValid listener (connection error env answer) server fresh v =
    accept_callback-IsValid error listener env answer server fresh v
handle-IsValid listener (readable error env sd) server allowed v =
    elim (Option-cases (find sd server.sessions)) [
      | inl absent ↦ rw (absent, handle) v
      | inr (ctx, found) ↦
          rw (found, handle) (recv_callback-IsValid error listener env sd ctx server v found)
    ]

-- In a state of a TCP server that events lead to, whatever the callbacks, as long as accept returns
-- descriptors that are not open: if the sessions had distinct descriptors, each open and watched,
-- then they still have.
pub Reach-IsValid :
    {S C E : Type 0} {listener : Callbacks S C E} {server t : TcpServer S C}
    → Reach listener server t
    → IsValid server
    → IsValid t
Reach-IsValid here v = v
Reach-IsValid {listener = listener} (next {s} event r allowed e) v =
    subst (Holds IsValid) e (handle-IsValid listener event s allowed (Reach-IsValid r v))

-- What a readable session's callback answered, in the state that the event leads to.
pub record IsAnswered {S C : Type 0} (sd : ℕ) (a : Answered S C) (server t : TcpServer S C)
    : Type 0 where
  pub shared : t.shared ≡ a.shared
  pub session : find sd t.sessions ≡ (if a.code == 0 then some a.ctx else none)
  pub sessions : (x : ℕ) → (x == sd) ≡ false → find x t.sessions ≡ find x server.sessions
  pub opened :
      (x : ℕ)
      → contains x t.system.opened ≡ (
          if a.code == 0
          then contains x server.system.opened
          else if x == sd
          then x == 0
          else contains x server.system.opened)
  pub watched :
      (x : ℕ)
      → contains x t.system.watched ≡ (
          if a.code == 0
          then contains x server.system.watched
          else if x == sd
          then false
          else contains x server.system.watched)

-- Removal of a descriptor that was there, unless it is 0.
closed :
    (sd x : ℕ) (sys : System)
    → contains sd sys.opened ≡ true
    → contains x (unwatch sd (if ltb 0 sd then close sd sys else sys)).opened
      ≡ (if x == sd then x == 0 else contains x sys.opened)
closed sd x sys was = elim (Bool-cases (x == sd)) [
  | inl same ↦ elim (Bool-cases (ltb 0 sd)) [
    | inl pos ↦ rw (pos, same) (ground (arith, contains-remove x sd sys.opened, same, pos))
    | inr none_pos ↦
        rw (none_pos, same)
          (ground (
            arith,
            subst (λ y. contains y sys.opened ≡ true) (sym ((==_iff x sd).0 same)) was,
            same,
            none_pos,
          ))
  ]
  | inr other ↦ elim (Bool-cases (ltb 0 sd)) [
    | inl pos ↦ rw (pos, other) (ground (arith, contains-remove x sd sys.opened, other))
    | inr none_pos ↦ rw (none_pos, other) refl
  ]
]

answer_session-IsAnswered :
    {S C : Type 0}
    → (sd : ℕ) (server : TcpServer S C) (ctx : Option C) (a : Answered S C) → IsValid server
    → find sd server.sessions ≡ some ctx
    → IsAnswered sd a server (answer_session sd server a)
unfolding answer_session tcpsession_destroy
answer_session-IsAnswered sd server ctx a v found = elim (Bool-cases (a.code == 0)) [
  | inl zero_code ↦ record {
    shared = rw (zero_code, answer_session) refl;
    session =
        rw (zero_code, answer_session)
          (find-set_ctx sd sd a.ctx ctx server.sessions found ∙ ground arith);
    sessions = λ x h.
        rw (zero_code, answer_session)
          (find-set_ctx x sd a.ctx ctx server.sessions found ∙ rw (h) refl);
    opened = λ x. rw (zero_code, answer_session) refl;
    watched = λ x. rw (zero_code, answer_session) refl;
  }
  | inr other ↦ record {
    shared = rw (other, answer_session) refl;
    session =
        rw (other, answer_session)
          (find-discard sd sd (set_ctx sd a.ctx server.sessions) ∙ ground arith);
    sessions = λ x h.
        rw (other, answer_session)
          (find-discard x sd (set_ctx sd a.ctx server.sessions)
            ∙ rw (h) (find-set_ctx x sd a.ctx ctx server.sessions found ∙ rw (h) refl));
    opened = λ x. rw (other, answer_session) (closed sd x server.system (v.open_all sd ctx found));
    watched = λ x. rw (other, answer_session) (watched_rest x);
  }
]
  where
    watched_rest :
        (x : ℕ)
        → contains x
            (unwatch sd (if ltb 0 sd then close sd server.system else server.system)).watched
          ≡ (if x == sd then false else contains x server.system.watched)
    watched_rest x = elim (Bool-cases (ltb 0 sd)) [
      | inl pos ↦ rw (pos) (contains-remove x sd server.system.watched)
      | inr none_pos ↦ rw (none_pos) (contains-remove x sd server.system.watched)
    ]

-- If the sessions of a TCP server have distinct descriptors, each open and watched, and the
-- callback of a readable session returns, then its session has the context that the callback left
-- if the result is 0; otherwise it is gone and its descriptor is not watched, and not open unless
-- it is 0. The other sessions have the contexts that they had, and the other descriptors are open
-- and watched as before.
pub readable_session :
    {S C E : Type 0}
    → (listener : Callbacks S C E) (env : E) (sd : ℕ) (ctx : Option C) (server : TcpServer S C)
      (cb_recv : E → ℕ → S → Option C → Outcome (Answered S C)) (a : Answered S C)
    → IsValid server
    → find sd server.sessions ≡ some ctx
    → listener.cb_recv ≡ some cb_recv
    → cb_recv env sd server.shared ctx ≡ done a
    → (t : TcpServer S C) × (handle listener (readable false env sd) server ≡ done t)
      × IsAnswered sd a server t
unfolding handle recv_callback
readable_session listener env sd ctx server cb_recv a v found callback answered = (
  answer_session sd server a,
  rw (found, callback, answered, handle, recv_callback) refl,
  answer_session-IsAnswered sd server ctx a v found,
)
