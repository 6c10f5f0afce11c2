-- ===== src/TcpServer/Sessions.antt =====
-- The sessions of a server: how they stay apart, and how they stay open.
use statsrelay.Prelude.{
  ℕ, ◌≡◌, refl, ◌∙◌, sym, subst, Bool, true, false, Option, none, some, List, [], ◌∷◌,
  if◌then◌else◌, ◌==◌, ==_iff, arith, Bool-cases, Option-cases, inl, inr,
}
use statsrelay.Listener.{System}
use statsrelay.Listener.Bind.{contains, contains-remove}
use statsrelay.TcpServer.{
  Answered, Callbacks, Session, TcpServer, Accepted, no_memory, refused, blocking, accepted, find,
  set_ctx, discard, accept_callback, tcpsession_destroy, answer_session,
}

-- No two sessions have the same descriptor.
abbrev pub AreDistinct : {C : Type 0} → List (Session C) → Type 0
AreDistinct [] = Unit {0}
AreDistinct (s ∷ rest) = (find s.sd rest ≡ none) × AreDistinct rest

-- The sessions have distinct descriptors, and each is open and watched.
pub record IsValid {S C : Type 0} (server : TcpServer S C) : Type 0 where
  pub distinct : AreDistinct server.sessions
  pub open_all :
      (sd : ℕ) (ctx : Option C)
      → find sd server.sessions ≡ some ctx
      → contains sd server.system.opened ≡ true
  pub watched_all :
      (sd : ℕ) (ctx : Option C)
      → find sd server.sessions ≡ some ctx
      → contains sd server.system.watched ≡ true

find-set_ctx_other :
    {C : Type 0}
    → (x sd : ℕ) (ctx : Option C) (ss : List (Session C)) → (x == sd) ≡ false
    → find x (set_ctx sd ctx ss) ≡ find x ss
unfolding find
find-set_ctx_other x sd ctx [] h = refl
find-set_ctx_other x sd ctx (s ∷ rest) h = ground (arith, find-set_ctx_other x sd ctx rest, h)

find-set_ctx_same :
    {C : Type 0}
    → (sd : ℕ) (ctx old : Option C) (ss : List (Session C)) → find sd ss ≡ some old
    → find sd (set_ctx sd ctx ss) ≡ some ctx
unfolding find
find-set_ctx_same sd ctx old [] h = ground (arith, h)
find-set_ctx_same sd ctx old (s ∷ rest) h = ground (arith, find-set_ctx_same sd ctx old rest, h)

pub find-set_ctx :
    {C : Type 0}
    → (x sd : ℕ) (ctx old : Option C) (ss : List (Session C)) → find sd ss ≡ some old
    → find x (set_ctx sd ctx ss) ≡ (if x == sd then some ctx else find x ss)
find-set_ctx x sd ctx old ss h =
    ground (arith, find-set_ctx_other x sd ctx ss, find-set_ctx_same sd ctx old ss h)

pub find-discard :
    {C : Type 0}
    → (x sd : ℕ) (ss : List (Session C))
    → find x (discard sd ss) ≡ (if x == sd then none else find x ss)
unfolding find
find-discard x sd [] = ground arith
find-discard x sd (s ∷ rest) = ground (arith, find-discard x sd rest)

absent-set_ctx :
    {C : Type 0}
    → (x sd : ℕ) (ctx : Option C) (ss : List (Session C)) → find x ss ≡ none
    → find x (set_ctx sd ctx ss) ≡ none
unfolding find
absent-set_ctx x sd ctx [] h = refl
absent-set_ctx x sd ctx (s ∷ rest) h = ground (arith, absent-set_ctx x sd ctx rest, h)

absent-discard :
    {C : Type 0}
    → (x sd : ℕ) (ss : List (Session C)) → find x ss ≡ none
    → find x (discard sd ss) ≡ none
absent-discard x sd ss h = ground (arith, find-discard x sd ss, h)

set_ctx-AreDistinct :
    {C : Type 0}
    → (sd : ℕ) (ctx : Option C) (ss : List (Session C)) → AreDistinct ss
    → AreDistinct (set_ctx sd ctx ss)
set_ctx-AreDistinct sd ctx [] d = d
set_ctx-AreDistinct sd ctx (s ∷ rest) d = elim (Bool-cases (s.sd == sd)) [
  | inl this ↦ rw (this) (absent-set_ctx s.sd sd ctx rest d.0, set_ctx-AreDistinct sd ctx rest d.1)
  | inr other ↦
      rw (other) (absent-set_ctx s.sd sd ctx rest d.0, set_ctx-AreDistinct sd ctx rest d.1)
]

discard-AreDistinct :
    {C : Type 0} → (sd : ℕ) (ss : List (Session C)) → AreDistinct ss → AreDistinct (discard sd ss)
discard-AreDistinct sd [] d = d
discard-AreDistinct sd (s ∷ rest) d = elim (Bool-cases (s.sd == sd)) [
  | inl this ↦ rw (this) (discard-AreDistinct sd rest d.1)
  | inr other ↦ rw (other) (absent-discard s.sd sd rest d.0, discard-AreDistinct sd rest d.1)
]

-- A new descriptor is not one of a session.
absent :
    {S C : Type 0}
    → (server : TcpServer S C) (sd : ℕ) → IsValid server
    → contains sd server.system.opened ≡ false
    → find sd server.sessions ≡ none
absent server sd v new = elim (Option-cases (find sd server.sessions)) [
  | inl none_found ↦ none_found
  | inr (ctx, found) ↦ ground (arith, v.open_all sd ctx found, new)
]

-- accept(2) returns a descriptor that is not open.
abbrev pub IsFresh : Accepted → System → Type 0
IsFresh (accepted sd) sys = contains sd sys.opened ≡ false
IsFresh answer sys = Unit {0}

pub accept_callback-IsValid :
    {S C E : Type 0}
    → (error : Bool) (listener : Callbacks S C E) (env : E) (answer : Accepted)
      (server : TcpServer S C)
    → IsFresh answer server.system
    → IsValid server
    → IsValid (accept_callback error listener env answer server)
unfolding accept_callback find
accept_callback-IsValid true listener env answer server fresh v = v
accept_callback-IsValid false listener env no_memory server fresh v = v
accept_callback-IsValid false listener env refused server fresh v = v
accept_callback-IsValid false listener env (blocking sd) server fresh v = record {
  distinct = v.distinct;
  open_all = λ x ctx h. ground (arith, v.open_all x ctx h);
  watched_all = v.watched_all;
}
accept_callback-IsValid false listener env (accepted sd) server fresh v = record {
  distinct = (absent server sd v fresh, v.distinct);
  open_all = λ x ctx h. ground (arith, v.open_all x ctx, h);
  watched_all = λ x ctx h. ground (arith, v.watched_all x ctx, h);
}

pub tcpsession_destroy-IsValid :
    {S C : Type 0}
    → (sd : ℕ) (server : TcpServer S C) → IsValid server
    → IsValid (tcpsession_destroy sd server)
unfolding tcpsession_destroy
tcpsession_destroy-IsValid sd server v = record {
  distinct = discard-AreDistinct sd server.sessions v.distinct;
  open_all = λ x ctx h. ground (
    arith,
    v.open_all x ctx,
    contains-remove x sd server.system.opened,
    find-discard x sd server.sessions,
    h,
  );
  watched_all = λ x ctx h. ground (
    arith,
    v.watched_all x ctx,
    contains-remove x sd server.system.watched,
    find-discard x sd server.sessions,
    h,
  );
}

-- A context that is set keeps each session in a list of descriptors.
still_contained :
    {C : Type 0}
    → (sd : ℕ) (ctx old : Option C) (ss : List (Session C)) (xs : List ℕ) → find sd ss ≡ some old
    → ((x : ℕ) (c : Option C) → find x ss ≡ some c → contains x xs ≡ true)
    → (x : ℕ) (c : Option C) → find x (set_ctx sd ctx ss) ≡ some c
    → contains x xs ≡ true
still_contained sd ctx old ss xs found all x c h = elim (Bool-cases (x == sd)) [
  | inl same ↦ subst (λ y. contains y xs ≡ true) (sym ((==_iff x sd).0 same)) (all sd old found)
  | inr other ↦ all x c (sym (find-set_ctx_other x sd ctx ss other) ∙ h)
]

pub answer_session-IsValid :
    {S C : Type 0}
    → (sd : ℕ) (server : TcpServer S C) (ctx : Option C) (a : Answered S C) → IsValid server
    → find sd server.sessions ≡ some ctx
    → IsValid (answer_session sd server a)
unfolding answer_session
answer_session-IsValid sd server ctx a v found = elim (Bool-cases (a.code == 0)) [
  | inl zero_code ↦ rw (zero_code) kept
  | inr other ↦ rw (other) (tcpsession_destroy-IsValid sd _ kept)
]
  where
    kept :
        IsValid (record server { sessions = set_ctx sd a.ctx server.sessions; shared = a.shared })
    kept = record {
      distinct = set_ctx-AreDistinct sd a.ctx server.sessions v.distinct;
      open_all = still_contained sd a.ctx ctx server.sessions server.system.opened found v.open_all;
      watched_all =
          still_contained sd a.ctx ctx server.sessions server.system.watched found v.watched_all;
    }
