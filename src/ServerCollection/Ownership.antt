-- ===== src/ServerCollection/Ownership.antt =====
-- The objects that a collection of servers owns.
use statsrelay.Prelude.{
  ℕ, ◌+◌, ◌≡◌, refl, ap, sym, ◌∙◌, List, [], ◌∷◌, ◌++◌, true, false, Option, none, some,
  if◌then◌else◌, ◌==◌, arith, Bool-cases, inl, inr,
}
use statsrelay.Outcome.{Outcome, done, ◌>>=◌}
use statsrelay.Listener.{System, remove, close, unwatch, server_destroy}
use statsrelay.Listener.Bind.{contains, contains-remove, opened-unwatch_all}
use statsrelay.ServerCollection.{
  Process, Taken, Bound, RelayServer, ServerCollection, Connecting, release, release_all, close_all,
  destroy_stats, destroy_bound, destroy_object, destroy_server,
}

-- How often an object is held.
abbrev pub held : Option ℕ → ℕ → ℕ
held none x = 0
held (some object) x = if object == x then 1 else 0

abbrev pub held_all : List ℕ → ℕ → ℕ
held_all [] x = 0
held_all (object ∷ objects) x = held (some object) x + held_all objects x

abbrev pub held_taken : Option Taken → ℕ → ℕ
held_taken none x = 0
held_taken (some t) x = held_all t.objects x

abbrev pub sockets_of : Option Taken → List ℕ
sockets_of none = []
sockets_of (some t) = t.sockets

-- The sockets of the backends that destroy_server closes.
abbrev pub server_sockets : RelayServer → List ℕ
server_sockets s = if s.enabled then sockets_of s.stats else []

abbrev pub held_bound : Option Bound → ℕ → ℕ
held_bound none x = 0
held_bound (some b) x = held (some b.object) x

abbrev pub held_server : RelayServer → ℕ → ℕ
held_server s x = held_taken s.stats x + held_bound s.ts x + held_bound s.us x

abbrev pub held_collection : ServerCollection → ℕ → ℕ
held_collection c x =
    held c.config_file x + held_server c.carbon_server x + held_server c.statsd_server x

abbrev pub held_connecting : Connecting → ℕ → ℕ
held_connecting c x = held_all c.taken.objects x + held c.ts x + held c.us x

abbrev pub alive : Process → ℕ → ℕ
alive p x = if contains x p.live then 1 else 0

-- A list of descriptors without others.
abbrev pub remove_all : List ℕ → List ℕ → List ℕ
remove_all [] opened = opened
remove_all (sd ∷ sds) opened = remove_all sds (remove sd opened)

remove_all-append : (xs ys l : List ℕ) → remove_all (xs ++ ys) l ≡ remove_all ys (remove_all xs l)
remove_all-append [] ys l = refl
remove_all-append (x ∷ xs) ys l = remove_all-append xs ys (remove x l)

pub contains-remove_all :
    (x : ℕ) (sds l : List ℕ)
    → contains x (remove_all sds l) ≡ (if contains x sds then false else contains x l)
contains-remove_all x [] l = refl
contains-remove_all x (sd ∷ sds) l =
    contains-remove_all x sds (remove sd l) ∙ ground (arith, contains-remove x sd l)

pub contains-held_all :
    (x : ℕ) (objects : List ℕ)
    → contains x objects ≡ (if 0 == held_all objects x then false else true)
contains-held_all x [] = refl
contains-held_all x (object ∷ objects) = ground (arith, contains-held_all x objects)

opened-close_all :
    (sds : List ℕ) (sys : System) → (close_all sds sys).opened ≡ remove_all sds sys.opened
opened-close_all [] sys = refl
opened-close_all (sd ∷ sds) sys = opened-close_all sds (close sd (unwatch sd sys))

-- A destruction returns, leaves the objects `rest` alive, and closes the descriptors `closed`.
pub record IsDestroyed (rest : ℕ → ℕ) (closed : List ℕ) (p : Process) (o : Outcome Process)
    : Type 0 where
  pub process : Process
  pub returns : o ≡ done process
  pub remain : (x : ℕ) → alive process x ≡ rest x
  pub opened : process.system.opened ≡ remove_all closed p.system.opened

pub and_then :
    {rest rest' : ℕ → ℕ} (closed closed' : List ℕ) (p : Process) (o : Outcome Process)
    (f : Process → Outcome Process)
    → IsDestroyed rest closed p o
    → ((q : Process) → ((x : ℕ) → alive q x ≡ rest x) → IsDestroyed rest' closed' q (f q))
    → IsDestroyed rest' (closed ++ closed') p (o >>= f)
and_then closed closed' p o f d continue =
    let e = continue d.process d.remain in
    record {
      process = e.process;
      returns = rw (d.returns) e.returns;
      remain = e.remain;
      opened =
          e.opened
          ∙ ap (remove_all closed') d.opened
          ∙ sym (remove_all-append closed closed' p.system.opened);
    }

release-IsDestroyed :
    (object : ℕ) (rest : ℕ → ℕ) (p : Process)
    → ((x : ℕ) → alive p x ≡ held (some object) x + rest x)
    → IsDestroyed rest [] p (release object p)
release-IsDestroyed object rest p balanced = record {
  process = record p { live = remove object p.live };
  returns = rw (lives) refl;
  remain = λ x. ground (arith, balanced x, contains-remove x object p.live);
  opened = refl;
}
  where
    lives : contains object p.live ≡ true
    lives = ground (arith, balanced object)

pub destroy_object-IsDestroyed :
    (object : Option ℕ) (rest : ℕ → ℕ) (p : Process)
    → ((x : ℕ) → alive p x ≡ held object x + rest x)
    → IsDestroyed rest [] p (destroy_object object p)
destroy_object-IsDestroyed none rest p balanced = record {
  process = p;
  returns = refl;
  remain = λ x. omega (arith, balanced x);
  opened = refl;
}
destroy_object-IsDestroyed (some object) rest p balanced =
    release-IsDestroyed object rest p balanced

destroy_bound-IsDestroyed :
    (b : Option Bound) (rest : ℕ → ℕ) (p : Process)
    → ((x : ℕ) → alive p x ≡ held_bound b x + rest x)
    → IsDestroyed rest [] p (destroy_bound b p)
unfolding destroy_bound server_destroy
destroy_bound-IsDestroyed none rest p balanced = record {
  process = p;
  returns = refl;
  remain = λ x. omega (arith, balanced x);
  opened = refl;
}
destroy_bound-IsDestroyed (some b) rest p balanced =
    let stopped = record p {
      system = server_destroy (record { listeners = b.listeners; system = p.system });
    } in
    let d = release-IsDestroyed b.object rest stopped balanced in
    record {
      process = d.process;
      returns = d.returns;
      remain = d.remain;
      opened = d.opened ∙ opened-unwatch_all b.listeners p.system;
    }

pub release_all-IsDestroyed :
    (objects : List ℕ) (rest : ℕ → ℕ) (p : Process)
    → ((x : ℕ) → alive p x ≡ held_all objects x + rest x)
    → IsDestroyed rest [] p (release_all objects p)
unfolding release_all
release_all-IsDestroyed [] rest p balanced = record {
  process = p;
  returns = refl;
  remain = λ x. omega (arith, balanced x);
  opened = refl;
}
release_all-IsDestroyed (object ∷ objects) rest p balanced =
    and_then [] [] p (release object p) (release_all objects)
      (release-IsDestroyed object (λ x. held_all objects x + rest x) p
        (λ x. omega (arith, balanced x)))
      (λ q. release_all-IsDestroyed objects rest q)

destroy_stats-IsDestroyed :
    (stats : Option Taken) (rest : ℕ → ℕ) (p : Process)
    → ((x : ℕ) → alive p x ≡ held_taken stats x + rest x)
    → IsDestroyed rest (sockets_of stats) p (destroy_stats stats p)
unfolding destroy_stats
destroy_stats-IsDestroyed none rest p balanced = record {
  process = p;
  returns = refl;
  remain = λ x. omega (arith, balanced x);
  opened = refl;
}
destroy_stats-IsDestroyed (some t) rest p balanced =
    let d =
      release_all-IsDestroyed t.objects rest (record p { system = close_all t.sockets p.system })
        balanced in
    record {
      process = d.process;
      returns = d.returns;
      remain = d.remain;
      opened = d.opened ∙ opened-close_all t.sockets p.system;
    }

pub destroy_server-IsDestroyed :
    (s : RelayServer) (rest : ℕ → ℕ) (p : Process)
    → (s.enabled ≡ false → (x : ℕ) → held_server s x ≡ 0)
    → ((x : ℕ) → alive p x ≡ held_server s x + rest x)
    → IsDestroyed rest (server_sockets s) p (destroy_server s p)
unfolding destroy_server
destroy_server-IsDestroyed s rest p empty balanced = elim (Bool-cases s.enabled) [
  | inr disabled ↦
      rw (disabled, destroy_server)
        (record {
          process = p;
          returns = refl;
          remain = λ x. omega (arith, balanced x, empty disabled x);
          opened = refl;
        })
  | inl enabled ↦
      rw (enabled, destroy_server)
        (and_then [] (sockets_of s.stats) p (destroy_bound s.ts p >>= destroy_bound s.us)
          (destroy_stats s.stats)
          (and_then [] [] p (destroy_bound s.ts p) (destroy_bound s.us)
            (destroy_bound-IsDestroyed s.ts
              (λ x. held_bound s.us x + (held_taken s.stats x + rest x)) p
              (λ x. omega (arith, balanced x)))
            (λ q. destroy_bound-IsDestroyed s.us (λ x. held_taken s.stats x + rest x) q))
          (λ q. destroy_stats-IsDestroyed s.stats rest q))
]
