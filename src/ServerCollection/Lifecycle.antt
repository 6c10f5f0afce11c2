-- ===== src/ServerCollection/Lifecycle.antt =====
-- From init_server_collection to destroy_server_collection.
use statsrelay.Prelude.{
  ℕ, ◌+◌, ◌≤◌, ◌≡◌, refl, ap, ◌∙◌, subst, true, false, Option, none, some, List, [], ◌++◌,
  if◌then◌else◌, arith,
}
use statsrelay.Outcome.{done, Holds, ◌>>=◌}
use statsrelay.Listener.Bind.{contains, contains-append}
use statsrelay.ServerCollection.{
  Process, ServerCollection, Connecting, init_server, Connected, connect_server, destroy_object,
  destroy_server, init_server_collection, connect_server_collection, destroy_server_collection,
}
use statsrelay.Outcome.{Holds-bind}
use statsrelay.ServerCollection.Ownership.{
  held, held_all, server_sockets, contains-held_all, contains-remove_all, remove_all, held_server,
  held_collection, held_connecting, alive, destroy_server-IsDestroyed, destroy_object-IsDestroyed,
  and_then,
}
use statsrelay.ServerCollection.Owning.{IsOwned, IsFresh, leaked, connect_server-IsOwned}

-- A collection that was connected: each object that it holds is alive, and the others are as `base` says.
pub record IsConnected (base : ℕ → ℕ) (r : Connected ServerCollection) : Type 0 where
  pub started : r.server.initialized ≡ true
  pub balanced : (x : ℕ) → alive r.process x ≡ held_collection r.server x + base x
  pub carbon_empty :
      r.server.carbon_server.enabled ≡ false → (x : ℕ) → held_server r.server.carbon_server x ≡ 0
  pub statsd_empty :
      r.server.statsd_server.enabled ≡ false → (x : ℕ) → held_server r.server.statsd_server x ≡ 0

-- The sockets of the backends of both servers.
abbrev pub collection_sockets : ServerCollection → List ℕ
collection_sockets c = server_sockets c.carbon_server ++ server_sockets c.statsd_server

-- What both calls of connect_server keep where they fail.
abbrev pub both_leaked : Connecting → Connecting → ℕ → ℕ
both_leaked carbon statsd x = held_all (leaked carbon) x + held_all (leaked statsd) x

-- A collection before it is connected.
abbrev pub initial : Option ℕ → ServerCollection
initial copy = record {
  initialized = true;
  config_file = copy;
  carbon_server = init_server;
  statsd_server = init_server;
}

pub copied :
    (copy : Option ℕ) (p : Process) (x : ℕ)
    → held copy x + alive p x ≤ 1
    → alive (init_server_collection copy p).1 x ≡ held copy x + alive p x
unfolding init_server_collection
copied none p x fresh = omega arith
copied (some object) p x fresh = ground (arith, fresh)

pub connect_server_collection-IsConnected :
    (copy : Option ℕ) (carbon statsd : Connecting) (base : ℕ → ℕ) (q : Process)
    → IsFresh (λ x. held_connecting carbon x + held_connecting statsd x) q
    → ((x : ℕ) → alive q x ≡ held copy x + base x)
    → Holds
        (IsConnected (λ x. both_leaked carbon statsd x + base x))
        (connect_server_collection carbon statsd (initial copy) q)
unfolding connect_server_collection
connect_server_collection-IsConnected copy carbon statsd base q fresh balanced =
    Holds-bind (IsOwned carbon q) _ (connect_server carbon init_server q) _
      (connect_server-IsOwned carbon q (λ x. omega (arith, fresh x)))
      (λ r o.
        Holds-bind (IsOwned statsd r.process) _ (connect_server statsd init_server r.process) _
          (connect_server-IsOwned statsd r.process
            (λ x. omega (arith, fresh x, o.balanced x, o.limited x)))
          (λ t o'. record {
            started = refl;
            balanced = λ x. omega (arith, balanced x, o.balanced x, o'.balanced x);
            carbon_empty = o.empty;
            statsd_empty = o'.empty;
          }))

-- The collection is destroyed once, with the objects and the descriptors of the time.
pub IsConnected-destroyed :
    (base : ℕ → ℕ) (r : Connected ServerCollection)
    → IsConnected base r
    → (q : Process) × (destroy_server_collection r.server r.process
        ≡ done (record r.server { initialized = false }, q))
      × ((x : ℕ) → alive q x ≡ base x)
      × (q.system.opened ≡ remove_all (collection_sockets r.server) r.process.system.opened)
unfolding destroy_server_collection
IsConnected-destroyed base r v =
    let s = r.server in
    let d =
      and_then (server_sockets s.carbon_server) (server_sockets s.statsd_server) r.process
        (destroy_object s.config_file r.process >>= destroy_server s.carbon_server)
        (destroy_server s.statsd_server)
        (and_then [] (server_sockets s.carbon_server) r.process
          (destroy_object s.config_file r.process) (destroy_server s.carbon_server)
          (destroy_object-IsDestroyed s.config_file
            (λ x. held_server s.carbon_server x + (held_server s.statsd_server x + base x))
            r.process (λ x. omega (arith, v.balanced x)))
          (λ q.
            destroy_server-IsDestroyed s.carbon_server (λ x. held_server s.statsd_server x + base x)
              q v.carbon_empty))
        (λ q. destroy_server-IsDestroyed s.statsd_server base q v.statsd_empty) in
    (d.process, rw (v.started, d.returns, destroy_server_collection) refl, d.remain, d.opened)

-- If a collection of servers is initialised and connect_server_collection returns, with or without
-- success, and malloc gives addresses that are not alive, then destroy_server_collection returns;
-- the objects that are alive are those that were before and those that a stats_server_create which
-- failed has kept; of the open descriptors those of the backends of the servers it destroys are
-- closed, and no other; and each later call of it changes nothing.
pub destroy_server_collection_lem :
    (copy : Option ℕ) (carbon statsd : Connecting) (p : Process) (r : Connected ServerCollection)
    → IsFresh (λ x. held copy x + held_connecting carbon x + held_connecting statsd x) p
    → (let (c, q) = init_server_collection copy p in connect_server_collection carbon statsd c q)
      ≡ done r
    → (q : Process) × (destroy_server_collection r.server r.process
        ≡ done (record r.server { initialized = false }, q))
      × ((x : ℕ)
          → contains x q.live
            ≡ (if contains x (leaked carbon ++ leaked statsd) then true else contains x p.live))
      × ((x : ℕ)
          → contains x q.system.opened ≡ (
              if contains x (collection_sockets r.server)
              then false
              else contains x r.process.system.opened))
      × ((later : Process)
          → destroy_server_collection (record r.server { initialized = false }) later
            ≡ done (record r.server { initialized = false }, later))
unfolding destroy_server_collection init_server_collection
destroy_server_collection_lem copy carbon statsd p r fresh connects =
    let q0 = (init_server_collection copy p).1 in
    let base : ℕ → ℕ = λ x. both_leaked carbon statsd x + alive p x in
    let v = subst (Holds (IsConnected base)) connects (
      connect_server_collection-IsConnected copy carbon statsd (alive p) q0
        (λ x. omega (arith, fresh x, copied copy p x (omega (arith, fresh x))))
        (λ x. copied copy p x (omega (arith, fresh x)))) in
    let (q, returns, remain, opened) = IsConnected-destroyed base r v in
    (
      q,
      returns,
      λ x. ground (
        arith,
        remain x,
        contains-append x (leaked carbon) (leaked statsd),
        contains-held_all x (leaked carbon),
        contains-held_all x (leaked statsd),
      ),
      λ x.
          ap (contains x) opened
          ∙ contains-remove_all x (collection_sockets r.server) r.process.system.opened,
      λ later. refl,
    )
