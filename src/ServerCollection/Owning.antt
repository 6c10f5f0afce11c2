-- ===== src/ServerCollection/Owning.antt =====
-- What connect_server leaves of the objects.
use statsrelay.Prelude.{
  ℕ, ◌+◌, ◌≤◌, ◌≡◌, refl, ap, ◌∙◌, subst, Bool, true, false, Option, none, some, List, [], ◌++◌,
  if◌then◌else◌, ◌==◌, arith, Bool-cases, Option-cases, inl, inr,
}
use statsrelay.Outcome.{Outcome, done, undefined, Holds, ◌>>=◌}
use statsrelay.Listener.{Listeners, Resolve, ServerBind, tcpserver_bind, udpserver_bind}
use statsrelay.Listener.Bind.{contains, contains-append}
use statsrelay.ServerCollection.{
  Process, Taken, take_all, Bound, RelayServer, Connecting, init_server, allocate, create,
  bind_server, Connected, bind_servers, connect_server,
}
use statsrelay.Outcome.{Holds-bind, Holds-map}
use statsrelay.ServerCollection.Ownership.{
  held, held_all, held_taken, held_server, held_connecting, alive, contains-held_all,
}

-- A bind keeps the objects.
bind_server-live :
    (bind : ServerBind) (copied : Bool) (resolve : Resolve) (address : Option (List ℕ)) (b : Bound)
    (p : Process)
    → Holds
        (λ r. (r.1.object ≡ b.object) × (r.2.live ≡ p.live))
        (bind_server bind copied resolve address b p)
unfolding bind_server
bind_server-live bind copied resolve none b p = tt
bind_server-live bind copied resolve (some address) b p =
    finished (bind copied resolve address (record { listeners = b.listeners; system = p.system }))
  where
    finished :
        (o : Outcome (ℕ × Listeners))
        → Holds
            (λ (r : ℕ × Bound × Process). (r.1.object ≡ b.object) × (r.2.live ≡ p.live))
            (o >>= λ r.
              done (r.0, record b { listeners = r.1.listeners }, record p { system = r.1.system }))
    finished (done r) = (refl, refl)
    finished undefined = tt

-- What the binds leave of a server that was made.
record IsBound (s : RelayServer) (ts us : Bound) (p : Process) (r : Connected RelayServer)
    : Type 0 where
  enabled : r.server.enabled ≡ s.enabled
  holds :
      (x : ℕ)
      → held_server r.server x
        ≡ held_taken s.stats x + held (some ts.object) x + held (some us.object) x
  live : r.process.live ≡ p.live

bind_servers-IsBound :
    (c : Connecting) (s : RelayServer) (ts us : Bound) (p : Process)
    → Holds (IsBound s ts us p) (bind_servers c s ts us p)
unfolding bind_servers
bind_servers-IsBound c s ts us p =
    Holds-bind (λ t. (t.1.object ≡ ts.object) × (t.2.live ≡ p.live)) (IsBound s ts us p)
      (bind_server tcpserver_bind c.tcp_copied c.tcp_resolve c.bind ts p) _
      (bind_server-live tcpserver_bind c.tcp_copied c.tcp_resolve c.bind ts p)
      (λ t h. elim (Bool-cases (t.0 == 0)) [
        | inr failed ↦
            rw (failed, bind_servers)
              (record { enabled = refl; holds = λ x. rw (h.0) refl; live = h.1 })
        | inl success ↦
            rw (success, bind_servers)
              (Holds-bind (λ u. (u.1.object ≡ us.object) × (u.2.live ≡ t.2.live))
                (IsBound s ts us p)
                (bind_server udpserver_bind c.udp_copied c.udp_resolve c.bind us t.2) _
                (bind_server-live udpserver_bind c.udp_copied c.udp_resolve c.bind us t.2)
                (λ u k. record {
                  enabled = refl;
                  holds = λ x. rw (h.0, k.0) refl;
                  live = k.1 ∙ h.1;
                }))
      ])

-- What stats_server_create keeps where it fails.
abbrev pub leaked : Connecting → List ℕ
leaked c = if c.backends == 0 then [] else (if c.created then [] else c.taken.objects)

-- A server that connect_server was called for, once.
pub record IsOwned (c : Connecting) (p : Process) (r : Connected RelayServer) : Type 0 where
  pub balanced :
      (x : ℕ) → alive r.process x ≡ held_server r.server x + held_all (leaked c) x + alive p x
  pub limited : (x : ℕ) → held_server r.server x + held_all (leaked c) x ≤ held_connecting c x
  pub empty : r.server.enabled ≡ false → (x : ℕ) → held_server r.server x ≡ 0

-- malloc gives an address that is not alive.
abbrev pub IsFresh : (ℕ → ℕ) → Process → Type 0
IsFresh objects p = (x : ℕ) → objects x + alive p x ≤ 1

pub alive-append :
    (objects : List ℕ) (x : ℕ) (p q : Process)
    → q.live ≡ objects ++ p.live
    → held_all objects x + alive p x ≤ 1
    → alive q x ≡ held_all objects x + alive p x
alive-append objects x p q e fresh =
    ap (λ l. if contains x l then 1 else 0) e
    ∙ ground (arith, contains-append x objects p.live, contains-held_all x objects, fresh)

-- The objects of a server, and those that were alive.
alive_three :
    (t : Taken) (ts us x : ℕ) (p : Process)
    → held_all t.objects x + held (some ts) x + held (some us) x + alive p x ≤ 1
    → alive (allocate us (allocate ts (take_all t p))) x
      ≡ held_all t.objects x + held (some ts) x + held (some us) x + alive p x
alive_three t ts us x p fresh =
    ground (arith, fresh, alive-append t.objects x p (take_all t p) refl (omega (arith, fresh)))

pub connect_server-IsOwned :
    (c : Connecting) (p : Process)
    → IsFresh (held_connecting c) p
    → Holds (IsOwned c p) (connect_server c init_server p)
unfolding connect_server create
connect_server-IsOwned c p fresh = elim (Bool-cases (c.backends == 0)) [
  | inl no_backends ↦
      rw (no_backends, connect_server)
        (record {
          balanced = λ x. rw no_backends (omega arith);
          limited = λ x. rw no_backends (omega arith);
          empty = λ h x. refl;
        })
  | inr backends ↦ elim (Bool-cases c.created) [
    | inr failed ↦
        rw (backends, failed, connect_server)
          (record {
            balanced = λ x. rw backends (
                omega (
                  arith,
                  alive-append c.taken.objects x p (take_all c.taken p) refl
                      (omega (arith, fresh x)),
                ));
            limited = λ x. rw backends (omega arith);
            empty = λ h x. refl;
          })
    | inl created ↦ elim (Option-cases c.ts) [
      | inl no_ts ↦ rw (backends, created, no_ts, connect_server) tt
      | inr (ts, has_ts) ↦ elim (Option-cases c.us) [
        | inl no_us ↦ rw (backends, created, has_ts, no_us, connect_server) tt
        | inr (us, has_us) ↦
            let s = record init_server { stats = some c.taken; enabled = true } in
            let p3 = allocate us (allocate ts (take_all c.taken p)) in
            let ts_made : Bound = record { object = ts; listeners = [] } in
            let us_made : Bound = record { object = us; listeners = [] } in
            let three : (x : ℕ)
                → held_all c.taken.objects x + held (some ts) x + held (some us) x + alive p x ≤ 1 =
              λ x.
                subst
                  (λ o. held_all c.taken.objects x + held (some ts) x + held o x + alive p x ≤ 1)
                  has_us
                  (subst (λ o. held_all c.taken.objects x + held o x + held c.us x + alive p x ≤ 1)
                    has_ts (fresh x)) in
            rw (backends, created, has_ts, has_us, connect_server)
              (Holds-map (IsBound s ts_made us_made p3) _ (bind_servers c s ts_made us_made p3)
                (bind_servers-IsBound c s ts_made us_made p3)
                (λ r b. record {
                  balanced = λ x. rw backends (
                      ap (λ l. if contains x l then 1 else 0) b.live
                      ∙ alive_three c.taken ts us x p (three x)
                      ∙ omega (arith, b.holds x));
                  limited = λ x. rw backends (omega (arith, b.holds x));
                  empty = λ h x. ground (arith, b.enabled, h);
                }))
      ]
    ]
  ]
]
