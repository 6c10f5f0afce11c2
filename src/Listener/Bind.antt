-- ===== src/Listener/Bind.antt =====
-- Which addresses a server listens on, and what it leaves behind.
use statsrelay.Prelude.{
  ℕ, ◌≤◌, ◌≡◌, ◌⊎◌, refl, ◌∙◌, sym, subst, Bool, true, false, none, some, List, [], ◌∷◌, ◌++◌,
  if◌then◌else◌, ◌==◌, leb, take, length, arith, Bool-cases, Option-cases, inl, inr, append_assoc,
  append-nil, length-append, take_of_length_le, take-append_of_le, leb→le, leb→lt,
}
use statsrelay.Outcome.{Outcome, done}
use statsrelay.Listener.{
  System, remove, watch, unwatch, open_descriptor, Answer, Ready, listener_create, Listeners,
  max_handlers, bind_addresses, unwatch_all, server_destroy,
}

abbrev pub contains : ℕ → List ℕ → Bool
contains sd [] = false
contains sd (x ∷ xs) = let rest = contains sd xs in if x == sd then true else rest

-- Every call of malloc for a listener has memory.
abbrev pub HasMemory : List Answer → Type 0
HasMemory [] = Unit {0}
HasMemory (a ∷ rest) = (a.memory ≡ true) × (a.watcher ≡ true) × HasMemory rest

-- The descriptors of the addresses for which each call succeeds.
abbrev pub served : Ready → List Answer → List ℕ
served ready [] = []
served ready (a ∷ rest) = elim a.socket [
  | none ↦ served ready rest
  | some sd ↦
      if a.printable
      then (if ready a then sd ∷ served ready rest else served ready rest)
      else served ready rest
]

-- At most `max_handlers` listeners, each with a socket that is open and watched.
pub record IsServing (server : Listeners) : Type 0 where
  pub bounded : length server.listeners ≤ max_handlers
  pub open_all :
      (sd : ℕ) → contains sd server.listeners ≡ true → contains sd server.system.opened ≡ true
  pub watched_all :
      (sd : ℕ) → contains sd server.listeners ≡ true → contains sd server.system.watched ≡ true

-- What the loop over the addresses leaves.
pub record IsBound (sds : List ℕ) (result : Outcome (ℕ × Listeners)) : Type 0 where
  pub code : ℕ
  pub server : Listeners
  pub returns : result ≡ done (code, server)
  pub serving : IsServing server
  pub bound : server.listeners ≡ take max_handlers sds
  pub verdict : (code ≡ 0) ⊎ ((code ≡ 1) × (length server.listeners ≡ max_handlers))

pub contains-append :
    (sd : ℕ) (xs ys : List ℕ)
    → contains sd (xs ++ ys) ≡ (if contains sd xs then true else contains sd ys)
contains-append sd [] ys = refl
contains-append sd (x ∷ xs) ys = ground (arith, contains-append sd xs ys)

-- A listener that was created joins the others.
joined :
    (server : Listeners) (sd : ℕ)
    → IsServing server
    → leb max_handlers (length server.listeners) ≡ false
    → IsServing (record {
      listeners = server.listeners ++ sd ∷ [];
      system = watch sd (open_descriptor sd server.system);
    })
joined server sd v room = record {
  bounded = omega (arith, leb→lt _ _ room, length-append server.listeners (sd ∷ []));
  open_all = λ x h. ground (arith, v.open_all x, contains-append x server.listeners (sd ∷ []), h);
  watched_all =
      λ x h. ground (arith, v.watched_all x, contains-append x server.listeners (sd ∷ []), h);
}

-- A socket that was opened in vain.
leaked :
    (server : Listeners) (sd : ℕ)
    → IsServing server
    → IsServing (record server { system = open_descriptor sd server.system })
leaked server sd v = record {
  bounded = v.bounded;
  open_all = λ x h. ground (arith, v.open_all x h);
  watched_all = v.watched_all;
}

-- The loop at a full array.
full_array :
    (xs ys : List ℕ)
    → length xs ≤ max_handlers
    → leb max_handlers (length xs) ≡ true
    → xs ≡ take max_handlers (xs ++ ys)
full_array xs ys small full = sym (
    take-append_of_le max_handlers xs ys (leb→le _ _ full)
    ∙ take_of_length_le max_handlers xs small)

-- The loop of tcpserver_bind and udpserver_bind over the addresses, from a server with at most 32
-- listeners that are open and watched, where malloc has memory, returns 0, or 1 with 32 listeners;
-- the listeners are the first 32 of the old ones followed by those of the addresses for which each
-- call succeeds, and each is open and watched.
pub bind_addresses-IsBound :
    (ready : Ready) (addresses : List Answer) (server : Listeners)
    → IsServing server
    → HasMemory addresses
    → IsBound (server.listeners ++ served ready addresses) (bind_addresses ready addresses server)
unfolding bind_addresses
bind_addresses-IsBound ready [] server v m = record {
  code = 0;
  server = server;
  returns = refl;
  serving = v;
  bound = sym (
      take_of_length_le max_handlers (server.listeners ++ []) (rw append-nil v.bounded)
      ∙ append-nil server.listeners);
  verdict = inl refl;
}
bind_addresses-IsBound ready (a ∷ rest) server v m =
    elim (Bool-cases (leb max_handlers (length server.listeners))) [
      | inl full ↦ record {
        code = 1;
        server = server;
        returns = rw (full, bind_addresses) refl;
        serving = v;
        bound = full_array server.listeners (served ready (a ∷ rest)) v.bounded full;
        verdict = inr (refl, omega (arith, v.bounded, leb→le _ _ full));
      }
      | inr room ↦ elim (Option-cases a.socket) [
        | inl no_socket ↦
            rw (room, no_socket, m.0, bind_addresses, listener_create)
              (bind_addresses-IsBound ready rest server v m.2)
        | inr (sd, opens) ↦ elim (Bool-cases a.printable) [
          | inr unprintable ↦
              rw (room, opens, unprintable, m.0, bind_addresses, listener_create)
                (bind_addresses-IsBound ready rest
                  (record server { system = open_descriptor sd server.system }) (leaked server sd v)
                  m.2)
          | inl printable ↦ elim (Bool-cases (ready a)) [
            | inr unready ↦
                rw (room, opens, unready, printable, m.0, bind_addresses, listener_create)
                  (bind_addresses-IsBound ready rest
                    (record server { system = open_descriptor sd server.system })
                    (leaked server sd v) m.2)
            | inl is_ready ↦
                rw (room, opens, is_ready, printable, m.0, m.1, bind_addresses, listener_create)
                  (subst
                    (λ sds. IsBound sds (
                      bind_addresses ready rest (record {
                        listeners = server.listeners ++ sd ∷ [];
                        system = watch sd (open_descriptor sd server.system);
                      })))
                    (append_assoc server.listeners (sd ∷ []) (served ready rest))
                    (bind_addresses-IsBound ready rest
                      (record {
                        listeners = server.listeners ++ sd ∷ [];
                        system = watch sd (open_descriptor sd server.system);
                      })
                      (joined server sd v room) m.2))
          ]
        ]
      ]
    ]

pub contains-remove :
    (sd x : ℕ) (xs : List ℕ)
    → contains sd (remove x xs) ≡ (if sd == x then false else contains sd xs)
contains-remove sd x [] = ground arith
contains-remove sd x (y ∷ ys) = ground (arith, contains-remove sd x ys)

pub opened-unwatch_all : (sds : List ℕ) (sys : System) → (unwatch_all sds sys).opened ≡ sys.opened
opened-unwatch_all [] sys = refl
opened-unwatch_all (x ∷ xs) sys = opened-unwatch_all xs (unwatch x sys)

watched-unwatch_all :
    (sd : ℕ) (sds : List ℕ) (sys : System)
    → contains sd (unwatch_all sds sys).watched
      ≡ (if contains sd sds then false else contains sd sys.watched)
watched-unwatch_all sd [] sys = refl
watched-unwatch_all sd (x ∷ xs) sys =
    watched-unwatch_all sd xs (unwatch x sys) ∙ ground (arith, contains-remove sd x sys.watched)

-- tcpserver_destroy and udpserver_destroy of a server with listeners that are open and watched
-- leave the descriptor of each listener open, and not watched.
server_destroy_leaks :
    (server : Listeners)
    → IsServing server
    → (sd : ℕ) → contains sd server.listeners ≡ true
    → (contains sd (server_destroy server).opened ≡ true)
      × (contains sd (server_destroy server).watched ≡ false)
unfolding server_destroy
server_destroy_leaks server v sd listens = (
  rw (opened-unwatch_all server.listeners server.system) (v.open_all sd listens),
  rw (watched-unwatch_all sd server.listeners server.system, listens) refl,
)
