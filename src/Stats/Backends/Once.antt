-- ===== src/Stats/Backends/Once.antt =====
-- The backend that lines of a configuration share.
use statsrelay.Prelude.{
  ℕ, ◌≡◌, refl, subst, ap, ◌∙◌, true, Option, none, some, List, [], ◌∷◌, ◌++◌, ◌==◌, length,
  get_elem?, arith, Bool-cases, Option-cases, inl, inr, get_elem?-append_right,
}
use statsrelay.Bytes.{same_bytes}
use statsrelay.Bytes.Search.{same_bytes_iff}
use statsrelay.Ring.{Pointer}
use statsrelay.Client.{Client}
use statsrelay.Client.Connect.{connect}
use statsrelay.Client.Setup.{tcpclient_init}
use statsrelay.Stats.{Backend, Server}
use statsrelay.Stats.Backends.Naming.{HasKey, NamesSame, NamesSame-HasKey}
use statsrelay.Stats.Backends.{
  Making, Address, parse_address, find_backend, new_backend, connect_backend, make_backend,
}
use statsrelay.Stats.Backends.Growing.{
  AreLive, find_backend-append_heap, make_backend-Grows, make_backends, make_backends-Grows,
}

-- A search that fails goes on with the pointers behind.
find_backend-append :
    (heap : List Backend) (ps qs : List Pointer) (key : List ℕ)
    → find_backend heap ps key ≡ none
    → find_backend heap (ps ++ qs) key ≡ find_backend heap qs key
unfolding find_backend
find_backend-append heap [] qs key missing = refl
find_backend-append heap (p ∷ ps) qs key missing = elim (Option-cases (get_elem? heap p)) [
  | inl dead ↦
      rw (dead, find_backend)
        (find_backend-append heap ps qs key (rw (dead, find_backend) at missing))
  | inr (b, live) ↦ elim (Bool-cases (same_bytes b.key key)) [
    | inl same ↦ absurd (cc (rw (live, same, find_backend) at missing))
    | inr other ↦
        rw (live, other, find_backend)
          (find_backend-append heap ps qs key (rw (live, other, find_backend) at missing))
  ]
]

find_backend-new :
    (heap : List Backend) (ps : List Pointer) (client : Client) (key : List ℕ)
    → AreLive (length heap) ps
    → find_backend heap ps key ≡ none
    → find_backend (heap ++ new_backend client key ∷ []) (ps ++ length heap ∷ []) key
      ≡ some (length heap)
find_backend-new heap ps client key live missing =
    find_backend-append (heap ++ new_backend client key ∷ []) ps (length heap ∷ []) key
      (find_backend-append_heap heap (new_backend client key ∷ []) ps key live ∙ missing)
    ∙ unfold find_backend in
      rw
        (
          find_backend,
          get_elem?-append_right heap (new_backend client key ∷ []) (length heap) 0 (omega arith),
          (same_bytes_iff key key).1 refl,
        )
        refl

-- What a connection that succeeds leaves: the backend is found by its key.
connect_backend-found :
    (env : Making) (address : Address) (server server' : Server) (p : Pointer)
    → AreLive (length server.heap) server.backend_list
    → env.longer_list ≡ true
    → find_backend server.heap server.backend_list address.full_key ≡ none
    → connect_backend env address server ≡ (some p, server')
    → find_backend server'.heap server'.backend_list address.full_key ≡ some p
unfolding connect_backend
connect_backend-found env address server server' p live longer missing e =
    elim (Bool-cases env.memory) [
      | inr none_left ↦ absurd (cc (rw (none_left, connect_backend) at e))
      | inl memory ↦ elim (Bool-cases (set_up.0 == 0)) [
        | inr failed ↦ absurd (cc (rw (memory, failed, connect_backend) at e))
        | inl ready ↦ elim (Bool-cases ((connect env.net set_up.1).0 == 0)) [
          | inr refused ↦ absurd (cc (rw (memory, ready, refused, connect_backend) at e))
          | inl connecting ↦
              subst
                (λ (r : Option Pointer × Server).
                  find_backend r.1.heap r.1.backend_list address.full_key ≡ r.0)
                (rw (memory, ready, connecting, longer, connect_backend) at e)
                (find_backend-new server.heap server.backend_list (connect env.net set_up.1).2
                  address.full_key live missing)
        ]
      ]
    ]
  where
    set_up : ℕ × Client
    set_up =
        tcpclient_init env.malloc env.copies server.config (some address.host) (some address.port)
          (some address.protocol) env.raw

-- The backend that make_backend gives is found by the key of its line.
make_backend-found :
    (env : Making) (line : List ℕ) (s s' : Server) (p : Pointer)
    → AreLive (length s.heap) s.backend_list
    → env.longer_list ≡ true
    → make_backend env line s ≡ (some p, s')
    → (a : Address) × (parse_address line ≡ some a)
      × (find_backend s'.heap s'.backend_list a.full_key ≡ some p)
unfolding make_backend
make_backend-found env line s s' p live longer e = elim (Option-cases (parse_address line)) [
  | inl bad ↦ absurd (cc (rw (bad, make_backend) at e))
  | inr (address, parsed) ↦ elim (Bool-cases env.strings) [
    | inr none_left ↦ absurd (cc (rw (parsed, none_left, make_backend) at e))
    | inl copied ↦ elim (Option-cases (find_backend s.heap s.backend_list address.full_key)) [
      | inr (q, found) ↦ (
        address,
        parsed,
        subst
            (λ (r : Option Pointer × Server).
              find_backend r.1.heap r.1.backend_list address.full_key ≡ r.0)
            (rw (parsed, copied, found, make_backend) at e) found,
      )
      | inl missing ↦ (
        address,
        parsed,
        connect_backend-found env address s s' p live longer missing
            (rw (parsed, copied, missing, make_backend) at e),
      )
    ]
  ]
]

make_backend_shared :
    (later : Making) (line key : List ℕ) (s : Server) (p : Pointer)
    → later.strings ≡ true
    → HasKey line key
    → find_backend s.heap s.backend_list key ≡ some p
    → make_backend later line s ≡ (some p, s)
unfolding make_backend
make_backend_shared later line key s p strings (a, parsed, same) found =
    let found' = ap (find_backend s.heap s.backend_list) same ∙ found in
    rw (parsed, strings, found', make_backend) refl

-- If every pointer in the server's backend list is live, and make_backend of a line has given a
-- backend and could lengthen that list, then, after make_backend was called for any other lines,
-- with or without success, make_backend of a line that names the same gives the same backend and
-- changes nothing, where its strings can be allocated. A line names the same as itself, and
-- `host:port`, with no other colon, names the same as `host:port:tcp`.
pub make_backend_again :
    (env later : Making) (line other : List ℕ) (between : List (Making × List ℕ))
    (server server' : Server) (p : Pointer)
    → AreLive (length server.heap) server.backend_list
    → env.longer_list ≡ true
    → later.strings ≡ true
    → NamesSame line other
    → make_backend env line server ≡ (some p, server')
    → make_backend later other (make_backends between server')
      ≡ (some p, make_backends between server')
make_backend_again env later line other between server server' p live longer strings names e =
    let (a, parsed, found) = make_backend-found env line server server' p live longer e in
    let live' =
      subst (λ (r : Option Pointer × Server). AreLive (length r.1.heap) r.1.backend_list) e
        (make_backend-Grows env line server live).live in
    make_backend_shared later other a.full_key (make_backends between server') p strings
      (NamesSame-HasKey line other a names parsed)
      ((make_backends-Grows between server' live').kept a.full_key p found)
