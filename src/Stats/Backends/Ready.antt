-- ===== src/Stats/Backends/Ready.antt =====
-- make_backend keeps a server whose backends are open and listed.
use statsrelay.Prelude.{
  ℕ, zero, suc, ◌≤◌, ◌<◌, ◌≡◌, refl, subst, ap, ap₂, ◌∙◌, sym, Option, some, List, [], ◌∷◌, ◌++◌,
  if◌then◌else◌, ◌==◌, length, get_elem?, arith, Bool-cases, Option-cases, inl, inr,
  get_elem?-append_left, get_elem?-append_right, length-append, lt_of_get_elem?,
}
use native.Mathlib.Decide.{dec_lt}
use statsrelay.Bytes.{same_bytes}
use statsrelay.Buffer.{Buffer, initial_buffer_size}
use statsrelay.Buffer.Invariant.{IsMalloc, IsValid}
use statsrelay.Ring.{Pointer}
use statsrelay.Client.{Client}
use statsrelay.Client.Action.{IsOpen}
use statsrelay.Client.Connect.{Network, connect}
use statsrelay.Client.Setup
use statsrelay.Client.Setup.{tcpclient_init, tcpclient_init-IsReady}
use statsrelay.Stats.{Backend, Server}
use statsrelay.Stats.Backends.{
  Making, Address, parse_address, find_backend, new_backend, connect_backend, make_backend,
}
use statsrelay.Stats.Backends.Growing.{AreLive, AreLive-mono, AreLive-append}

-- The backends that were made so far are open, and the list has only them.
pub record IsStocked (server : Server) : Type 0 where
  pub opened : (q : Pointer) (b : Backend) → get_elem? server.heap q ≡ some b → IsOpen b.client
  pub listed : AreLive (length server.heap) server.backend_list

-- malloc keeps its contract, and has memory for the first block of a send queue.
abbrev pub IsGenerous : Making → Type 0
IsGenerous env =
    IsMalloc env.malloc × ((block : List ℕ) × (env.malloc initial_buffer_size ≡ some block))

-- What a step in the making of backends leaves: `p` is one of them.
pub record IsMade (server : Server) (p : Pointer) (server' : Server) : Type 0 where
  pub stocked : IsStocked server'
  pub live : p < length server'.heap
  pub grown : length server.heap ≤ length server'.heap
  pub same_parser : server'.parser ≡ server.parser

pub some_inj {ℓ} : {A : Type ℓ} {a b : A} → some a ≡ some b → a ≡ b
some_inj e = cc

pub both_same :
    {A S : Type 0} {a b : A} {x y : S}
    → ◌≡◌ {A = Option A × S} (some a, x) (some b, y)
    → ◌≡◌ {A = A × S} (a, x) (b, y)
both_same e = ap₂ (λ k l. (k, l)) (some_inj (ap (λ r. r.0) e)) (ap (λ r. r.1) e)

pub AreLive-get :
    (n : ℕ) (ps : List Pointer) (i : ℕ) (p : Pointer)
    → AreLive n ps
    → get_elem? ps i ≡ some p
    → p < n
AreLive-get n [] i p live found = absurd (cc found)
AreLive-get n (q ∷ ps) zero p live found = subst (λ k. k < n) (some_inj found) live.0
AreLive-get n (q ∷ ps) (suc i) p live found = AreLive-get n ps i p live.1 found

find_backend-live :
    (heap : List Backend) (n : ℕ) (ps : List Pointer) (key : List ℕ) (p : Pointer)
    → AreLive n ps
    → find_backend heap ps key ≡ some p
    → p < n
unfolding find_backend
find_backend-live heap n [] key p live found = absurd (cc found)
find_backend-live heap n (q ∷ ps) key p live found = elim (Option-cases (get_elem? heap q)) [
  | inl dead ↦ find_backend-live heap n ps key p live.1 (rw (dead, find_backend) at found)
  | inr (b, here) ↦ elim (Bool-cases (same_bytes b.key key)) [
    | inl same ↦ subst (λ k. k < n) (some_inj (rw (here, same, find_backend) at found)) live.0
    | inr other ↦ find_backend-live heap n ps key p live.1 (rw (here, other, find_backend) at found)
  ]
]

queue-connect : (net : Network) (c : Client) → (connect net c).2.send_queue ≡ c.send_queue
unfolding connect
queue-connect net c = ground arith

-- A backend more at the end of the heap.
pushed :
    (server : Server) (client : Client) (key : List ℕ) (ps : List Pointer)
    → IsStocked server
    → IsOpen client
    → AreLive (suc (length server.heap)) ps
    → IsMade server
        (length server.heap)
        (record server { heap = server.heap ++ new_backend client key ∷ []; backend_list = ps })
pushed server client key ps s o live =
    let b = new_backend client key in
    let count : length (server.heap ++ b ∷ []) ≡ suc (length server.heap) =
      omega (arith, length-append server.heap (b ∷ [])) in
    record {
      stocked = record {
        opened = λ q c found. elim (dec_lt q (length server.heap)) [
          | yes old ↦ s.opened q c (sym (get_elem?-append_left server.heap (b ∷ []) q old) ∙ found)
          | no fresh ↦
              let inside = lt_of_get_elem? (server.heap ++ b ∷ []) q found in
              subst (λ (d : Backend). IsOpen d.client)
                (some_inj (
                  sym (
                    get_elem?-append_right server.heap (b ∷ []) q 0
                      (omega (arith, fresh, inside, count)))
                  ∙ found))
                o
        ];
        listed = subst (λ n. AreLive n ps) (sym count) live;
      };
      live = omega (arith, count);
      grown = omega (arith, count);
      same_parser = refl;
    }

IsOpen-connect : (net : Network) (c : Client) → IsOpen c → IsOpen (connect net c).2
IsOpen-connect net c o =
    let same = sym (queue-connect net c) in
    record {
      valid = subst (λ q. IsValid q) same o.valid;
      sized = subst (λ (q : Buffer). 0 < q.size) same o.sized;
    }

connect_backend-IsMade :
    (env : Making) (address : Address) (server server' : Server) (p : Pointer)
    → IsGenerous env
    → IsStocked server
    → connect_backend env address server ≡ (some p, server')
    → IsMade server p server'
unfolding connect_backend
connect_backend-IsMade env address server server' p (m, (block, got)) s e =
    elim (Bool-cases env.memory) [
      | inr none_left ↦ absurd (cc (rw (none_left, connect_backend) at e))
      | inl memory ↦ elim (Bool-cases (set_up.0 == 0)) [
        | inr failed ↦ absurd (cc (rw (memory, failed, connect_backend) at e))
        | inl ready ↦ elim (Bool-cases ((connect env.net set_up.1).0 == 0)) [
          | inr refused ↦ absurd (cc (rw (memory, ready, refused, connect_backend) at e))
          | inl connecting ↦
              subst (λ (r : Pointer × Server). IsMade server r.0 r.1)
                (both_same (rw (memory, ready, connecting, connect_backend) at e))
                (pushed server (connect env.net set_up.1).2 address.full_key listed s
                  (IsOpen-connect env.net set_up.1 (is_ready (ground (arith, ready))).opened) live)
        ]
      ]
    ]
  where
    set_up : ℕ × Client
    set_up =
        tcpclient_init env.malloc env.copies server.config (some address.host) (some address.port)
          (some address.protocol) env.raw

    is_ready : set_up.0 ≡ 0 → Setup.IsReady set_up.1
    is_ready zero_code =
        tcpclient_init-IsReady env.copies server.config (some address.host) (some address.port)
          (some address.protocol) env.raw block m got zero_code

    listed : List Pointer
    listed =
        if env.longer_list
        then server.backend_list ++ length server.heap ∷ []
        else server.backend_list

    older : AreLive (suc (length server.heap)) server.backend_list
    older =
        AreLive-mono (length server.heap) (suc (length server.heap)) server.backend_list
          (omega arith) s.listed

    live : AreLive (suc (length server.heap)) listed
    live = elim (Bool-cases env.longer_list) [
      | inl longer ↦ rw longer (
          AreLive-append (suc (length server.heap)) server.backend_list (length server.heap) older
            (omega arith))
      | inr short ↦ rw short older
    ]

pub make_backend-IsMade :
    (env : Making) (line : List ℕ) (server server' : Server) (p : Pointer)
    → IsGenerous env
    → IsStocked server
    → make_backend env line server ≡ (some p, server')
    → IsMade server p server'
unfolding make_backend
make_backend-IsMade env line server server' p g s e = elim (Option-cases (parse_address line)) [
  | inl bad ↦ absurd (cc (rw (bad, make_backend) at e))
  | inr (address, parsed) ↦ elim (Bool-cases env.strings) [
    | inr none_left ↦ absurd (cc (rw (parsed, none_left, make_backend) at e))
    | inl copied ↦
        elim (Option-cases (find_backend server.heap server.backend_list address.full_key)) [
          | inr (q, found) ↦
              subst (λ (r : Pointer × Server). IsMade server r.0 r.1)
                (both_same (rw (parsed, copied, found, make_backend) at e))
                (record {
                  stocked = s;
                  live =
                      find_backend-live server.heap (length server.heap) server.backend_list
                        address.full_key q s.listed found;
                  grown = omega arith;
                  same_parser = refl;
                })
          | inl missing ↦
              connect_backend-IsMade env address server server' p g s
                (rw (parsed, copied, missing, make_backend) at e)
        ]
  ]
]
