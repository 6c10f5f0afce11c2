-- ===== src/Stats/Backends/Growing.antt =====
-- make_backend leaves the backends that a server has, and adds one at most.
use statsrelay.Prelude.{
  ℕ, suc, Bool, length-append, ◌≤◌, ◌<◌, ◌≡◌, refl, ap, ◌∙◌, some, List, [], ◌∷◌, ◌++◌,
  if◌then◌else◌, ◌==◌, length, get_elem?, arith, Bool-cases, Option-cases, inl, inr,
  get_elem?-append_left,
}
use statsrelay.Bytes.{same_bytes}
use statsrelay.Ring.{Pointer}
use statsrelay.Client.{Client}
use statsrelay.Client.Connect.{connect}
use statsrelay.Client.Setup.{tcpclient_init}
use statsrelay.Stats.{Backend, Server}
use statsrelay.Stats.Backends.{
  Making, Address, parse_address, find_backend, new_backend, connect_backend, make_backend,
}

-- Every pointer of the list has its backend in the heap.
abbrev pub AreLive : ℕ → List Pointer → Type 0
AreLive n [] = Unit {0}
AreLive n (p ∷ ps) = (p < n) × AreLive n ps

pub AreLive-mono : (n m : ℕ) (ps : List Pointer) → n ≤ m → AreLive n ps → AreLive m ps
AreLive-mono n m [] h live = tt
AreLive-mono n m (p ∷ ps) h live = (omega (arith, live.0), AreLive-mono n m ps h live.1)

pub AreLive-append :
    (n : ℕ) (ps : List Pointer) (p : Pointer) → AreLive n ps → p < n → AreLive n (ps ++ p ∷ [])
AreLive-append n [] p live h = (h, tt)
AreLive-append n (q ∷ ps) p live h = (live.0, AreLive-append n ps p live.1 h)

-- A backend that is new in the heap is not found for a pointer that was live before.
pub find_backend-append_heap :
    (heap more : List Backend) (ps : List Pointer) (key : List ℕ)
    → AreLive (length heap) ps
    → find_backend (heap ++ more) ps key ≡ find_backend heap ps key
unfolding find_backend
find_backend-append_heap heap more [] key live = refl
find_backend-append_heap heap more (p ∷ ps) key live =
    let old = get_elem?-append_left heap more p live.0 in
    let rest = find_backend-append_heap heap more ps key live.1 in
    elim (Option-cases (get_elem? heap p)) [
      | inl dead ↦ rw (old, dead, find_backend) rest
      | inr (b, found) ↦
          rw (old, found, find_backend) (ap (λ l. if same_bytes b.key key then some p else l) rest)
    ]

-- A backend that is found stays found with more pointers behind.
find_backend-found :
    (heap : List Backend) (ps qs : List Pointer) (key : List ℕ) (p : Pointer)
    → find_backend heap ps key ≡ some p
    → find_backend heap (ps ++ qs) key ≡ some p
unfolding find_backend
find_backend-found heap [] qs key p found = absurd (cc found)
find_backend-found heap (q ∷ ps) qs key p found = elim (Option-cases (get_elem? heap q)) [
  | inl dead ↦
      rw (dead, find_backend)
        (find_backend-found heap ps qs key p (rw (dead, find_backend) at found))
  | inr (b, live) ↦ elim (Bool-cases (same_bytes b.key key)) [
    | inl same ↦ rw (live, same, find_backend) (rw (live, same, find_backend) at found)
    | inr other ↦
        rw (live, other, find_backend)
          (find_backend-found heap ps qs key p (rw (live, other, find_backend) at found))
  ]
]

-- The backends of a server are still found in a later one.
pub record Grows (s s' : Server) : Type 0 where
  pub live : AreLive (length s'.heap) s'.backend_list
  pub kept :
      (key : List ℕ) (p : Pointer)
      → find_backend s.heap s.backend_list key ≡ some p
      → find_backend s'.heap s'.backend_list key ≡ some p

Grows-refl : (s : Server) → AreLive (length s.heap) s.backend_list → Grows s s
Grows-refl s live = record { live = live; kept = λ key p found. found }

connected-Grows :
    (s : Server) (client : Client) (key : List ℕ) (longer : Bool)
    → AreLive (length s.heap) s.backend_list
    → Grows s (record s {
      heap = s.heap ++ new_backend client key ∷ [];
      backend_list = if longer then s.backend_list ++ length s.heap ∷ [] else s.backend_list;
    })
connected-Grows s client key longer live =
    let b = new_backend client key in
    let count : length (s.heap ++ b ∷ []) ≡ suc (length s.heap) =
      omega (arith, length-append s.heap (b ∷ [])) in
    let older =
      AreLive-mono (length s.heap) (length (s.heap ++ b ∷ [])) s.backend_list (omega (arith, count))
        live in
    elim (Bool-cases longer) [
      | inl yes_longer ↦ rw yes_longer (record {
        live =
            AreLive-append (length (s.heap ++ b ∷ [])) s.backend_list (length s.heap) older
              (omega (arith, count));
        kept = λ k p found.
            find_backend-found (s.heap ++ b ∷ []) s.backend_list (length s.heap ∷ []) k p
              (find_backend-append_heap s.heap (b ∷ []) s.backend_list k live ∙ found);
      })
      | inr no_longer ↦ rw no_longer (record {
        live = older;
        kept = λ k p found. find_backend-append_heap s.heap (b ∷ []) s.backend_list k live ∙ found;
      })
    ]

connect_backend-Grows :
    (env : Making) (address : Address) (s : Server)
    → AreLive (length s.heap) s.backend_list
    → Grows s (connect_backend env address s).1
unfolding connect_backend
connect_backend-Grows env address s live = elim (Bool-cases env.memory) [
  | inr none_left ↦ rw (none_left, connect_backend) (Grows-refl s live)
  | inl memory ↦ elim (Bool-cases (set_up.0 == 0)) [
    | inr failed ↦ rw (memory, failed, connect_backend) (Grows-refl s live)
    | inl ready ↦ elim (Bool-cases ((connect env.net set_up.1).0 == 0)) [
      | inr refused ↦ rw (memory, ready, refused, connect_backend) (Grows-refl s live)
      | inl connecting ↦
          rw (memory, ready, connecting, connect_backend)
            (connected-Grows s (connect env.net set_up.1).2 address.full_key env.longer_list live)
    ]
  ]
]
  where
    set_up : ℕ × Client
    set_up =
        tcpclient_init env.malloc env.copies s.config (some address.host) (some address.port)
          (some address.protocol) env.raw

pub make_backend-Grows :
    (env : Making) (line : List ℕ) (s : Server)
    → AreLive (length s.heap) s.backend_list
    → Grows s (make_backend env line s).1
unfolding make_backend
make_backend-Grows env line s live = elim (Option-cases (parse_address line)) [
  | inl bad ↦ rw (bad, make_backend) (Grows-refl s live)
  | inr (address, parsed) ↦ elim (Bool-cases env.strings) [
    | inr none_left ↦ rw (parsed, none_left, make_backend) (Grows-refl s live)
    | inl copied ↦ elim (Option-cases (find_backend s.heap s.backend_list address.full_key)) [
      | inr (q, found) ↦ rw (parsed, copied, found, make_backend) (Grows-refl s live)
      | inl missing ↦
          rw (parsed, copied, missing, make_backend) (connect_backend-Grows env address s live)
    ]
  ]
]

-- make_backend of one line after the other, with or without success.
abbrev pub make_backends : List (Making × List ℕ) → Server → Server
make_backends [] s = s
make_backends ((env, line) ∷ more) s = make_backends more (make_backend env line s).1

pub make_backends-Grows :
    (lines : List (Making × List ℕ)) (s : Server)
    → AreLive (length s.heap) s.backend_list
    → Grows s (make_backends lines s)
make_backends-Grows [] s live = Grows-refl s live
make_backends-Grows ((env, line) ∷ more) s live =
    let first = make_backend-Grows env line s live in
    let rest = make_backends-Grows more (make_backend env line s).1 first.live in
    record { live = rest.live; kept = λ key p found. rest.kept key p (first.kept key p found) }
