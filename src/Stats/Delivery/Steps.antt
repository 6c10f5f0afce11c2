-- ===== src/Stats/Delivery/Steps.antt =====
-- One happening, seen from one backend.
use statsrelay.Prelude.{
  ap, ◌∙◌, sym, ℕ, ◌+◌, ◌<◌, ◌≡◌, refl, ◌&&◌, get_elem?_total, Bool, true, false, Option, none,
  some, List, [], ◌∷◌, ◌++◌, ◌==◌, ltb, length, u64, arith, inl, inr, set, get_elem?, if◌then◌else◌,
  length-set, get_elem?-set_self, get_elem?-set_ne, lt_of_get_elem?, Bool-cases, Option-cases,
  subst, ==_iff,
}
use statsrelay.Outcome.{done}
use statsrelay.Buffer.Invariant.{IsMalloc}
use statsrelay.Ring.{Pointer}
use statsrelay.Client.Action.{act, sent_bytes, IsOpen}
use statsrelay.Stats.{Backend, Server, Env}
use statsrelay.Stats.Relay.{send_line, rejects, relay_line, key_buffer_size, newline}
use statsrelay.Stats.Routing.{route, relay_line_delivers}
use statsrelay.Stats.Delivery.{
  Happening, relayed, event, given_to, sent_by, after_act, happen, IsReady, IsPossible, Advances,
}
use statsrelay.Stats.Delivery.Advance.{Advances-refl, IsDelivered-Advances, act-Advances}

-- A happening at the server `ss`, seen from backend `p`.
pub record Moves (p : Pointer) (given out : List ℕ) (ss ss' : Server) : Type 0 where
  pub ready : IsReady ss'
  pub same_parser : ss'.parser ≡ ss.parser
  pub moved :
      (b : Backend)
      → get_elem? ss.heap p ≡ some b
      → (b' : Backend) × (get_elem? ss'.heap p ≡ some b') × Advances given out b b'

some_inj {ℓ} : {A : Type ℓ} {a b : A} → some a ≡ some b → a ≡ b
some_inj e = cc

IsReady-set :
    (ss : Server) (q : Pointer) (b : Backend)
    → IsReady ss
    → IsOpen b.client
    → IsReady (record ss { heap = set ss.heap q b })
IsReady-set ss q b r o = record {
  opened = λ p c found. elim (Bool-cases (q == p)) [
    | inl same ↦
        let e : q ≡ p = (==_iff q p).0 same in
        let inside : q < length ss.heap =
          omega (arith, length-set ss.heap q b, lt_of_get_elem? (set ss.heap q b) p found) in
        subst (λ (d : Backend). IsOpen d.client)
          (some_inj (
            sym (get_elem?-set_self ss.heap q b inside)
            ∙ ap (λ k. get_elem? (set ss.heap q b) k) e
            ∙ found))
          o
    | inr other ↦
        r.opened p c (sym (get_elem?-set_ne ss.heap q p b (ground (arith, other))) ∙ found)
  ];
  live = λ key p i found. omega (arith, length-set ss.heap q b, r.live key p i found);
}

-- A backend that takes the place of another.
replaced :
    (p q : Pointer) (given out : List ℕ) (ss : Server) (b b' : Backend)
    → IsReady ss
    → get_elem? ss.heap q ≡ some b
    → IsOpen b'.client
    → Advances given out b b'
    → Moves p
        (if q == p then given else [])
        (if q == p then out else [])
        ss
        (record ss { heap = set ss.heap q b' })
replaced p q given out ss b b' r found o adv = record {
  ready = IsReady-set ss q b' r o;
  same_parser = refl;
  moved = λ c at. elim (Bool-cases (q == p)) [
    | inl same ↦
        let e : q ≡ p = (==_iff q p).0 same in
        (
          b',
          ap (λ k. get_elem? (set ss.heap q b') k) (sym e)
              ∙ get_elem?-set_self ss.heap q b' (lt_of_get_elem? ss.heap q found),
          rw same (
              subst (λ d. Advances given out d b')
                (some_inj (sym found ∙ ap (λ k. get_elem? ss.heap k) e ∙ at)) adv),
        )
    | inr other ↦ (
      c,
      get_elem?-set_ne ss.heap q p b' (ground (arith, other)) ∙ at,
      rw other (Advances-refl c),
    )
  ];
}

still :
    (p : Pointer) (ss ss' : Server)
    → IsReady ss'
    → ss'.heap ≡ ss.heap
    → ss'.parser ≡ ss.parser
    → Moves p [] [] ss ss'
still p ss ss' r same parser = record {
  ready = r;
  same_parser = parser;
  moved = λ b at. (b, ap (λ (h : List Backend). get_elem? h p) same ∙ at, Advances-refl b);
}

either_empty : (t : Bool) → ◌≡◌ {A = List ℕ} (if t then [] else []) []
either_empty true = refl
either_empty false = refl

-- What stats_relay_line does, whatever it returns.
pub relayed-Moves :
    (p : Pointer) (env : Env) (line : List ℕ) (ss : Server)
    → IsReady ss
    → IsMalloc env.malloc
    → ss.parser (some line) < key_buffer_size
    → (code : ℕ) × (ss' : Server) × (relay_line env line ss ≡ done (code, ss'))
      × Moves p (given_to p line code (route ss line)) [] ss ss'
unfolding relay_line
relayed-Moves p env line ss r m fits =
    elim (Bool-cases (ss.config.enable_validation && rejects ss.validator line)) [
      | inl bad ↦ (1, ss, rw bad refl, unsent (route ss line) ss r refl refl)
      | inr good ↦ elim (Bool-cases (ss.parser (some line) == 0)) [
        | inl none_found ↦ (
          1,
          record ss { malformed_lines = u64 (ss.malformed_lines + 1) },
          rw (good, none_found) refl,
          unsent (route ss line) _ (record { opened = r.opened; live = r.live }) refl refl,
        )
        | inr key ↦
            let within : ltb key_buffer_size (ss.parser (some line) + 1) ≡ false = ground arith in
            elim (Option-cases (route ss line)) [
              | inl nowhere ↦ (
                1,
                ss,
                rw (good, key, within, nowhere) refl,
                unsent (route ss line) ss r refl refl,
              )
              | inr ((q, i), at) ↦
                  let (b, found) = get_elem?_total ss.heap q (r.live _ q i at) in
                  let (runs, d) =
                    relay_line_delivers env line ss good (ground (arith, key)) q i b m fits at found
                      (r.opened q b found) in
                  (
                    (send_line env line b).0,
                    record ss { heap = set ss.heap q (send_line env line b).1 },
                    runs,
                    given (send_line env line b).0 at (
                        replaced p q _ [] ss b (send_line env line b).1 r found d.opened
                          (IsDelivered-Advances line b (send_line env line b) d)),
                  )
            ]
      ]
    ]
  where
    unsent :
        (where_to : Option (Pointer × ℕ)) (ss' : Server)
        → IsReady ss'
        → ss'.heap ≡ ss.heap
        → ss'.parser ≡ ss.parser
        → Moves p (given_to p line 1 where_to) [] ss ss'
    unsent none ss' r' same parser = still p ss ss' r' same parser
    unsent (some (q, i)) ss' r' same parser =
        subst (λ g. Moves p g [] ss ss') (sym (either_empty (q == p)))
          (still p ss ss' r' same parser)

    given :
        (code : ℕ) {where_to : Option (Pointer × ℕ)} {q i : ℕ} {ss' : Server}
        → where_to ≡ some (q, i)
        → Moves p
            (if q == p then (if code == 0 then line ++ newline ∷ [] else []) else [])
            (if q == p then [] else [])
            ss
            ss'
        → Moves p (given_to p line code where_to) [] ss ss'
    given code {q = q} {i = i} {ss' = ss'} at moves = rw at (
        subst (λ out. Moves p (given_to p line code (some (q, i))) out ss ss')
          (either_empty (q == p)) moves)

-- Whatever happens, from the point of view of one backend.
pub happen-Moves :
    (p : Pointer) (h : Happening) (ss : Server)
    → IsReady ss
    → IsPossible h ss
    → (r : List ℕ × List ℕ × Server) × (happen p h ss ≡ done r) × Moves p r.0 r.1 ss r.2
unfolding happen
happen-Moves p (relayed env line) ss r possible =
    let (code, ss', runs, moves) = relayed-Moves p env line ss r possible.0 possible.1 in
    ((given_to p line code (route ss line), [], ss'), rw runs refl, moves)
happen-Moves p (event q a) ss r possible = elim (Option-cases (get_elem? ss.heap q)) [
  | inl nothing ↦ (([], [], ss), rw (nothing, happen) refl, still p ss ss r refl refl)
  | inr (b, found) ↦
      let (fits, no_bytes) = possible b found in
      let (o, adv) = act-Advances a b (r.opened q b found) fits no_bytes in
      (
        ([], sent_by p q (act a b.client).1, record ss { heap = set ss.heap q (after_act a b) }),
        rw (found, happen) refl,
        subst
            (λ given.
              Moves p given (sent_by p q (act a b.client).1) ss
                (record ss { heap = set ss.heap q (after_act a b) }))
            (either_empty (q == p))
            (replaced p q [] (sent_bytes (act a b.client).1) ss b (after_act a b) r found o adv),
      )
]
