-- ===== src/Stats/Safety.antt =====
-- The memory of a session and of its server: what a stream of short lines cannot break.
pub mod Session
use statsrelay.Prelude.{
  ℕ, ◌+◌, ◌≤◌, ◌<◌, ◌≡◌, refl, ap, ◌∙◌, sym, subst, true, false, Option, some, List, [], ◌∷◌, ◌++◌,
  ◌==◌, ltb, length, arith, Bool-cases, inl, inr,
}
use statsrelay.Outcome.{Outcome, done}
use statsrelay.Buffer.Invariant.{IsMalloc}
use statsrelay.Stats.{Server}
use statsrelay.Stats.Relay.{newline, key_buffer_size}
use statsrelay.Stats.Delivery.{IsReady}
use statsrelay.Stats.Delivery.Steps.{relayed-Moves}
use statsrelay.Stats.Report.{send_statistics}
use statsrelay.Stats.Session.{World, Processed, respond, line_buffer_size, is_status}
use statsrelay.Stats.Lines.{feed, serve_line, continue}

-- The server can relay, and a key is a part of its line.
pub record IsSound (ss : Server) : Type 0 where
  pub ready : IsReady ss
  pub bounded : (line : List ℕ) → ss.parser (some line) ≤ length line

-- Each complete line of the stream is shorter than `key_buffer`; `line` has begun.
abbrev pub AreShort : List ℕ → List ℕ → Type 0
AreShort line [] = Unit {0}
AreShort line (x ∷ xs) = elim (x == newline) [
  | true ↦ (length line < key_buffer_size) × AreShort [] xs
  | false ↦ AreShort (line ++ x ∷ []) xs
]

-- malloc keeps its contract whatever line is relayed.
abbrev pub IsHonest : World → Type 0
IsHonest world = (ss : Server) (line : List ℕ) → IsMalloc (world.relaying ss line).malloc

-- A line is served, and the server stays sound.
serve_line-IsSound :
    (world : World) (line : List ℕ) (ss : Server)
    → IsHonest world
    → length line < key_buffer_size
    → IsSound ss
    → (code : ℕ) × (out : List ℕ) × (ss' : Server) × (serve_line world line ss
        ≡ done (code, out, ss'))
      × IsSound ss'
unfolding serve_line
serve_line-IsSound world line ss honest short s =
    let fits : ltb line_buffer_size (length line + 2) ≡ false = ground (arith, short) in
    elim (Bool-cases (is_status line)) [
      | inl status ↦ (
        0,
        send_statistics world.response_memory (world.sends ss) ss,
        ss,
        rw (fits, status, serve_line) refl,
        s,
      )
      | inr other ↦
          let (code, ss', relays, moves) =
            relayed-Moves 0 (world.relaying ss line) line ss s.ready (honest ss line)
              (omega (arith, s.bounded line, short)) in
          (
            code,
            [],
            ss',
            rw (fits, other, relays, serve_line) refl,
            record {
              ready = moves.ready;
              bounded =
                  subst (λ (p : Option (List ℕ) → ℕ). (l : List ℕ) → p (some l) ≤ length l)
                    (sym moves.same_parser) s.bounded;
            },
          )
    ]

continue-IsSound :
    (code : ℕ) (out : List ℕ) (ss : Server) (next : Server → Outcome (Processed (List ℕ)))
    (stay : List ℕ)
    → IsSound ss
    → (p : Processed (List ℕ)) × (next ss ≡ done p) × IsSound p.server
    → (p : Processed (List ℕ)) × (continue (done (code, out, ss)) next stay ≡ done p)
      × IsSound p.server
continue-IsSound code out ss next stay s (p, goes_on, s') = elim (Bool-cases (code == 0)) [
  | inl zero_code ↦ (respond out p, rw (zero_code, goes_on, continue) refl, s')
  | inr failed ↦ (
    record { code = 1; responses = out; left = stay; server = ss },
    rw (failed, continue) refl,
    s,
  )
]

-- A stream of short lines is processed, and the server stays sound.
pub feed-IsSound :
    (world : World) (line xs : List ℕ) (ss : Server)
    → IsHonest world
    → AreShort line xs
    → IsSound ss
    → (p : Processed (List ℕ)) × (feed world line xs ss ≡ done p) × IsSound p.server
unfolding feed
feed-IsSound world line [] ss honest short s = (_, refl, s)
feed-IsSound world line (x ∷ xs) ss honest short s = elim (Bool-cases (x == newline)) [
  | inr other ↦
      let (p, fed, s') =
        feed-IsSound world (line ++ x ∷ []) xs ss honest (rw (other, AreShort) at short) s in
      (p, rw (other, feed) fed, s')
  | inl end ↦
      let (fits, short') : (length line < key_buffer_size) × AreShort [] xs =
        rw (end, AreShort) at short in
      let (code, out, ss', served, s1) = serve_line-IsSound world line ss honest fits s in
      let (p, goes_on, s2) =
        continue-IsSound code out ss' (feed world [] xs) (line ++ newline ∷ xs) s1
          (feed-IsSound world [] xs ss' honest short' s1) in
      (
        p,
        rw (end, feed)
            (ap (λ o. continue o (feed world [] xs) (line ++ newline ∷ xs)) served ∙ goes_on),
        s2,
      )
]
