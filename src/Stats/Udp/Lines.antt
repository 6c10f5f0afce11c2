-- ===== src/Stats/Udp/Lines.antt =====
-- The lines of a datagram, and what stats_udp_recv does with them.
use statsrelay.Prelude.{
  ℕ, zero, suc, ◌+◌, ◌≤◌, ◌<◌, ◌≡◌, refl, ap, ◌∙◌, sym, true, false, none, some, List, [], ◌∷◌,
  ◌++◌, if◌then◌else◌, ◌==◌, ltb, take, drop, length, u64, arith, Bool-cases, Option-cases, inl,
  inr, length-drop, length-take, append-nil, append_assoc, take_of_length_le,
}
use statsrelay.Outcome.{Outcome, done, undefined}
use statsrelay.Bytes.{memchr}
use statsrelay.Bytes.Search.{Lacks, Lacks-memchr, memchr-split, memchr-lt}
use statsrelay.Stats.{Server, Env}
use statsrelay.Stats.Relay.{relay_line, newline}
use statsrelay.Stats.Session.{line_buffer_size}
use statsrelay.Stats.Udp.{udp_lines, stats_udp_recv}

-- The last line, which may lack its newline.
abbrev last_line : List ℕ → List (List ℕ)
last_line [] = []
last_line (x ∷ xs) = (x ∷ xs) ∷ []

-- The lines of some bytes, one by one: `line` is the line that has begun.
unfoldable pub lines_from : List ℕ → List ℕ → List (List ℕ)
lines_from line [] = last_line line
lines_from line (x ∷ xs) =
    let rest = lines_from [] xs in
    let longer = lines_from (line ++ x ∷ []) xs in if x == newline then line ∷ rest else longer

-- The result of a line's relay, and what follows it.
abbrev pub proceed : Outcome (ℕ × Server) → (Server → Outcome (ℕ × Server)) → Outcome (ℕ × Server)
proceed undefined next = undefined
proceed (done (code, ss)) next = elim (code == 0) [ true ↦ next ss | false ↦ done (1, ss) ]

-- The relay of one line after the other, up to the first that is refused.
unfoldable pub relay_all : (Server → List ℕ → Env) → List (List ℕ) → Server → Outcome (ℕ × Server)
relay_all relaying [] ss = done (0, ss)
relay_all relaying (line ∷ lines) ss =
    if ltb line_buffer_size (length line + 2)
    then undefined
    else proceed (relay_line (relaying ss line) line ss) (relay_all relaying lines)

lines_from-Lacks :
    (line xs : List ℕ) → Lacks newline xs → lines_from line xs ≡ last_line (line ++ xs)
unfolding lines_from
lines_from-Lacks line [] h = ap last_line (sym (append-nil line))
lines_from-Lacks line (x ∷ xs) h =
    let other : (x == newline) ≡ false = ground (arith, h.0) in
    rw (other, lines_from)
      (lines_from-Lacks (line ++ x ∷ []) xs h.1 ∙ ap last_line (append_assoc line (x ∷ []) xs))

pub lines_from-newline :
    (line pre post : List ℕ)
    → Lacks newline pre
    → lines_from line (pre ++ newline ∷ post) ≡ (line ++ pre) ∷ lines_from [] post
unfolding lines_from
lines_from-newline line [] post h = rw append-nil
lines_from-newline line (x ∷ pre) post h =
    let other : (x == newline) ≡ false = ground (arith, h.0) in
    rw (other, lines_from)
      (lines_from-newline (line ++ x ∷ []) pre post h.1
        ∙ ap (λ l. l ∷ lines_from [] post) (append_assoc line (x ∷ []) pre))

-- The test behind the relay of a line, as `proceed` makes it.
proceeded :
    (o : Outcome (ℕ × Server)) (next : Server → Outcome (ℕ × Server))
    → (elim o [
      | undefined ↦ undefined
      | done (code, ss) ↦ elim (code == 0) [ true ↦ next ss | false ↦ done (1, ss) ]
    ])
      ≡ proceed o next
proceeded undefined next = refl
proceeded (done (code, ss)) next = refl

-- The length of the first line.
abbrev line_len : List ℕ → ℕ
line_len bytes = elim (memchr newline bytes) [ none ↦ length bytes | some i ↦ i ]

-- One round of the loop, for a line of `len` bytes.
udp_lines-round :
    (rounds : ℕ) (relaying : Server → List ℕ → Env) (bytes : List ℕ) (ss : Server) (len : ℕ)
    → (length bytes == 0) ≡ false
    → line_len bytes ≡ len
    → length (take len bytes) ≡ len
    → udp_lines (suc rounds) relaying bytes ss ≡ (
        if ltb line_buffer_size (length (take len bytes) + 2)
        then undefined
        else proceed
            (relay_line (relaying ss (take len bytes)) (take len bytes) ss)
            (udp_lines rounds relaying (drop (len + 1) bytes)))
unfolding udp_lines
udp_lines-round rounds relaying bytes ss len some_bytes e exact =
    elim (Bool-cases (ltb line_buffer_size (len + 2))) [
      | inl long ↦ rw (some_bytes, e, exact, long, udp_lines) refl
      | inr fits ↦
          rw (some_bytes, e, exact, fits, e, udp_lines)
            (proceeded (relay_line (relaying ss (take len bytes)) (take len bytes) ss)
                (udp_lines rounds relaying (drop (line_len bytes + 1) bytes))
              ∙ ap
                  (λ k.
                    proceed (relay_line (relaying ss (take len bytes)) (take len bytes) ss)
                      (udp_lines rounds relaying (drop (k + 1) bytes)))
                  e)
    ]

proceed-ext :
    (o : Outcome (ℕ × Server)) (next next' : Server → Outcome (ℕ × Server))
    → ((ss : Server) → next ss ≡ next' ss)
    → proceed o next ≡ proceed o next'
proceed-ext undefined next next' h = refl
proceed-ext (done (code, ss)) next next' h = elim (Bool-cases (code == 0)) [
  | inl zero_code ↦ rw (zero_code, proceed) (h ss)
  | inr other ↦ rw (other, proceed)
]

-- A round, when what is left of the datagram is treated as its lines.
round_of_line :
    (relaying : Server → List ℕ → Env) (line : List ℕ) (next : Server → Outcome (ℕ × Server))
    (lines : List (List ℕ)) (ss : Server)
    → ((ss' : Server) → next ss' ≡ relay_all relaying lines ss')
    → (if ltb line_buffer_size (length line + 2)
        then undefined
        else proceed (relay_line (relaying ss line) line ss) next)
      ≡ relay_all relaying (line ∷ lines) ss
unfolding relay_all
round_of_line relaying line next lines ss h =
    ap (λ o. if ltb line_buffer_size (length line + 2) then undefined else o)
      (proceed-ext (relay_line (relaying ss line) line ss) next (relay_all relaying lines) h)

lines_from-nil : (bytes : List ℕ) → (length bytes == 0) ≡ true → lines_from [] bytes ≡ []
unfolding lines_from
lines_from-nil [] h = refl
lines_from-nil (x ∷ xs) h = ground arith

last_line-cons : (bytes : List ℕ) → (length bytes == 0) ≡ false → last_line bytes ≡ bytes ∷ []
last_line-cons [] h = ground arith
last_line-cons (x ∷ xs) h = refl

udp_lines_lem :
    (rounds : ℕ) (relaying : Server → List ℕ → Env) (bytes : List ℕ) (ss : Server)
    → length bytes ≤ rounds
    → udp_lines rounds relaying bytes ss ≡ relay_all relaying (lines_from [] bytes) ss
udp_lines_lem zero relaying bytes ss enough =
    unfold udp_lines relay_all in rw (lines_from-nil bytes (ground arith)) refl
udp_lines_lem (suc rounds) relaying bytes ss enough = elim (Bool-cases (length bytes == 0)) [
  | inl empty ↦ unfold udp_lines relay_all in rw (empty, lines_from-nil bytes empty, udp_lines) refl
  | inr some_bytes ↦ elim (Option-cases (memchr newline bytes)) [
    | inl alone ↦
        let n = length bytes in
        udp_lines-round rounds relaying bytes ss n some_bytes (rw (alone, line_len) refl)
          (omega (arith, length-take n bytes))
        ∙ round_of_line relaying (take n bytes) (udp_lines rounds relaying (drop (n + 1) bytes)) []
            ss
            (λ ss'.
              udp_lines_lem rounds relaying (drop (n + 1) bytes) ss'
                (omega (arith, length-drop (n + 1) bytes))
              ∙ ap (λ ls. relay_all relaying ls ss')
                  (lines_from-nil (drop (n + 1) bytes) (ground (arith, length-drop (n + 1) bytes))))
        ∙ ap (λ ls. relay_all relaying ls ss)
            (ap (λ l. l ∷ []) (take_of_length_le n bytes (omega arith))
              ∙ sym (
                  lines_from-Lacks [] bytes (Lacks-memchr newline bytes alone)
                  ∙ last_line-cons bytes some_bytes))
    | inr (len, found) ↦
        let inside = memchr-lt newline bytes len found in
        let (cut, plain) = memchr-split newline bytes len found in
        udp_lines-round rounds relaying bytes ss len some_bytes (rw (found, line_len) refl)
          (omega (arith, inside, length-take len bytes))
        ∙ round_of_line relaying (take len bytes) (udp_lines rounds relaying (drop (len + 1) bytes))
            (lines_from [] (drop (len + 1) bytes)) ss
            (λ ss'.
              udp_lines_lem rounds relaying (drop (len + 1) bytes) ss'
                (omega (arith, length-drop (len + 1) bytes)))
        ∙ ap (λ ls. relay_all relaying ls ss)
            (ap (λ k. take len bytes ∷ lines_from [] (drop k bytes)) {x = len + 1} {y = suc len}
                (omega arith)
              ∙ sym (
                  ap (lines_from []) cut
                  ∙ lines_from-newline [] (take len bytes) (drop (suc len) bytes) plain))
  ]
]

-- stats_udp_recv of a datagram that is not empty counts its bytes and relays its lines in order, up
-- to the first that is refused; the datagram's lines are what stands before each newline, and what
-- is behind the last newline if that is not empty.
pub stats_udp_recv_lem :
    (relaying : Server → List ℕ → Env) (bytes : List ℕ) (ss : Server)
    → 0 < length bytes
    → stats_udp_recv (some bytes) relaying ss
      ≡ relay_all relaying
          (lines_from [] bytes)
          (record ss { bytes_recv_udp = u64 (ss.bytes_recv_udp + length bytes) })
unfolding stats_udp_recv
stats_udp_recv_lem relaying bytes ss pos =
    let some_bytes : (length bytes == 0) ≡ false = ground arith in
    rw some_bytes (
      udp_lines_lem (length bytes) relaying bytes
        (record ss { bytes_recv_udp = u64 (ss.bytes_recv_udp + length bytes) }) (omega arith))
