-- ===== src/Stats/Lines.antt =====
-- `feed`, a description of what a session does with a stream of bytes, for stats_process_lines.
use statsrelay.Prelude.{
  ℕ, zero, suc, ◌+◌, ◌≤◌, ◌<◌, ◌≡◌, refl, ap, ◌∙◌, sym, true, false, some, List, [], ◌∷◌, ◌++◌,
  if◌then◌else◌, ◌==◌, ltb, take, drop, length, arith, Bool-cases, Option-cases, inl, inr,
  length-drop, length-take, ◌≢◌, append-nil, append_assoc,
}
use statsrelay.Outcome.{Outcome, done, undefined, map_outcome}
use statsrelay.Bytes.{memchr}
use statsrelay.Bytes.Search.{Lacks, Lacks-memchr, memchr-split, memchr-lt}
use statsrelay.Buffer.{Buffer, datacount, consume}
use statsrelay.Buffer.Invariant.{IsValid, consume-IsValid}
use statsrelay.Buffer.Queue.{contents, consume_lem, length-contents}
use statsrelay.Stats.{Server}
use statsrelay.Stats.Relay.{relay_line, newline}
use statsrelay.Stats.Report.{send_statistics}
use statsrelay.Stats.Session.{
  World, Processed, respond, stopped, line_buffer_size, is_status, process_lines,
}

Bool-of_ne : (x : ℕ) → x ≢ newline → (x == newline) ≡ false
Bool-of_ne x h = ground arith

-- A line as a session handles it: the answer to `status`, or the relay of the line.
unfoldable pub serve_line : World → List ℕ → Server → Outcome (ℕ × List ℕ × Server)
serve_line world line ss =
    if ltb line_buffer_size (length line + 2)
    then undefined
    else if is_status line
    then done (0, send_statistics world.response_memory (world.sends ss) ss, ss)
    else map_outcome (λ r. (r.0, [], r.1)) (relay_line (world.relaying ss line) line ss)

-- Go on behind a line that was served, or stop before it.
abbrev pub continue :
    {B : Type 0}
    → Outcome (ℕ × List ℕ × Server)
    → (Server → Outcome (Processed B))
    → B
    → Outcome (Processed B)
continue undefined next stay = undefined
continue (done (code, out, ss)) next stay = elim (code == 0) [
  | true ↦ map_outcome (respond out) (next ss)
  | false ↦ done (record { code = 1; responses = out; left = stay; server = ss })
]

-- The bytes of a stream, one by one: `line` is the line that has begun.
unfoldable pub feed : World → List ℕ → List ℕ → Server → Outcome (Processed (List ℕ))
feed world line [] ss = done (stopped 0 line ss)
feed world line (x ∷ xs) ss = elim (x == newline) [
  | false ↦ feed world (line ++ x ∷ []) xs ss
  | true ↦ continue (serve_line world line ss) (feed world [] xs) (line ++ newline ∷ xs)
]

feed-Lacks :
    (world : World) (line xs : List ℕ) (ss : Server)
    → Lacks newline xs
    → feed world line xs ss ≡ done (stopped 0 (line ++ xs) ss)
unfolding feed
feed-Lacks world line [] ss h = ap (λ l. done (stopped 0 l ss)) (sym (append-nil line))
feed-Lacks world line (x ∷ xs) ss h =
    rw (Bool-of_ne x h.0, feed)
      (feed-Lacks world (line ++ x ∷ []) xs ss h.1
        ∙ ap (λ l. done (stopped 0 l ss)) (append_assoc line (x ∷ []) xs))

feed-line :
    (world : World) (line pre post : List ℕ) (ss : Server)
    → Lacks newline pre
    → feed world line (pre ++ newline ∷ post) ss
      ≡ continue
          (serve_line world (line ++ pre) ss)
          (feed world [] post)
          ((line ++ pre) ++ newline ∷ post)
unfolding feed
feed-line world line [] post ss h = rw append-nil
feed-line world line (x ∷ pre) post ss h =
    rw (Bool-of_ne x h.0, feed)
      (feed-line world (line ++ x ∷ []) pre post ss h.1
        ∙ ap (λ l. continue (serve_line world l ss) (feed world [] post) (l ++ newline ∷ post))
            (append_assoc line (x ∷ []) pre))

pub respond_nothing : {B : Type 0} (o : Outcome (Processed B)) → map_outcome (respond []) o ≡ o
respond_nothing undefined = refl
respond_nothing (done p) = refl

-- The test behind the relay of a line, as `continue` makes it.
relayed :
    {B : Type 0} (o : Outcome (ℕ × Server)) (next : Server → Outcome (Processed B)) (stay : B)
    → continue (map_outcome (λ r. (r.0, [], r.1)) o) next stay ≡ (elim o [
      | undefined ↦ undefined
      | done (code, ss) ↦ elim (code == 0) [ true ↦ next ss | false ↦ done (stopped 1 stay ss) ]
    ])
relayed undefined next stay = refl
relayed (done (code, ss)) next stay = elim (Bool-cases (code == 0)) [
  | inl zero_code ↦ rw (zero_code, continue) (respond_nothing (next ss))
  | inr other ↦ rw (other, continue)
]

-- One round of the loop, at a line that is complete.
pub process_lines-line :
    (rounds : ℕ) (world : World) (b : Buffer) (ss : Server) (len : ℕ)
    → (datacount b == 0) ≡ false
    → memchr newline (contents b) ≡ some len
    → length (take len (contents b)) ≡ len
    → process_lines (suc rounds) world b ss
      ≡ continue
          (serve_line world (take len (contents b)) ss)
          (process_lines rounds world (consume b (len + 1)).1)
          b
unfolding process_lines serve_line
process_lines-line rounds world b ss len some_bytes found exact =
    rw (some_bytes, found, exact, process_lines)
      (elim (Bool-cases (ltb line_buffer_size (len + 2))) [
        | inl long ↦ rw (long, process_lines)
        | inr fits ↦ elim (Bool-cases (is_status (take len (contents b)))) [
          | inl status ↦ rw (fits, status, process_lines)
          | inr other ↦
              rw (fits, other, process_lines)
                (sym (
                  relayed
                    (relay_line (world.relaying ss (take len (contents b))) (take len (contents b))
                      ss)
                    (process_lines rounds world (consume b (len + 1)).1) b))
        ]
      ])

-- The bytes that are left in a session's buffer.
abbrev pub view : Processed Buffer → Processed (List ℕ)
view p = record {
  code = p.code;
  responses = p.responses;
  left = contents p.left;
  server = p.server;
}

view-continue :
    (o : Outcome (ℕ × List ℕ × Server)) (next : Server → Outcome (Processed Buffer))
    (next' : Server → Outcome (Processed (List ℕ))) (b : Buffer)
    → ((ss : Server) → map_outcome view (next ss) ≡ next' ss)
    → map_outcome view (continue o next b) ≡ continue o next' (contents b)
view-continue undefined next next' b h = refl
view-continue (done (code, out, ss)) next next' b h = elim (Bool-cases (code == 0)) [
  | inr other ↦ rw (other, continue)
  | inl zero_code ↦
      rw (zero_code, continue) (view_respond (next ss) ∙ ap (map_outcome (respond out)) (h ss))
]
  where
    view_respond :
        (o : Outcome (Processed Buffer))
        → map_outcome view (map_outcome (respond out) o)
          ≡ map_outcome (respond out) (map_outcome view o)
    view_respond undefined = refl
    view_respond (done p) = refl

Lacks-of_length : (c : ℕ) (xs : List ℕ) → length xs ≡ 0 → Lacks c xs
Lacks-of_length c [] h = tt
Lacks-of_length c (x ∷ xs) h = absurd (omega arith)

feed-empty :
    (world : World) (b : Buffer) (ss : Server)
    → IsValid b
    → datacount b ≡ 0
    → feed world [] (contents b) ss ≡ done (stopped 0 (contents b) ss)
feed-empty world b ss v e =
    feed-Lacks world [] (contents b) ss
      (Lacks-of_length newline (contents b) (omega (arith, length-contents v)))

-- What the consumption of a line and its newline leaves.
record IsPast (b : Buffer) (len : ℕ) : Type 0 where
  valid : IsValid (consume b (len + 1)).1
  rest : contents (consume b (len + 1)).1 ≡ drop (suc len) (contents b)
  fewer : datacount (consume b (len + 1)).1 + suc len ≡ datacount b

consume-IsPast : {b : Buffer} (len : ℕ) → IsValid b → len < datacount b → IsPast b len
consume-IsPast {b} len v h =
    let left =
      ((consume_lem (len + 1) v).0 (omega arith)).1
      ∙ ap (λ k. drop k (contents b)) {y = suc len} (omega arith) in
    let valid = consume-IsValid (len + 1) v in
    record {
      valid = valid;
      rest = left;
      fewer = omega (
        arith,
        ap length left,
        length-contents valid,
        length-contents v,
        length-drop (suc len) (contents b),
      );
    }

-- On a valid buffer, with at least as many rounds as it holds bytes, the line loop of a session
-- gives what `feed` gives, which reads the buffered bytes one by one: each complete line is served
-- once and in order (`status` answered, any other line relayed), the first line that is refused
-- stops it, an incomplete line stays in the buffer.
pub process_lines-eq-feed :
    (rounds : ℕ) (world : World) (b : Buffer) (ss : Server)
    → IsValid b
    → datacount b ≤ rounds
    → map_outcome view (process_lines rounds world b ss) ≡ feed world [] (contents b) ss
process_lines-eq-feed zero world b ss v enough =
    unfold process_lines in sym (feed-empty world b ss v (omega arith))
process_lines-eq-feed (suc rounds) world b ss v enough = elim (Bool-cases (datacount b == 0)) [
  | inl empty ↦
      unfold process_lines in
      rw (empty, process_lines) (sym (feed-empty world b ss v (ground arith)))
  | inr some_bytes ↦ elim (Option-cases (memchr newline (contents b))) [
    | inl none_found ↦
        unfold process_lines in
        rw (some_bytes, none_found, process_lines)
          (sym (feed-Lacks world [] (contents b) ss (Lacks-memchr newline (contents b) none_found)))
    | inr (len, found) ↦
        let inside = memchr-lt newline (contents b) len found in
        let (cut, plain) = memchr-split newline (contents b) len found in
        let past = consume-IsPast len v (omega (arith, inside, length-contents v)) in
        ap (map_outcome view) (
          process_lines-line rounds world b ss len some_bytes found
            (omega (arith, inside, length-take len (contents b))))
        ∙ view-continue (serve_line world (take len (contents b)) ss)
            (process_lines rounds world (consume b (len + 1)).1)
            (feed world [] (drop (suc len) (contents b))) b
            (λ ss'.
              process_lines-eq-feed rounds world (consume b (len + 1)).1 ss' past.valid
                (omega (arith, past.fewer))
              ∙ ap (λ l. feed world [] l ss') past.rest)
        ∙ ap
            (continue (serve_line world (take len (contents b)) ss)
              (feed world [] (drop (suc len) (contents b))))
            cut
        ∙ sym (
            ap (λ l. feed world [] l ss) cut
            ∙ feed-line world [] (take len (contents b)) (drop (suc len) (contents b)) ss plain)
  ]
]
