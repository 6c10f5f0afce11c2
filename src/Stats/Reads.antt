-- ===== src/Stats/Reads.antt =====
-- The reads of a session: stats_recv, and the room it makes.
use statsrelay.Prelude.{
  ℕ, ◌+◌, ◌≤◌, ◌<◌, ◌≡◌, refl, ap, ◌∙◌, sym, true, false, Option, List, [], ◌∷◌, ◌++◌, ◌==◌, length,
  u64, arith, Bool-cases, inl, inr, append_assoc,
}
use mathlib.Core.Option
use statsrelay.Outcome.{Outcome, done, undefined, map_outcome, ◌>>=◌}
use statsrelay.Buffer
use statsrelay.Buffer.{Malloc, Buffer, Status, ok, datacount, spacecount, copy_in, realign}
use statsrelay.Buffer.Invariant.{
  IsValid, IsMalloc, realign-IsValid, copy_in-IsValid, produced-IsValid,
}
use statsrelay.Buffer.Queue.{contents, contents-produced, contents-realign}
use statsrelay.Buffer.Growth.{expand-IsDoubled, size-realign}
use statsrelay.Client.Transfer.{got}
use statsrelay.Stats.{Server}
use statsrelay.Stats.Relay.{newline}
use statsrelay.Stats.Session.{
  World, Processed, respond, close_unless, read_space, stats_recv, process_lines,
}
use statsrelay.Stats.Lines.{
  continue, feed, serve_line, process_lines-eq-feed, view, respond_nothing,
}

-- Go on with more bytes behind those that were processed.
abbrev pub resume : World → List ℕ → Processed (List ℕ) → Outcome (Processed (List ℕ))
resume world more p = elim (p.code == 0) [
  | true ↦ map_outcome (respond p.responses) (feed world p.left more p.server)
  | false ↦ done (record p { left = p.left ++ more })
]

respond-respond :
    (out : List ℕ) (o : Outcome (Processed (List ℕ))) (world : World) (more : List ℕ)
    → map_outcome (respond out) (o >>= resume world more)
      ≡ (map_outcome (respond out) o >>= resume world more)
respond-respond out undefined world more = refl
respond-respond out (done p) world more = elim (Bool-cases (p.code == 0)) [
  | inr other ↦ rw (other, resume)
  | inl zero_code ↦ rw (zero_code, resume) (twice (feed world p.left more p.server))
]
  where
    twice :
        (o : Outcome (Processed (List ℕ)))
        → map_outcome (respond out) (map_outcome (respond p.responses) o)
          ≡ map_outcome (respond (out ++ p.responses)) o
    twice undefined = refl
    twice (done q) =
        ap (λ r. done (record q { responses = r })) (sym (append_assoc out p.responses q.responses))

continue-resume :
    (world : World) (o : Outcome (ℕ × List ℕ × Server))
    (next next' : Server → Outcome (Processed (List ℕ))) (stay more : List ℕ)
    → ((ss : Server) → next' ss ≡ (next ss >>= resume world more))
    → continue o next' (stay ++ more) ≡ (continue o next stay >>= resume world more)
continue-resume world undefined next next' stay more h = refl
continue-resume world (done (code, out, ss)) next next' stay more h =
    elim (Bool-cases (code == 0)) [
      | inr other ↦ rw (other, continue)
      | inl zero_code ↦
          rw (zero_code, continue)
            (ap (map_outcome (respond out)) (h ss) ∙ respond-respond out (next ss) world more)
    ]

-- The bytes of two reads are processed as those of one.
feed-append :
    (world : World) (line xs ys : List ℕ) (ss : Server)
    → feed world line (xs ++ ys) ss ≡ (feed world line xs ss >>= resume world ys)
unfolding feed
feed-append world line [] ys ss = sym (respond_nothing (feed world line ys ss))
feed-append world line (x ∷ xs) ys ss = elim (Bool-cases (x == newline)) [
  | inr other ↦ rw (other, feed) (feed-append world (line ++ x ∷ []) xs ys ss)
  | inl end ↦
      rw (end, feed)
        (ap (continue (serve_line world line ss) (feed world [] (xs ++ ys)))
            (sym (append_assoc line (newline ∷ xs) ys))
          ∙ continue-resume world (serve_line world line ss) (feed world [] xs)
              (feed world [] (xs ++ ys)) (line ++ newline ∷ xs) ys
              (λ ss'. feed-append world [] xs ys ss'))
]

-- If a valid buffer holds the bytes of another valid buffer followed by `more`, then the line loop
-- on it gives what the line loop on the other gives, resumed with `more` when it ended with 0: how
-- a stream is cut into reads does not matter.
pub process_lines-resume :
    (world : World) (b joined : Buffer) (more : List ℕ) (ss : Server)
    → IsValid b
    → IsValid joined
    → contents joined ≡ contents b ++ more
    → map_outcome view (process_lines (datacount joined) world joined ss)
      ≡ (map_outcome view (process_lines (datacount b) world b ss) >>= resume world more)
process_lines-resume world b joined more ss v w e =
    process_lines-eq-feed (datacount joined) world joined ss w (omega arith)
    ∙ ap (λ l. feed world [] l ss) e
    ∙ feed-append world [] (contents b) more ss
    ∙ sym (
        ap (λ (o : Outcome (Processed (List ℕ))). o >>= resume world more)
          (process_lines-eq-feed (datacount b) world b ss v (omega arith)))

-- The space for a read: the queued bytes stay, and a buffer that could be had has room for a byte.
pub record IsReadable (b : Buffer) (result : Status × Buffer) : Type 0 where
  pub valid : IsValid result.1
  pub kept : contents result.1 ≡ contents b
  pub room : result.0 ≡ ok → 0 < spacecount result.1

-- For a valid buffer that is not of size 0, where malloc keeps its contract, the preparation of a
-- read leaves the buffered bytes as they are and the buffer valid, and when it succeeds there is
-- room for a byte at least.
pub read_space-IsReadable :
    {malloc : Malloc} (b : Buffer)
    → IsMalloc malloc
    → IsValid b
    → 0 < b.size
    → IsReadable b (read_space malloc b)
unfolding read_space
read_space-IsReadable {malloc} b m v pos = elim (Bool-cases (spacecount b == 0)) [
  | inr room ↦ rw (room, read_space) (record { valid = v; kept = refl; room = λ _. ground arith })
  | inl full ↦ elim (Bool-cases (spacecount (realign b) == 0)) [
    | inr room ↦
        rw (full, room, read_space)
          (record {
            valid = realign-IsValid v;
            kept = contents-realign v;
            room = λ _. ground arith;
          })
    | inl still ↦
        let d = expand-IsDoubled {b = realign b} m (realign-IsValid v) in
        rw (full, still, read_space)
          (record {
            valid = d.valid;
            kept = d.kept ∙ contents-realign v;
            room = λ e. omega (arith, d.gained e, size-realign b);
          })
  ]
]

abbrev pub view_session : Processed (Option Buffer) → Processed (Option (List ℕ))
view_session p = record {
  code = p.code;
  responses = p.responses;
  left = Option.map contents p.left;
  server = p.server;
}

view-close_unless :
    (o : Outcome (Processed Buffer))
    → map_outcome view_session (map_outcome close_unless o)
      ≡ map_outcome close_unless (map_outcome view o)
view-close_unless undefined = refl
view-close_unless (done p) = elim (Bool-cases (p.code == 0)) [
  | inl zero_code ↦ rw zero_code
  | inr other ↦ rw other
]

-- If the session's buffer is valid and not of size 0, room for a read was found, and the bytes
-- received fit it, then stats_recv counts them and gives what `feed` gives for the buffered bytes
-- followed by them; a result other than 0 closes the session.
pub stats_recv_lem :
    {malloc : Malloc} (world : World) (bytes : List ℕ) (b : Buffer) (ss : Server)
    → IsMalloc malloc
    → IsValid b
    → 0 < b.size
    → (read_space malloc b).0 ≡ ok
    → length bytes ≤ spacecount (read_space malloc b).1
    → map_outcome view_session (stats_recv malloc (got bytes) world b ss)
      ≡ map_outcome close_unless (
          feed world []
            (contents b ++ bytes)
            (record ss { bytes_recv_tcp = u64 (ss.bytes_recv_tcp + length bytes) }))
unfolding stats_recv
stats_recv_lem {malloc} world bytes b ss m v pos ready fits =
    let r = read_space-IsReadable b m v pos in
    let (status, grown) = contents-produced bytes r.valid fits in
    let b1 = (read_space malloc b).1 in
    let b2 = (Buffer.produced (copy_in b1 b1.tail bytes) (length bytes)).1 in
    let ss1 = record ss { bytes_recv_tcp = u64 (ss.bytes_recv_tcp + length bytes) } in
    let valid : IsValid b2 =
      produced-IsValid (length bytes)
        (copy_in-IsValid b1.tail bytes r.valid (omega (arith, r.valid))) in
    rw (ready, status, stats_recv)
      (view-close_unless (process_lines (datacount b2) world b2 ss1)
        ∙ ap (map_outcome close_unless) (
            process_lines-eq-feed (datacount b2) world b2 ss1 valid (omega arith)
            ∙ ap (λ l. feed world [] l ss1) (grown ∙ ap (λ l. l ++ bytes) r.kept)))
