-- ===== src/Stats/Safety/Session.antt =====
-- stats_recv on a session: it returns, and leaves a buffer and a server that are sound.
use statsrelay.Prelude.{
  ℕ, zero, suc, ◌+◌, ◌≤◌, ◌<◌, ◌≡◌, ◌≢◌, refl, ap, ◌∙◌, sym, subst, Option, none, some, List, [],
  ◌++◌, ◌==◌, length, take, u64, arith, Bool-cases, Option-cases, inl, inr, length-take,
}
use statsrelay.Outcome.{Outcome, done, undefined, map_outcome, Holds}
use statsrelay.Bytes.{memchr}
use statsrelay.Bytes.Search.{memchr-lt}
use statsrelay.Buffer
use statsrelay.Buffer.{Malloc, Buffer, datacount, spacecount, consume, copy_in, ok}
use statsrelay.Buffer.Invariant.{
  IsValid, IsMalloc, consume-IsValid, copy_in-IsValid, produced-IsValid, Status-cases,
}
use statsrelay.Buffer.Queue.{contents, contents-produced}
use statsrelay.Buffer.Growth.{size-consume, size-produced}
use statsrelay.Client.Transfer.{Recv, failed, closed, got}
use statsrelay.Stats.{Server}
use statsrelay.Stats.Relay.{newline}
use statsrelay.Stats.Session.{
  World, Processed, respond, stopped, close_unless, read_space, process_lines, stats_recv,
}
use statsrelay.Stats.Lines.{serve_line, continue, view, process_lines-line, process_lines-eq-feed}
use statsrelay.Stats.Reads.{read_space-IsReadable}
use statsrelay.Stats.Safety.{IsSound, AreShort, IsHonest, feed-IsSound}

-- The buffer that is left is valid and has the size that it had.
abbrev HasBuffer : ℕ → Processed Buffer → Type 0
HasBuffer size p = IsValid p.left × (p.left.size ≡ size)

respond-HasBuffer :
    (size : ℕ) (out : List ℕ) (o : Outcome (Processed Buffer))
    → Holds (HasBuffer size) o
    → Holds (HasBuffer size) (map_outcome (respond out) o)
respond-HasBuffer size out (done p) h = h
respond-HasBuffer size out undefined h = tt

continue-HasBuffer :
    (size : ℕ) (o : Outcome (ℕ × List ℕ × Server)) (next : Server → Outcome (Processed Buffer))
    (stay : Buffer)
    → IsValid stay × (stay.size ≡ size)
    → ((ss : Server) → Holds (HasBuffer size) (next ss))
    → Holds (HasBuffer size) (continue o next stay)
continue-HasBuffer size undefined next stay v h = tt
continue-HasBuffer size (done (code, out, ss)) next stay v h = elim (Bool-cases (code == 0)) [
  | inr other ↦ rw (other, continue) v
  | inl zero_code ↦ rw (zero_code, continue) (respond-HasBuffer size out (next ss) (h ss))
]

process_lines-HasBuffer :
    (rounds : ℕ) (world : World) (b : Buffer) (ss : Server)
    → IsValid b
    → Holds (HasBuffer b.size) (process_lines rounds world b ss)
process_lines-HasBuffer zero world b ss v = unfold process_lines in (v, refl)
process_lines-HasBuffer (suc rounds) world b ss v = elim (Bool-cases (datacount b == 0)) [
  | inl empty ↦ unfold process_lines in rw (empty, process_lines) (v, refl)
  | inr some_bytes ↦ elim (Option-cases (memchr newline (contents b))) [
    | inl alone ↦ unfold process_lines in rw (some_bytes, alone, process_lines) (v, refl)
    | inr (len, found) ↦
        let inside = memchr-lt newline (contents b) len found in
        let rest = (consume b (len + 1)).1 in
        subst (Holds (HasBuffer b.size))
          (sym (
            process_lines-line rounds world b ss len some_bytes found
              (omega (arith, inside, length-take len (contents b)))))
          (continue-HasBuffer b.size (serve_line world (take len (contents b)) ss)
            (process_lines rounds world rest) b (v, refl)
            (λ ss'.
              subst (λ n. Holds (HasBuffer n) (process_lines rounds world rest ss'))
                (size-consume b (len + 1))
                (process_lines-HasBuffer rounds world rest ss' (consume-IsValid (len + 1) v))))
  ]
]

done_of_map :
    {A B : Type 0}
    → (f : A → B) (o : Outcome A) (b : B) → map_outcome f o ≡ done b
    → (a : A) × (o ≡ done a) × (f a ≡ b)
done_of_map f (done a) b e = (a, refl, cc)
done_of_map f undefined b e = absurd (cc e)

-- What is left of a session: a valid buffer that is not of size 0, or nothing, with a result other than 0.
abbrev pub IsSession : ℕ → Option Buffer → Type 0
IsSession code none = code ≢ 0
IsSession code (some b) = IsValid b × (0 < b.size)

-- recv(2) returns no more bytes than there is room for, and each complete line is short.
abbrev pub IsReceived : Malloc → Recv → Buffer → Type 0
IsReceived malloc (got bytes) b =
    (length bytes ≤ spacecount (read_space malloc b).1) × AreShort [] (contents b ++ bytes)
IsReceived malloc _ b = Unit {0}

close_unless-IsSession :
    (p : Processed Buffer) (size : ℕ)
    → 0 < size
    → HasBuffer size p
    → IsSession (close_unless p).code (close_unless p).left
close_unless-IsSession p size pos (v, same) = elim (Bool-cases (p.code == 0)) [
  | inl zero_code ↦ rw zero_code (v, omega (arith, pos, same))
  | inr other ↦ rw other (λ e. omega (arith, e))
]

-- The line loop on a buffer with short lines.
process_lines-IsSound :
    (world : World) (b : Buffer) (ss : Server)
    → IsHonest world
    → IsValid b
    → AreShort [] (contents b)
    → IsSound ss
    → (p : Processed Buffer) × (process_lines (datacount b) world b ss ≡ done p)
      × IsSound p.server
      × HasBuffer b.size p
process_lines-IsSound world b ss honest v short s =
    let (fed, feeds, sound) = feed-IsSound world [] (contents b) ss honest short s in
    let (p, runs, same) =
      done_of_map view (process_lines (datacount b) world b ss) fed
        (process_lines-eq-feed (datacount b) world b ss v (omega arith) ∙ feeds) in
    (
      p,
      runs,
      subst IsSound (sym (ap (λ (q : Processed (List ℕ)). q.server) same)) sound,
      subst (Holds (HasBuffer b.size)) runs (process_lines-HasBuffer (datacount b) world b ss v),
    )

-- x
pub stats_recv-IsSound :
    (malloc : Malloc) (recv : Recv) (world : World) (b : Buffer) (ss : Server)
    → IsMalloc malloc
    → IsHonest world
    → IsValid b
    → 0 < b.size
    → IsReceived malloc recv b
    → IsSound ss
    → (p : Processed (Option Buffer)) × (stats_recv malloc recv world b ss ≡ done p)
      × IsSound p.server
      × IsSession p.code p.left
unfolding stats_recv
stats_recv-IsSound malloc recv world b ss m honest v pos received s =
    elim (Status-cases (read_space malloc b).0) [
      | inr full ↦ (stopped 1 none ss, rw (full, stats_recv) refl, s, λ e. omega (arith, e))
      | inl ready ↦ by_recv recv ready received
    ]
  where
    by_recv :
        (answer : Recv)
        → (read_space malloc b).0 ≡ ok
        → IsReceived malloc answer b
        → (p : Processed (Option Buffer)) × (stats_recv malloc answer world b ss ≡ done p)
          × IsSound p.server
          × IsSession p.code p.left
    by_recv failed ready h =
        (stopped 1 none ss, rw (ready, stats_recv) refl, s, λ e. omega (arith, e))
    by_recv closed ready h =
        (stopped 1 none ss, rw (ready, stats_recv) refl, s, λ e. omega (arith, e))
    by_recv (got bytes) ready (fits, short) =
        let r = read_space-IsReadable b m v pos in
        let b1 = (read_space malloc b).1 in
        let b2 = (Buffer.produced (copy_in b1 b1.tail bytes) (length bytes)).1 in
        let (status, grown) = contents-produced bytes r.valid fits in
        let ss1 = record ss { bytes_recv_tcp = u64 (ss.bytes_recv_tcp + length bytes) } in
        let s1 : IsSound ss1 = record {
          ready = record { opened = s.ready.opened; live = s.ready.live };
          bounded = s.bounded;
        } in
        let valid : IsValid b2 =
          produced-IsValid (length bytes)
            (copy_in-IsValid b1.tail bytes r.valid (omega (arith, r.valid, fits))) in
        let lines : AreShort [] (contents b2) =
          subst (AreShort []) (sym (grown ∙ ap (λ l. l ++ bytes) r.kept)) short in
        let (p, runs, sound, kept) = process_lines-IsSound world b2 ss1 honest valid lines s1 in
        (
          close_unless p,
          rw (ready, status, runs, stats_recv) refl,
          sound,
          close_unless-IsSession p b2.size
              (omega (arith, r.room ready, r.valid, size-produced b1 b1.tail (length bytes) bytes))
              kept,
        )
