-- ===== src/Stats/Report/Sending.antt =====
-- The statistics as a session's socket gets them, and the answer to the line `status`.
use statsrelay.Prelude.{
  ℕ, ◌-◌, ◌≤◌, ◌<◌, ◌≡◌, refl, sym, ap, ◌∙◌, true, false, Option, none, some, List, [], ◌∷◌, ◌++◌,
  ◌==◌, length, take, arith, inl, inr, ◌⊎◌, subst, take-append-drop, append-nil,
}
use statsrelay.Outcome.{done, map_outcome}
use statsrelay.Buffer.{
  Buffer, Malloc, datacount, spacecount, create_buffer, allocate, consume, unset, Status, ok,
}
use statsrelay.Buffer.Invariant.{IsValid, IsMalloc, consume-IsValid}
use statsrelay.Buffer.Queue.{contents, length-contents, consume_lem}
use statsrelay.Stats.{Server}
use statsrelay.Stats.Relay.{newline}
use statsrelay.Stats.Report.{max_udp_length, print_statistics, send_response, send_statistics}
use statsrelay.Stats.Report.Text.{
  statistics_texts, statistics, texts_kept, texts_kept_all, contents-print_statistics,
}
use statsrelay.Stats.Session.{World, process_lines, is_status, status_line}
use statsrelay.Stats.Lines.{feed, serve_line, view, process_lines-eq-feed}

-- Each send(2) takes a byte at least, and no more than are left, until none is left.
abbrev pub IsTaking : List (Option ℕ) → ℕ → Type 0
IsTaking [] left = left ≡ 0
IsTaking (none ∷ sends) left = left ≡ 0
IsTaking (some n ∷ sends) left = (left ≡ 0) ⊎ ((0 < n) × (n ≤ left) × IsTaking sends (left - n))

empty_of_length : (xs : List ℕ) → length xs ≡ 0 → [] ≡ xs
empty_of_length [] h = refl
empty_of_length (x ∷ xs) h = absurd (omega (arith, h))

consumed_count :
    (b : Buffer) (n : ℕ) → IsValid b → n ≤ datacount b → datacount (consume b n).1 ≡ datacount b - n
unfolding consume
consumed_count b n v h = ground arith

send_response_lem :
    (sends : List (Option ℕ)) (b : Buffer)
    → IsValid b
    → IsTaking sends (datacount b)
    → send_response sends b ≡ contents b
unfolding send_response
send_response_lem [] b v left = empty_of_length (contents b) (length-contents v ∙ left)
send_response_lem (none ∷ sends) b v left = empty_of_length (contents b) (length-contents v ∙ left)
send_response_lem (some n ∷ sends) b v (inl left) =
    let test : (datacount b == 0) ≡ true = ground (arith, left) in
    rw (test, send_response) (empty_of_length (contents b) (length-contents v ∙ left))
send_response_lem (some n ∷ sends) b v (inr (pos, fits, others)) =
    let some_left : (datacount b == 0) ≡ false = ground (arith, pos, fits) in
    let some_sent : (n == 0) ≡ false = ground (arith, pos) in
    rw (some_left, some_sent, send_response)
      (ap (λ l. take n (contents b) ++ l)
          (send_response_lem sends (consume b n).1 (consume-IsValid n v)
              (subst (IsTaking sends) (sym (consumed_count b n v fits)) others)
            ∙ ((consume_lem n v).0 fits).1)
        ∙ take-append-drop n (contents b))

abbrev fresh : List ℕ → Buffer
fresh block = record { mem = block; head = 0; tail = 0; size = max_udp_length }

created :
    (malloc : Malloc) (block : List ℕ)
    → malloc max_udp_length ≡ some block
    → create_buffer malloc max_udp_length ≡ some (fresh block)
unfolding create_buffer allocate
created malloc block given =
    let allocated : allocate malloc unset max_udp_length ≡ (ok, fresh block) =
      rw (given, allocate) refl in
    rw (allocated, create_buffer) (ap (λ (r : Status × Buffer). some r.1) allocated)

-- The texts printed into an empty buffer, and sent.
printed_and_sent :
    (sends : List (Option ℕ)) (ss : Server) (b : Buffer) (space : ℕ)
    → IsValid b
    → contents b ≡ []
    → spacecount b ≡ space
    → IsTaking sends (length (texts_kept space (statistics_texts ss)))
    → send_response sends (print_statistics b ss) ≡ texts_kept space (statistics_texts ss)
printed_and_sent sends ss b space v empty free taking =
    let r = contents-print_statistics b ss v in
    let text : contents (print_statistics b ss) ≡ texts_kept space (statistics_texts ss) =
      r.printed
      ∙ ap (λ l. l ++ texts_kept (spacecount b) (statistics_texts ss)) empty
      ∙ ap (λ n. texts_kept n (statistics_texts ss)) free in
    send_response_lem sends (print_statistics b ss) r.valid
      (subst (IsTaking sends) (sym (ap length text) ∙ length-contents r.valid) taking)
    ∙ text

-- Where malloc keeps its contract and gives the buffer of 65536 bytes, and each send(2) takes a
-- byte at least and no more than are left until none is left, stats_send_statistics sends of the
-- lines of the statistics, one after the other: a line that is shorter than the free space whole; a
-- line that has the length of the free space with a NUL as its last byte; nothing of a longer line.
pub send_statistics_lem :
    (malloc : Malloc) (sends : List (Option ℕ)) (ss : Server) (block : List ℕ)
    → IsMalloc malloc
    → malloc max_udp_length ≡ some block
    → IsTaking sends (length (texts_kept max_udp_length (statistics_texts ss)))
    → send_statistics malloc sends ss ≡ texts_kept max_udp_length (statistics_texts ss)
unfolding send_statistics
send_statistics_lem malloc sends ss block m given taking =
    let v : IsValid (fresh block) = record {
      ordered = omega arith;
      within = omega arith;
      block = m.sized max_udp_length block given;
      small = omega arith;
    } in
    rw (created malloc block given, send_statistics)
      (printed_and_sent sends ss (fresh block) max_udp_length v refl refl taking)

-- If a session's buffer is valid and holds the line `status` alone, malloc keeps its contract and
-- gives the buffer for the answer, the statistics are shorter than 65536 bytes, and each send(2)
-- takes a byte at least and no more than are left until none is left, then the line loop returns 0,
-- sends all of the statistics (five lines for the server, five for each backend of its list and an
-- empty line), leaves the buffer empty and does not change the server.
pub status_answered :
    (world : World) (b : Buffer) (ss : Server) (block : List ℕ)
    → IsValid b
    → contents b ≡ status_line ++ newline ∷ []
    → IsMalloc world.response_memory
    → world.response_memory max_udp_length ≡ some block
    → length (statistics ss) < max_udp_length
    → IsTaking (world.sends ss) (length (statistics ss))
    → map_outcome view (process_lines (datacount b) world b ss)
      ≡ done (record { code = 0; responses = statistics ss; left = []; server = ss })
unfolding feed serve_line is_status
status_answered world b ss block v line m given short taking =
    let whole = texts_kept_all max_udp_length (statistics_texts ss) short in
    let text =
      send_statistics_lem world.response_memory (world.sends ss) ss block m given
        (subst (λ l. IsTaking (world.sends ss) (length l)) (sym whole) taking) in
    process_lines-eq-feed (datacount b) world b ss v (omega arith)
    ∙ ap (λ l. feed world [] l ss) line
    ∙ ap (λ out. done (record { code = 0; responses = out; left = []; server = ss }))
        (append-nil _ ∙ text ∙ whole)
