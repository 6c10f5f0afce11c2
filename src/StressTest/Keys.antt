-- ===== src/StressTest/Keys.antt =====
-- The keys of a file, sent as counters.
use statsrelay.Prelude.{
  ℕ, ◌+◌, ◌<◌, ◌≡◌, refl, ap, true, false, none, some, List, [], ◌∷◌, ◌++◌, ◌==◌, length, arith,
}
use statsrelay.Outcome.{done, undefined}
use statsrelay.StressTest.{Strtol, Arg, Options, parse_options, Read, send_lines, System, run, main}
use statsrelay.StressTest.Lines.{counter, send_line_lem, send_line-empty}
use statsrelay.StressTest.Blocks.{IsKey, IsLine}

-- The lines of a file hold the keys, in their order.
abbrev pub AreLines : List (List ℕ) → List Read → Type 0
AreLines [] [] = Unit {0}
AreLines [] (r ∷ reads) = ⊥
AreLines (key ∷ keys) [] = ⊥
AreLines (key ∷ keys) (r ∷ reads) =
    IsKey key × ((ending : List ℕ) × IsLine key ending r) × AreLines keys reads

-- What main sends for the keys.
abbrev pub stream : List (List ℕ) → List ℕ
stream [] = []
stream (key ∷ keys) = counter key ++ stream keys

send_lines_lem :
    (keys : List (List ℕ)) (reads : List Read) (sent : ℕ)
    → AreLines keys reads
    → send_lines reads sent ≡ done (some (sent + length keys), stream keys)
unfolding send_lines
send_lines_lem [] [] sent lines = ap (λ n. done (some n, [])) (omega arith)
send_lines_lem [] (r ∷ reads) sent lines = absurd lines
send_lines_lem (key ∷ keys) [] sent lines = absurd lines
send_lines_lem (key ∷ keys) (r ∷ reads) sent lines =
    let (k, (ending, l), others) = lines in
    rw (send_line_lem key ending r k l, send_lines_lem keys reads (sent + 1) others)
      (ap (λ n. done (some n, stream (key ∷ keys))) {x = sent + 1 + length keys} (omega arith))

-- The options are read to their end and give a port and a file, and the system answers.
pub record IsRunnable (strtol : Strtol) (args : List Arg) (sys : System) (keys : List (List ℕ))
    : Type 0 where
  pub options : Options
  pub name : List ℕ
  pub reads : List Read
  pub read_to_end :
      parse_options strtol args (record { port_number = 0; names = none }) ≡ some options
  pub named : options.names ≡ some name
  pub some_port : 0 < options.port_number
  pub socket : sys.socket ≡ true
  pub connected : sys.connects options.port_number ≡ true
  pub file : sys.files name ≡ some reads
  pub times : (sys.start_time ≡ true) × (sys.end_time ≡ true)
  pub lines : AreLines keys reads
  pub some_keys : 0 < length keys

-- If the options of the stress test are read to their end and give a port and a file, the socket,
-- the connection, the file and the clock can be had, getline reads one line at least, each a key
-- without newline or NUL that is not empty, with or without a newline behind it, there is memory,
-- and send(2) always takes a byte at least and no more than it is given: then main stays within its
-- blocks, ends with 0, and sends each key followed by `:1|c` and a newline, in their order.
pub main-stream :
    (strtol : Strtol) (args : List Arg) (sys : System) (keys : List (List ℕ))
    → IsRunnable strtol args sys keys
    → main strtol args sys ≡ done (0, stream keys)
unfolding main run
main-stream strtol args sys keys r =
    let test : (r.options.port_number == 0) ≡ false = ground (arith, r.some_port) in
    let some_sent : (0 + length keys == 0) ≡ false = ground (arith, r.some_keys) in
    rw
      (
        r.read_to_end,
        r.named,
        test,
        r.socket,
        r.connected,
        r.file,
        r.times.0,
        send_lines_lem keys r.reads 0 r.lines,
        r.times.1,
        some_sent,
        main,
        run,
      )
      refl

-- If the options of the stress test are read to their end and give a port and a file, the socket,
-- the connection, the file and the first time can be had, there is memory, and the first line that
-- getline reads is empty but for its newline, then main reads before the start of its block.
pub main_empty_line :
    (strtol : Strtol) (args : List Arg) (sys : System) (o : Options) (name rest : List ℕ) (r : Read)
    (reads : List Read)
    → parse_options strtol args (record { port_number = 0; names = none }) ≡ some o
    → o.names ≡ some name
    → 0 < o.port_number
    → sys.socket ≡ true
    → sys.connects o.port_number ≡ true
    → sys.files name ≡ some (r ∷ reads)
    → sys.start_time ≡ true
    → r.read ≡ 1
    → r.block ≡ 10 ∷ 0 ∷ rest
    → ((n : ℕ) → (bytes : List ℕ) × (r.fresh n ≡ some bytes))
    → main strtol args sys ≡ undefined
unfolding main run send_lines
main_empty_line strtol args sys o name rest r reads parsed named some_port socket connected file
      time one block memory =
    let test : (o.port_number == 0) ≡ false = ground (arith, some_port) in
    rw
      (
        parsed,
        named,
        test,
        socket,
        connected,
        file,
        time,
        send_line-empty rest r one block memory,
        main,
        run,
        send_lines,
      )
      refl
