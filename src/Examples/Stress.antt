-- ===== src/Examples/Stress.antt =====
-- A run of the stress test over a file of two keys.
use statsrelay.Prelude.{
  ℕ, ◌≡◌, refl, true, none, some, List, [], ◌∷◌, arith, inl, inr, replicate, length-replicate, map,
}
use statsrelay.Outcome.{done, undefined}
use statsrelay.Stats.Udp.Lines.{lines_from}
use statsrelay.Validate.{Strtod}
use statsrelay.StressTest.{Strtol, Arg, port, stat_names, Read, System, parse_options, main}
use statsrelay.StressTest.Blocks.{IsKey, IsLine}
use statsrelay.StressTest.Keys.{stream, IsRunnable, main-stream, main_empty_line}
use statsrelay.StressTest.Counters.{counter_line, AreAccepted, main-AreAccepted}

abbrev one_key : List ℕ
one_key = b'a' ∷ b'b' ∷ []

abbrev last_key : List ℕ
last_key = b'c' ∷ []

abbrev read_block : ℕ → List ℕ → Read
read_block read block = record {
  read = read;
  block = block;
  fresh = λ n. some (replicate n 7);
  send = λ left. some 1;
}

-- The last line lacks its newline.
abbrev two_lines : List Read
two_lines = read_block 3 (b'a' ∷ b'b' ∷ 10 ∷ 0 ∷ []) ∷ read_block 1 (b'c' ∷ 0 ∷ 10 ∷ 0 ∷ []) ∷ []

abbrev answering : List Read → System
answering reads = record {
  socket = true;
  connects = λ port_number. true;
  files = λ name. some reads;
  start_time = true;
  end_time = true;
}

abbrev to_port : Strtol
to_port text = 8125

abbrev arguments : List Arg
arguments = port (b'8' ∷ b'1' ∷ b'2' ∷ b'5' ∷ []) ∷ stat_names (b'f' ∷ []) true ∷ []

one_key-IsKey : IsKey one_key
one_key-IsKey = record { some_bytes = omega arith; one_line = omega arith; no_nul = omega arith }

last_key-IsKey : IsKey last_key
last_key-IsKey = record { some_bytes = omega arith; one_line = omega arith; no_nul = omega arith }

one_key-IsLine : IsLine one_key (10 ∷ []) (read_block 3 (b'a' ∷ b'b' ∷ 10 ∷ 0 ∷ []))
one_key-IsLine = record {
  ends = inr refl;
  rest = [];
  measured = refl;
  filled = refl;
  limited = omega arith;
  memory = λ n. (replicate n 7, refl, length-replicate n 7);
  sends = λ left pos. (1, refl, omega arith, omega arith);
}

last_key-IsLine : IsLine last_key [] (read_block 1 (b'c' ∷ 0 ∷ 10 ∷ 0 ∷ []))
last_key-IsLine = record {
  ends = inl refl;
  rest = 10 ∷ 0 ∷ [];
  measured = refl;
  filled = refl;
  limited = omega arith;
  memory = λ n. (replicate n 7, refl, length-replicate n 7);
  sends = λ left pos. (1, refl, omega arith, omega arith);
}

runnable : IsRunnable to_port arguments (answering two_lines) (one_key ∷ last_key ∷ [])
unfolding parse_options
runnable = record {
  options = record { port_number = 8125; names = some (b'f' ∷ []) };
  name = b'f' ∷ [];
  reads = two_lines;
  read_to_end = refl;
  named = refl;
  some_port = omega arith;
  socket = refl;
  connected = refl;
  file = refl;
  times = (refl, refl);
  lines = (one_key-IsKey, (10 ∷ [], one_key-IsLine), (last_key-IsKey, ([], last_key-IsLine), tt));
  some_keys = omega arith;
}

main-stream_example :
    main to_port arguments (answering two_lines) ≡ done (0, stream (one_key ∷ last_key ∷ []))
main-stream_example =
    main-stream to_port arguments (answering two_lines) (one_key ∷ last_key ∷ []) runnable

-- strtod converts everything here.
abbrev numbers : Strtod
numbers bytes = true

main-AreAccepted_example :
    (out : List ℕ) × (main to_port arguments (answering two_lines) ≡ done (0, out))
    × (lines_from [] out ≡ map counter_line (one_key ∷ last_key ∷ []))
    × AreAccepted numbers (lines_from [] out)
main-AreAccepted_example =
    main-AreAccepted to_port numbers arguments (answering two_lines) (one_key ∷ last_key ∷ [])
      runnable refl
      (
        record { key_bytes = one_key-IsKey; no_colon = omega arith },
        (record { key_bytes = last_key-IsKey; no_colon = omega arith }, tt),
      )

abbrev empty_line : List Read
empty_line = read_block 1 (10 ∷ 0 ∷ []) ∷ []

options_read :
    parse_options to_port arguments (record { port_number = 0; names = none })
    ≡ some (record { port_number = 8125; names = some (b'f' ∷ []) })
unfolding parse_options
options_read = refl

main_empty_line_example : main to_port arguments (answering empty_line) ≡ undefined
main_empty_line_example =
    main_empty_line to_port arguments (answering empty_line)
      (record { port_number = 8125; names = some (b'f' ∷ []) }) (b'f' ∷ []) []
      (read_block 1 (10 ∷ 0 ∷ [])) [] options_read refl (omega arith) refl refl refl refl refl refl
      (λ n. (replicate n 7, refl))
