-- ===== src/StressTest/Counters.antt =====
-- What a server of the statsd protocol makes of the counters.
use statsrelay.Prelude.{
  ℕ, ◌≡◌, refl, ap, ◌∙◌, sym, true, List, [], ◌∷◌, ◌++◌, arith, inl, inr, append_assoc, map, subst,
}
use statsrelay.Outcome.{done}
use statsrelay.Bytes.Search.{Lacks}
use statsrelay.Stats.Udp.Lines.{lines_from, lines_from-newline}
use statsrelay.Validate.{Strtod, validate_statsd, is_stat_type}
use statsrelay.Validate.Statsd.{IsTyped}
use statsrelay.Validate.Lines.{IsStatsd, validate_statsd-cases}
use statsrelay.StressTest.{Strtol, Arg, Read, System, main}
use statsrelay.StressTest.Lines.{Lacks-append}
use statsrelay.StressTest.Blocks.{IsKey}
use statsrelay.StressTest.Keys.{AreLines, stream, IsRunnable, main-stream}

-- What a server reads of a counter.
abbrev pub counter_line : List ℕ → List ℕ
counter_line key = key ++ b':' ∷ b'1' ∷ b'|' ∷ b'c' ∷ []

-- A key of the statsd protocol.
pub record IsStatKey (key : List ℕ) : Type 0 where
  pub key_bytes : IsKey key
  pub no_colon : Lacks b':' key

counter_line-IsStatsd :
    (strtod : Strtod) (key : List ℕ)
    → strtod (b'1' ∷ b'|' ∷ b'c' ∷ []) ≡ true
    → IsStatKey key
    → IsStatsd strtod (counter_line key)
unfolding IsTyped is_stat_type
counter_line-IsStatsd strtod key number k = record {
  key = key;
  rest = b'1' ∷ b'|' ∷ b'c' ∷ [];
  cut = refl;
  plain = k.no_colon;
  some_bytes = k.key_bytes.some_bytes;
  valued = record {
    value = b'1' ∷ [];
    rest = b'c' ∷ [];
    cut = refl;
    plain = omega arith;
    number = number;
    typed = inl (omega arith, refl);
  };
}

counter_line-IsAccepted :
    (strtod : Strtod) (key : List ℕ)
    → strtod (b'1' ∷ b'|' ∷ b'c' ∷ []) ≡ true
    → IsStatKey key
    → validate_statsd strtod true (counter_line key) ≡ done 0
counter_line-IsAccepted strtod key number k =
    elim (validate_statsd-cases strtod (counter_line key)
      (Lacks-append 0 key _ k.key_bytes.no_nul (omega arith))) [
        | inl (good, _) ↦ good
        | inr (_, bad) ↦ absurd (bad (counter_line-IsStatsd strtod key number k))
      ]

stream-lines :
    (keys : List (List ℕ)) (reads : List Read)
    → AreLines keys reads
    → lines_from [] (stream keys) ≡ map counter_line keys
unfolding lines_from
stream-lines [] reads lines = refl
stream-lines (key ∷ keys) [] lines = absurd lines
stream-lines (key ∷ keys) (r ∷ reads) lines =
    let (k, _, others) = lines in
    ap (lines_from []) (
      append_assoc key _ (stream keys)
      ∙ sym (append_assoc key (b':' ∷ b'1' ∷ b'|' ∷ b'c' ∷ []) (10 ∷ stream keys)))
    ∙ lines_from-newline [] (counter_line key) (stream keys)
        (Lacks-append 10 key _ k.one_line (omega arith))
    ∙ ap (λ l. counter_line key ∷ l) (stream-lines keys reads others)

-- Every key is one of the statsd protocol.
abbrev pub AreStatKeys : List (List ℕ) → Type 0
AreStatKeys [] = Unit {0}
AreStatKeys (key ∷ keys) = IsStatKey key × AreStatKeys keys

abbrev pub AreAccepted : Strtod → List (List ℕ) → Type 0
AreAccepted strtod [] = Unit {0}
AreAccepted strtod (line ∷ lines) =
    (validate_statsd strtod true line ≡ done 0) × AreAccepted strtod lines

counter_lines-AreAccepted :
    (strtod : Strtod) (keys : List (List ℕ))
    → strtod (b'1' ∷ b'|' ∷ b'c' ∷ []) ≡ true
    → AreStatKeys keys
    → AreAccepted strtod (map counter_line keys)
counter_lines-AreAccepted strtod [] number k = tt
counter_lines-AreAccepted strtod (key ∷ keys) number (k, others) = (
  counter_line-IsAccepted strtod key number k,
  counter_lines-AreAccepted strtod keys number others,
)

-- If the stress test runs (its options are read to their end and give a port and a file, the
-- socket, the connection, the file and the clock can be had, getline reads one line at least, each
-- a key without newline or NUL that is not empty, there is memory, and send(2) always takes a byte
-- at least) and no key has a colon, then main returns 0, and the bytes that it sends are, line by
-- line, each key followed by `:1|c`, in their order, and validate_statsd returns 0 for each line,
-- where strtod converts the start of `1|c`.
pub main-AreAccepted :
    (strtol : Strtol) (strtod : Strtod) (args : List Arg) (sys : System) (keys : List (List ℕ))
    → IsRunnable strtol args sys keys
    → strtod (b'1' ∷ b'|' ∷ b'c' ∷ []) ≡ true
    → AreStatKeys keys
    → (out : List ℕ) × (main strtol args sys ≡ done (0, out))
      × (lines_from [] out ≡ map counter_line keys)
      × AreAccepted strtod (lines_from [] out)
main-AreAccepted strtol strtod args sys keys r number k =
    let lines = stream-lines keys r.reads r.lines in
    (
      stream keys,
      main-stream strtol args sys keys r,
      lines,
      subst (AreAccepted strtod) (sym lines) (counter_lines-AreAccepted strtod keys number k),
    )
