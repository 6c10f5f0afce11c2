-- ===== src/Log/Whole.antt =====
-- What is written of a message that nothing cuts short.
use statsrelay.Prelude.{
  ℕ, ◌≤◌, ◌<◌, ◌≡◌, refl, ap, ap₂, ◌∙◌, Bool, true, some, List, [], ◌∷◌, ◌++◌, if◌then◌else◌, ltb,
  length, arith, Bool-cases, inl, inr,
}
use statsrelay.Outcome.{done}
use statsrelay.Log.{
  log_buf_size, Logger, Sinks, Libc, line_end, print_text, put_message, fill, shrink, write_log,
  stats_vlog,
}
use statsrelay.Log.Fill.{TakesBytes, write_text-whole}
use statsrelay.Log.Messages.{IsReady, no_buffer, a_buffer, first_message, later_message}

-- A text that fits each of the calls, where memory is plenty: the block has 256 bytes behind it.
shrink-256 :
    (libc : Libc) (log : Logger) (n : ℕ)
    → ((m : ℕ) → libc.realloc m ≡ true)
    → log_buf_size ≤ n
    → shrink libc (record log { fmt_buf = some n; fmt_buf_size = n })
      ≡ record log { fmt_buf = some log_buf_size; fmt_buf_size = log_buf_size }
unfolding shrink
shrink-256 libc log n memory large = elim (Bool-cases (ltb log_buf_size n)) [
  | inl grown ↦ rw (grown, memory log_buf_size, shrink) refl
  | inr same ↦
      let exact : n ≡ log_buf_size = ground (arith, same, large) in
      rw (same, shrink) (ap (λ k. record log { fmt_buf = some k; fmt_buf_size = k }) exact)
]

put_message-whole :
    (fwrite : ℕ → ℕ) (prefix : List ℕ) (verbose : Bool) (text : List ℕ) (sinks : Sinks)
    → TakesBytes fwrite
    → put_message fwrite prefix verbose text sinks ≡ record {
      err = sinks.err ++ (if verbose then prefix ++ text ++ line_end else []);
      syslog = sinks.syslog ++ text ∷ [];
    }
unfolding put_message print_text
put_message-whole fwrite prefix verbose text sinks takes =
    rw (write_text-whole (length text) fwrite text takes (omega arith)) refl

write_log-whole :
    (libc : Libc) (prefix text : List ℕ) (log : Logger) (sinks : Sinks)
    → libc.vsnprintf 0 ≡ some text
    → ((n : ℕ) → libc.realloc n ≡ true)
    → TakesBytes libc.fwrite
    → length text < log.fmt_buf_size
    → log_buf_size ≤ log.fmt_buf_size
    → write_log libc prefix log sinks
      ≡ done (
        record log { fmt_buf = some log_buf_size; fmt_buf_size = log_buf_size },
        record {
          err = sinks.err ++ (if log.verbose then prefix ++ text ++ line_end else []);
          syslog = sinks.syslog ++ text ∷ [];
        },
      )
unfolding write_log fill
write_log-whole libc prefix text log sinks prints memory takes short large =
    let fits : ltb (length text) log.fmt_buf_size ≡ true = ground (arith, short) in
    rw (prints, fits, fill, write_log)
      (ap₂ (λ l s. done (l, s)) (shrink-256 libc log log.fmt_buf_size memory large)
        (put_message-whole libc.fwrite prefix log.verbose text sinks takes))

-- The size of the buffer that the first call of vsnprintf gets.
abbrev pub room : Logger → ℕ
room log = if ltb log.fmt_buf_size log_buf_size then log_buf_size else log.fmt_buf_size

-- If memory is plenty, the first call of vsnprintf gives a text that is shorter than the buffer
-- (256 bytes where there is none yet) and fwrite always takes a byte, and no more than it is given,
-- then stats_vlog, with a buffer that is not there or has at least 256 bytes and less than 2^31,
-- gives the whole text to syslog, and in verbose mode writes the prefix, the whole text and a
-- newline to standard error, and the buffer has 256 bytes behind it, whatever later calls of
-- vsnprintf would give.
pub stats_vlog_lem :
    (libc : Libc) (prefix text : List ℕ) (log : Logger) (sinks : Sinks)
    → IsReady log
    → libc.malloc ≡ true
    → ((n : ℕ) → libc.realloc n ≡ true)
    → libc.vsnprintf 0 ≡ some text
    → TakesBytes libc.fwrite
    → length text < room log
    → stats_vlog libc prefix log sinks
      ≡ done (
        record log { fmt_buf = some log_buf_size; fmt_buf_size = log_buf_size },
        record {
          err = sinks.err ++ (if log.verbose then prefix ++ text ++ line_end else []);
          syslog = sinks.syslog ++ text ∷ [];
        },
      )
unfolding stats_vlog
stats_vlog_lem libc prefix text log sinks (a_buffer buffer large small) has_malloc memory prints
      takes short =
    later_message libc prefix log sinks log.fmt_buf_size buffer
    ∙ write_log-whole libc prefix text log sinks prints memory takes (ground (arith, short, large))
        large
stats_vlog_lem libc prefix text log sinks (no_buffer absent size) has_malloc memory prints takes
      short =
    first_message libc prefix log sinks absent has_malloc
    ∙ write_log-whole libc prefix text
        (record log { fmt_buf = some log_buf_size; fmt_buf_size = log_buf_size }) sinks prints
        memory takes (ground (arith, short, size)) (omega arith)
