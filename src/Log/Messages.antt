-- ===== src/Log/Messages.antt =====
-- What a message does to the log, and what is written of it.
use statsrelay.Prelude.{
  ℕ, zero, suc, ◌*◌, ◌^◌, ◌≤◌, ◌<◌, ◌≡◌, refl, ◌∙◌, sym, subst, true, none, some, List, ltb, leb,
  arith, Bool-cases, inl, inr,
}
use statsrelay.Outcome.{Outcome, done}
use statsrelay.Log.{
  log_buf_size, log_error, error_prefix, Logger, Sinks, Libc, Filled, fill, put_message,
  stats_log_end, shrink, write_log, stats_vlog, stats_error_log,
}
use statsrelay.Log.Fill.{AreShort, IsFilled, a_failure, no_memory, a_text, fill-IsFilled, doubled}

-- No buffer, or one of 256 bytes at least, of the size that is noted.
pub data IsReady (log : Logger) : Type 0 where
  no_buffer : log.fmt_buf ≡ none → log.fmt_buf_size ≡ 0 → IsReady log
  a_buffer :
      log.fmt_buf ≡ some log.fmt_buf_size
      → log_buf_size ≤ log.fmt_buf_size
      → log.fmt_buf_size < 2 ^ 31
      → IsReady log

-- What a message leaves of the log.
pub record IsLogged (log : Logger) (o : Outcome (Logger × Sinks)) : Type 0 where
  pub after : Logger
  pub sinks : Sinks
  pub returns : o ≡ done (after, sinks)
  pub ready : IsReady after
  pub verbose : after.verbose ≡ log.verbose
  pub level : after.level ≡ log.level

doubled_mono : (n a b : ℕ) → a ≤ b → doubled n a ≤ doubled n b
doubled_mono zero a b h = h
doubled_mono (suc n) a b h = doubled_mono n (a * 2) (b * 2) (omega arith)

-- A log after its block was made small.
record IsShrunk (log small : Logger) : Type 0 where
  ready : IsReady small
  verbose : small.verbose ≡ log.verbose
  level : small.level ≡ log.level

shrink-IsShrunk :
    (libc : Libc) (log : Logger)
    → log.fmt_buf ≡ some log.fmt_buf_size
    → log_buf_size ≤ log.fmt_buf_size
    → log.fmt_buf_size < 2 ^ 31
    → IsShrunk log (shrink libc log)
unfolding shrink stats_log_end
shrink-IsShrunk libc log buffer large small =
    elim (Bool-cases (ltb log_buf_size log.fmt_buf_size)) [
      | inr same ↦
          rw (same, shrink)
            (record { ready = a_buffer buffer large small; verbose = refl; level = refl })
      | inl grown ↦ elim (Bool-cases (libc.realloc log_buf_size)) [
        | inl memory ↦
            rw (grown, memory, shrink)
              (record {
                ready = a_buffer refl (omega arith) (omega arith);
                verbose = refl;
                level = refl;
              })
        | inr out_of_memory ↦
            rw (grown, out_of_memory, shrink)
              (record { ready = no_buffer refl refl; verbose = refl; level = refl })
      ]
    ]

write_log-IsLogged :
    (libc : Libc) (prefix : List ℕ) (log : Logger) (sinks : Sinks)
    → AreShort libc
    → log.fmt_buf ≡ some log.fmt_buf_size
    → log_buf_size ≤ log.fmt_buf_size
    → log.fmt_buf_size < 2 ^ 31
    → IsLogged log (write_log libc prefix log sinks)
unfolding write_log
write_log-IsLogged libc prefix log sinks short buffer large small =
    by_result (fill 23 libc 0 log.fmt_buf_size) refl (
      fill-IsFilled 22 libc 0 log.fmt_buf_size short small
        (doubled_mono 22 256 log.fmt_buf_size large))
  where
    by_result :
        (f : Filled)
        → fill 23 libc 0 log.fmt_buf_size ≡ f
        → IsFilled log.fmt_buf_size f
        → IsLogged log (write_log libc prefix log sinks)
    by_result f e (a_failure n h bound) = record {
      after = record log { fmt_buf = some n; fmt_buf_size = n };
      sinks = sinks;
      returns = rw (e, write_log) refl;
      ready = a_buffer refl (omega arith) bound;
      verbose = refl;
      level = refl;
    }
    by_result f e no_memory = record {
      after = stats_log_end log;
      sinks = sinks;
      returns = rw (e, write_log) refl;
      ready = unfold stats_log_end in no_buffer refl refl;
      verbose = unfold stats_log_end in refl;
      level = unfold stats_log_end in refl;
    }
    by_result f e (a_text text n h bound fits) =
        let grown = record log { fmt_buf = some n; fmt_buf_size = n } in
        let s = shrink-IsShrunk libc grown refl (omega arith) bound in
        record {
          after = shrink libc grown;
          sinks = put_message libc.fwrite prefix log.verbose text sinks;
          returns = rw (e, write_log) refl;
          ready = s.ready;
          verbose = s.verbose;
          level = s.level;
        }

-- The first message makes the block.
pub first_message :
    (libc : Libc) (prefix : List ℕ) (log : Logger) (sinks : Sinks)
    → log.fmt_buf ≡ none
    → libc.malloc ≡ true
    → stats_vlog libc prefix log sinks
      ≡ write_log libc prefix
          (record log { fmt_buf = some log_buf_size; fmt_buf_size = log_buf_size })
          sinks
unfolding stats_vlog
first_message libc prefix log sinks absent memory = rw (absent, memory, stats_vlog) refl

pub later_message :
    (libc : Libc) (prefix : List ℕ) (log : Logger) (sinks : Sinks) (block : ℕ)
    → log.fmt_buf ≡ some block
    → stats_vlog libc prefix log sinks ≡ write_log libc prefix log sinks
unfolding stats_vlog
later_message libc prefix log sinks block buffer = rw (buffer, stats_vlog) refl

stats_vlog-IsLogged :
    (libc : Libc) (prefix : List ℕ) (log : Logger) (sinks : Sinks)
    → AreShort libc
    → IsReady log
    → IsLogged log (stats_vlog libc prefix log sinks)
unfolding stats_vlog
stats_vlog-IsLogged libc prefix log sinks short (a_buffer buffer large small) =
    subst (IsLogged log) (sym (later_message libc prefix log sinks log.fmt_buf_size buffer))
      (write_log-IsLogged libc prefix log sinks short buffer large small)
stats_vlog-IsLogged libc prefix log sinks short (no_buffer absent size) =
    elim (Bool-cases libc.malloc) [
      | inl memory ↦
          let l =
            write_log-IsLogged libc prefix
              (record log { fmt_buf = some log_buf_size; fmt_buf_size = log_buf_size }) sinks short
              refl (omega arith) (omega arith) in
          record {
            after = l.after;
            sinks = l.sinks;
            returns = first_message libc prefix log sinks absent memory ∙ l.returns;
            ready = l.ready;
            verbose = l.verbose;
            level = l.level;
          }
      | inr out_of_memory ↦ record {
        after = stats_log_end log;
        sinks = sinks;
        returns = rw (absent, out_of_memory, stats_vlog) refl;
        ready = unfold stats_log_end in no_buffer refl refl;
        verbose = unfold stats_log_end in refl;
        level = unfold stats_log_end in refl;
      }
    ]

-- stats_error_log of a message that vsnprintf never makes 2^30 bytes or more of, with a buffer that
-- is not there or has at least 256 bytes and less than 2^31, returns, whatever malloc, realloc,
-- vsnprintf and fwrite answer, and leaves such a buffer, and the verbosity and the level as they
-- were.
pub stats_error_log-IsLogged :
    (libc : Libc) (log : Logger) (sinks : Sinks)
    → AreShort libc
    → IsReady log
    → IsLogged log (stats_error_log libc log sinks)
unfolding stats_error_log
stats_error_log-IsLogged libc log sinks short ready = elim (Bool-cases (leb log.level log_error)) [
  | inr filtered ↦ record {
    after = log;
    sinks = sinks;
    returns = rw (filtered, stats_error_log) refl;
    ready = ready;
    verbose = refl;
    level = refl;
  }
  | inl logged ↦
      let l =
        stats_vlog-IsLogged libc error_prefix (record log { verbose = true }) sinks short
          (verbose_ready ready) in
      record {
        after = record l.after { verbose = log.verbose };
        sinks = l.sinks;
        returns = rw (logged, l.returns, stats_error_log) refl;
        ready = restored l.ready;
        verbose = refl;
        level = l.level;
      }
]
  where
    verbose_ready : IsReady log → IsReady (record log { verbose = true })
    verbose_ready (no_buffer a b) = no_buffer a b
    verbose_ready (a_buffer a b c) = a_buffer a b c

    restored : {l : Logger} → IsReady l → IsReady (record l { verbose = log.verbose })
    restored (no_buffer a b) = no_buffer a b
    restored (a_buffer a b c) = a_buffer a b c
