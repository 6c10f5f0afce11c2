-- ===== src/Examples/Logs.antt =====
-- Messages to the log.
use statsrelay.Prelude.{
  ℕ, zero, suc, ◌≡◌, refl, true, false, none, some, List, [], ◌∷◌, ◌++◌, arith,
}
use statsrelay.Outcome.{done}
use statsrelay.Log.{
  Logger, Sinks, Libc, log_buf_size, log_info, error_prefix, line_end, stats_vlog, stats_error_log,
}
use statsrelay.Log.Messages.{no_buffer, a_buffer, IsLogged, stats_error_log-IsLogged}
use statsrelay.Log.Whole.{stats_vlog_lem}

abbrev greeting : List ℕ
greeting = b'h' ∷ b'i' ∷ []

-- One byte at a time.
abbrev libc : Libc
libc = record {
  vsnprintf = λ k. some greeting;
  malloc = true;
  realloc = λ n. true;
  fwrite = λ n. 1;
}

-- A va_list that is used again gives another text.
abbrev spent : Libc
spent = record libc { vsnprintf = λ k. elim k [ zero ↦ some greeting | suc n ↦ none ] }

-- vsnprintf fails at once.
abbrev failing : Libc
failing = record libc { vsnprintf = λ k. none; malloc = false }

abbrev pub new_log : Logger
new_log = record { verbose = true; level = log_info; fmt_buf = none; fmt_buf_size = 0 }

abbrev used_log : Logger
used_log = record new_log { verbose = false; fmt_buf = some 512; fmt_buf_size = 512 }

abbrev nothing : Sinks
nothing = record { err = []; syslog = [] }

stats_vlog_lem_example :
    stats_vlog spent error_prefix new_log nothing
    ≡ done (
      record new_log { fmt_buf = some log_buf_size; fmt_buf_size = log_buf_size },
      record { err = error_prefix ++ greeting ++ line_end; syslog = greeting ∷ [] },
    )
stats_vlog_lem_example =
    stats_vlog_lem spent error_prefix greeting new_log nothing (no_buffer refl refl) refl
      (λ n. refl) refl (λ n h. (omega arith, omega (arith, h))) (omega arith)

stats_error_log-IsLogged_example : IsLogged used_log (stats_error_log failing used_log nothing)
stats_error_log-IsLogged_example =
    stats_error_log-IsLogged failing used_log nothing (λ k text e. ground (arith, e))
      (a_buffer refl (omega arith) (omega arith))
