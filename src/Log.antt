-- ===== src/Log.antt =====
-- src/log.c, src/log.h: the log. Text goes to standard error and to syslog.
pub mod Fill
pub mod Messages
pub mod Whole
use statsrelay.Prelude.{
  ℕ, zero, suc, ◌+◌, ◌*◌, ◌^◌, Bool, true, false, not, Option, none, some, List, [], ◌∷◌, ◌++◌,
  if◌then◌else◌, ◌==◌, ltb, leb, take, drop, length,
}
use statsrelay.Outcome.{Outcome, done, undefined, ◌>>=◌}

-- STATSRELAY_LOG_BUF_SIZE
abbrev pub log_buf_size : ℕ
log_buf_size = 256

-- enum statsrelay_log_level
abbrev pub log_debug : ℕ
log_debug = 10

abbrev pub log_info : ℕ
log_info = 20

abbrev pub log_warn : ℕ
log_warn = 30

abbrev pub log_error : ℕ
log_error = 40

-- g_verbose, g_level, and the format buffer by the size of its block, if there is one.
pub record Logger : Type 0 where
  pub verbose : Bool
  pub level : ℕ
  pub fmt_buf : Option ℕ
  pub fmt_buf_size : ℕ

-- What was written: the bytes on standard error, and what syslog got as its format.
pub record Sinks : Type 0 where
  pub err : List ℕ
  pub syslog : List (List ℕ)

-- What the C library answers to one message. `vsnprintf k` is the text that the call number `k` makes of
-- the format, none if it fails. The calls share one `va_list`, which the first call leaves indeterminate,
-- so the texts need not agree. `fwrite n` is how much it takes of `n` bytes.
pub record Libc : Type 0 where
  pub vsnprintf : ℕ → Option (List ℕ)
  pub malloc : Bool
  pub realloc : ℕ → Bool
  pub fwrite : ℕ → ℕ

pub data Filled : Type 0 where
  failed : ℕ → Filled
  alloc_failure overflow : Filled
  filled : List ℕ → ℕ → Filled

-- The loop around vsnprintf, from the call number `calls` on, for a block of `size` bytes. The shift of
-- a size from 2 ^ 30 on overflows an int, so 23 rounds are enough for a size from 256 on.
unfoldable pub fill : ℕ → Libc → ℕ → ℕ → Filled
fill zero libc calls size = overflow
fill (suc rounds) libc calls size =
    let rest = fill rounds libc (suc calls) (size * 2) in
    elim (libc.vsnprintf calls) [
      | none ↦ failed size
      | some text ↦
          if ltb (length text) size
          then filled text size
          else if leb (2 ^ 30) size
          then overflow
          else if libc.realloc (size * 2)
          then rest
          else alloc_failure
    ]

-- The loop around fwrite: what it wrote, and whether that is all.
unfoldable pub write_text : ℕ → (ℕ → ℕ) → List ℕ → List ℕ × Bool
write_text zero fwrite text = ([], length text == 0)
write_text (suc rounds) fwrite text =
    let bw = fwrite (length text) in
    let rest = write_text rounds fwrite (drop bw text) in
    if length text == 0
    then ([], true)
    else if bw == 0
    then ([], false)
    else (take bw text ++ rest.0, rest.1)

abbrev pub line_end : List ℕ
line_end = 10 ∷ []

-- The writes of one message to standard error. Each round writes a byte at least.
unfoldable pub print_text : (ℕ → ℕ) → List ℕ → List ℕ → List ℕ
unfolding write_text
print_text fwrite prefix text =
    let (written, complete) = write_text (length text) fwrite text in
    prefix ++ written ++ (if complete then line_end else [])

-- The writes of one message.
unfoldable pub put_message : (ℕ → ℕ) → List ℕ → Bool → List ℕ → Sinks → Sinks
unfolding print_text
put_message fwrite prefix verbose text sinks = record {
  err = sinks.err ++ (if verbose then print_text fwrite prefix text else []);
  syslog = sinks.syslog ++ text ∷ [];
}

-- stats_log_end
unfoldable pub stats_log_end : Logger → Logger
stats_log_end log = record log { fmt_buf = none; fmt_buf_size = 0 }

-- stats_vlog from the syslog call on: a block that has grown is made small again.
unfoldable pub shrink : Libc → Logger → Logger
unfolding stats_log_end
shrink libc log =
    if ltb log_buf_size log.fmt_buf_size
    then (if libc.realloc log_buf_size
        then record log { fmt_buf = some log_buf_size; fmt_buf_size = log_buf_size }
        else stats_log_end log)
    else log

-- stats_vlog on a buffer that is there.
unfoldable pub write_log : Libc → List ℕ → Logger → Sinks → Outcome (Logger × Sinks)
unfolding fill put_message shrink
write_log libc prefix log sinks = elim (fill 23 libc 0 log.fmt_buf_size) [
  | failed size ↦ done (record log { fmt_buf = some size; fmt_buf_size = size }, sinks)
  | alloc_failure ↦ done (stats_log_end log, sinks)
  | overflow ↦ undefined
  | filled text size ↦ done (
    shrink libc (record log { fmt_buf = some size; fmt_buf_size = size }),
    put_message libc.fwrite prefix log.verbose text sinks,
  )
]

-- stats_vlog. A prefix NULL is an empty one.
unfoldable pub stats_vlog : Libc → List ℕ → Logger → Sinks → Outcome (Logger × Sinks)
unfolding write_log
stats_vlog libc prefix log sinks = elim log.fmt_buf [
  | some block ↦ write_log libc prefix log sinks
  | none ↦
      if libc.malloc
      then write_log libc prefix
          (record log { fmt_buf = some log_buf_size; fmt_buf_size = log_buf_size }) sinks
      else done (stats_log_end log, sinks)
]

abbrev pub debug_prefix : List ℕ
debug_prefix = b'D' ∷ b'E' ∷ b'B' ∷ b'U' ∷ b'G' ∷ b':' ∷ b' ' ∷ []

abbrev pub error_prefix : List ℕ
error_prefix = b'E' ∷ b'R' ∷ b'R' ∷ b'O' ∷ b'R' ∷ b':' ∷ b' ' ∷ []

unfoldable pub stats_debug_log : Libc → Logger → Sinks → Outcome (Logger × Sinks)
unfolding stats_vlog
stats_debug_log libc log sinks =
    if leb log.level log_debug then stats_vlog libc debug_prefix log sinks else done (log, sinks)

unfoldable pub stats_log : Libc → Logger → Sinks → Outcome (Logger × Sinks)
unfolding stats_vlog
stats_log libc log sinks =
    if leb log.level log_info then stats_vlog libc [] log sinks else done (log, sinks)

-- An error is verbose, whatever g_verbose is.
unfoldable pub stats_error_log : Libc → Logger → Sinks → Outcome (Logger × Sinks)
unfolding stats_vlog
stats_error_log libc log sinks =
    if leb log.level log_error
    then (stats_vlog libc error_prefix (record log { verbose = true }) sinks >>= λ r.
        done (record r.0 { verbose = log.verbose }, r.1))
    else done (log, sinks)
