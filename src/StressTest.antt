-- ===== src/StressTest.antt =====
-- src/stresstest.c: the tool that sends the keys of a file as counters of the statsd protocol.
pub mod Blocks
pub mod Lines
pub mod Keys
pub mod Counters
use statsrelay.Prelude.{
  ℕ, zero, suc, ◌+◌, ◌*◌, ◌%◌, ◌^◌, Bool, true, false, not, ◌&&◌, ◌||◌, Option, none, some, List,
  [], ◌∷◌, ◌++◌, if◌then◌else◌, ◌==◌, ◌-◌, ltb, take, drop, length, get_elem?, overwrite, u64,
}
use statsrelay.Outcome.{Outcome, done, undefined, ◌>>=◌}
use statsrelay.Bytes.{c_str}

-- What getopt_long finds, with the argument of the option; strdup has memory for a name or not. An option
-- that it does not know, or that lacks its argument, is `unknown`.
pub data Arg : Type 0 where
  help unknown : Arg
  port : List ℕ → Arg
  stat_names : List ℕ → Bool → Arg

-- The local variables that the options set.
pub record Options : Type 0 where
  pub port_number : ℕ
  pub names : Option (List ℕ)

-- The long that strtol returns, as the unsigned number of its 64 bits.
abbrev pub Strtol : Type 0
Strtol = List ℕ → ℕ

-- The loop over the options; none if main returns 1 in it.
unfoldable pub parse_options : Strtol → List Arg → Options → Option Options
parse_options strtol [] o = some o
parse_options strtol (help ∷ args) o = none
parse_options strtol (unknown ∷ args) o = none
parse_options strtol (port text ∷ args) o =
    parse_options strtol args (record o { port_number = strtol text % 2 ^ 16 })
parse_options strtol (stat_names name memory ∷ args) o =
    let rest = parse_options strtol args (record o { names = some name }) in
    if memory then rest else none

-- One getline: what it returns, and the block of `len` bytes that `line` points to behind it. `fresh` is
-- what realloc has behind the old bytes when it makes a block longer by a number of bytes, `send` what
-- send(2) returns when a number of bytes are left; `none` for an error.
pub record Read : Type 0 where
  pub read : ℕ
  pub block : List ℕ
  pub fresh : ℕ → Option (List ℕ)
  pub send : ℕ → Option ℕ

-- `while (read + 6 > len) len <<= 1`. For a `len` that is not 0, `read + 6` rounds are enough.
unfoldable pub grow : ℕ → ℕ → ℕ → ℕ
grow zero read len = len
grow (suc rounds) read len =
    let more = grow rounds read (u64 (len * 2)) in if ltb len (read + 6) then more else len

-- The block for the line and what is put behind it, none without memory.
unfoldable pub reserve : Read → Option (List ℕ)
unfolding grow
reserve r =
    let len = grow (r.read + 6) r.read (length r.block) in
    if ltb (length r.block) len
    then (elim (r.fresh (len - length r.block)) [
      | none ↦ none
      | some bytes ↦ some (r.block ++ bytes)
    ])
    else some r.block

abbrev pub is_end : ℕ → Bool
is_end x = x == 10 || x == 0

-- `while (line[read] == '\n' || line[read] == '\0') read--`. Below 0 it reads before the block.
unfoldable pub trim : ℕ → List ℕ → Outcome ℕ
trim zero block = elim (get_elem? block 0) [
  | none ↦ undefined
  | some x ↦ if is_end x then undefined else done 0
]
trim (suc read) block =
    let shorter = trim read block in
    elim (get_elem? block (suc read)) [
      | none ↦ undefined
      | some x ↦ if is_end x then shorter else done (suc read)
    ]

-- `":1|c\n\0"`
abbrev pub suffix : List ℕ
suffix = b':' ∷ b'1' ∷ b'|' ∷ b'c' ∷ 10 ∷ 0 ∷ []

-- memcpy of the suffix behind the last byte of the key.
unfoldable pub decorate : ℕ → List ℕ → Outcome (List ℕ)
decorate last block =
    if ltb (length block) (last + 7) then undefined else done (overwrite block (last + 1) suffix)

-- The loop of send(2): whether all went out, and the bytes that did. Each call that does not fail sends a
-- byte at least, so a round for each byte is enough.
unfoldable pub send_bytes : ℕ → (ℕ → Option ℕ) → List ℕ → Bool × List ℕ
send_bytes zero send bytes = (true, [])
send_bytes (suc rounds) send [] = (true, [])
send_bytes (suc rounds) send (x ∷ xs) = elim (send (length (x ∷ xs))) [
  | none ↦ (false, [])
  | some n ↦
      let (sent_all, out) = send_bytes rounds send (drop n (x ∷ xs)) in
      if n == 0 then (false, []) else (sent_all, take n (x ∷ xs) ++ out)
]

-- One round of the loop over the lines: whether main goes on, and the bytes sent.
unfoldable pub send_line : Read → Outcome (Bool × List ℕ)
unfolding reserve trim decorate send_bytes c_str
send_line r = elim (reserve r) [
  | none ↦ done (false, [])
  | some block ↦ trim r.read block >>= λ last.
      decorate last block >>= λ line. done (send_bytes (length (c_str line)) r.send (c_str line))
]

-- The loop, with the count of the lines sent so far: their count at the end, none behind an error, and the
-- bytes sent.
unfoldable pub send_lines : List Read → ℕ → Outcome (Option ℕ × List ℕ)
unfolding send_line
send_lines [] lines_sent = done (some lines_sent, [])
send_lines (r ∷ reads) lines_sent = send_line r >>= λ s. elim s.0 [
  | false ↦ done (none, s.1)
  | true ↦ send_lines reads (lines_sent + 1) >>= λ t. done (t.0, s.1 ++ t.1)
]

-- What the system answers: whether there is a socket, a connection to a port and the time, and the lines of
-- a file that can be opened.
pub record System : Type 0 where
  pub socket : Bool
  pub connects : ℕ → Bool
  pub files : List ℕ → Option (List Read)
  pub start_time : Bool
  pub end_time : Bool

-- The end of main behind the loop: the exit code.
abbrev pub exit_code : Bool → Option ℕ → ℕ
exit_code end_time none = 1
exit_code end_time (some lines_sent) = if lines_sent == 0 then 1 else if end_time then 0 else 1

-- main behind the tests of the options.
unfoldable pub run : System → ℕ → List ℕ → Outcome (ℕ × List ℕ)
unfolding send_lines
run sys port_number name =
    if not (sys.socket && sys.connects port_number) then done (1, []) else (elim (sys.files name) [
      | none ↦ done (1, [])
      | some reads ↦
          if not sys.start_time
          then done (1, [])
          else (send_lines reads 0 >>= λ r. done (exit_code sys.end_time r.0, r.1))
    ])

-- main: the exit code, and the bytes that the socket gets.
unfoldable pub main : Strtol → List Arg → System → Outcome (ℕ × List ℕ)
unfolding parse_options run
main strtol args sys = elim (parse_options strtol args (record { port_number = 0; names = none })) [
  | none ↦ done (1, [])
  | some o ↦ elim o.names [
    | none ↦ done (1, [])
    | some name ↦ if o.port_number == 0 then done (1, []) else run sys o.port_number name
  ]
]
