-- ===== src/Validate.antt =====
-- src/validate.c, src/validate.h: whether a line is well formed for its protocol.
pub mod Carbon
pub mod Statsd
pub mod Lines
use statsrelay.Prelude.{
  ℕ, zero, suc, ◌+◌, ◌-◌, Bool, true, false, ◌&&◌, ◌||◌, not, Option, none, some, List, [], ◌∷◌,
  ◌++◌, if◌then◌else◌, ◌==◌, ltb, take, drop, length,
}
use statsrelay.Outcome.{Outcome, done, undefined, ◌>>=◌}
use statsrelay.Bytes.{memchr, c_str, same_bytes}

-- The loop of validate_carbon. It stops at the third space, so three rounds are enough.
unfoldable pub spaces_found : ℕ → ℕ → List ℕ → ℕ
spaces_found zero found bytes = found
spaces_found (suc rounds) found bytes = elim (memchr b' ' bytes) [
  | none ↦ found
  | some s ↦
      if ltb 2 (found + 1) then found + 1 else spaces_found rounds (found + 1) (drop (suc s) bytes)
]

unfoldable pub validate_carbon : List ℕ → ℕ
validate_carbon line = if spaces_found 3 0 line == 2 then 0 else 1

-- Whether strtod converts the start of a string. If it does not, it returns 0 and leaves `err` at the
-- start, which is what the code tests.
abbrev pub Strtod : Type 0
Strtod = List ℕ → Bool

-- memchr over the next `plen` bytes of the copy: a search that passes its end is undefined.
unfoldable pub search : ℕ → ℕ → List ℕ → Outcome (Option ℕ)
search needle plen bytes = elim (memchr needle (take plen bytes)) [
  | some i ↦ done (some i)
  | none ↦ if ltb (length bytes) plen then undefined else done none
]

-- Whether the bytes are one of `valid_stat_types`.
unfoldable pub is_stat_type : List ℕ → Bool
unfolding same_bytes
is_stat_type bytes =
    same_bytes bytes (b'c' ∷ [])
    || (same_bytes bytes (b'm' ∷ b's' ∷ [])
        || (same_bytes bytes (b'k' ∷ b'v' ∷ [])
            || (same_bytes bytes (b'g' ∷ [])
                || (same_bytes bytes (b'h' ∷ []) || same_bytes bytes (b's' ∷ [])))))

-- From the second bar on: `len` bytes of the line are left with the bar, `bytes` is what is behind it.
unfoldable pub check_rate : Strtod → ℕ → List ℕ → ℕ
check_rate strtod len [] = 1
check_rate strtod len (x ∷ rate) =
    if ltb 1 len && x == b'@'
    then (if len - 2 == 0 then 1 else if strtod (c_str rate) then 0 else 1)
    else 1

-- From the type on: `plen` bytes of the line are left.
unfoldable pub check_type : Strtod → ℕ → List ℕ → Option ℕ → ℕ
unfolding is_stat_type check_rate
check_type strtod plen bytes none = if is_stat_type (take plen bytes) then 0 else 1
check_type strtod plen bytes (some bar) =
    if is_stat_type (take bar bytes)
    then check_rate strtod (plen - bar) (drop (suc bar) bytes)
    else 1

-- From the value on.
unfoldable pub check_value : Strtod → ℕ → List ℕ → Outcome ℕ
unfolding search check_type
check_value strtod plen bytes =
    if not (strtod (c_str bytes))
    then done 1
    else (search b'|' plen bytes >>= λ found. elim found [
      | none ↦ done 1
      | some bar ↦
          let rest = drop (suc bar) bytes in
          let left = plen - suc bar in
          search b'|' left rest >>= λ second. done (check_type strtod left rest second)
    ])

-- `memory` is whether strndup can make its copy, which ends at the first NUL of the line.
unfoldable pub validate_statsd : Strtod → Bool → List ℕ → Outcome ℕ
unfolding check_value
validate_statsd strtod memory line =
    if not memory
    then undefined
    else (let copy = c_str line ++ 0 ∷ [] in
        search b':' (length line) copy >>= λ found. elim found [
          | none ↦ done 1
          | some colon ↦
              if ltb colon 1
              then done 1
              else check_value strtod (length line - suc colon) (drop (suc colon) copy)
        ])
