-- ===== src/StressTest/Lines.antt =====
-- One line of the stress test, from getline to the last send(2).
use statsrelay.Prelude.{
  ℕ, zero, suc, ◌+◌, ◌-◌, ◌≤◌, ◌<◌, ◌≡◌, refl, ap, ap₂, ◌∙◌, sym, true, false, Option, some, List,
  [], ◌∷◌, ◌++◌, ◌==◌, ltb, drop, length, get_elem?, overwrite-append, arith, inl, inr, ◌⊎◌,
  length-drop, append_assoc, take-append-drop, get_elem?-append_left, get_elem?-append_right,
  get_elem?_total,
}
use statsrelay.Outcome.{done, undefined}
use statsrelay.Bytes.{c_str}
use statsrelay.Bytes.Search.{Lacks}
use statsrelay.StressTest.{Read, is_end, trim, suffix, decorate, send_bytes, send_line}
use statsrelay.StressTest.Blocks.{IsKey, IsLine, reserve_lem, reserve_kept}

-- What main sends for a key.
abbrev pub counter : List ℕ → List ℕ
counter key = key ++ b':' ∷ b'1' ∷ b'|' ∷ b'c' ∷ 10 ∷ []

trim_skip :
    (n x : ℕ) (block : List ℕ)
    → get_elem? block (suc n) ≡ some x
    → is_end x ≡ true
    → trim (suc n) block ≡ trim n block
unfolding trim
trim_skip n x block at e = rw (at, e, trim) refl

trim_stop :
    (n x : ℕ) (block : List ℕ)
    → get_elem? block n ≡ some x
    → is_end x ≡ false
    → trim n block ≡ done n
unfolding trim
trim_stop zero x block at e = rw (at, e, trim) refl
trim_stop (suc n) x block at e = rw (at, e, trim) refl

get_elem?-Lacks :
    (xs : List ℕ) (n x : ℕ) → Lacks 10 xs → Lacks 0 xs → get_elem? xs n ≡ some x → is_end x ≡ false
get_elem?-Lacks [] n x h g at = absurd (cc at)
get_elem?-Lacks (y ∷ ys) zero x h g at = ground (arith, h.0, g.0, at)
get_elem?-Lacks (y ∷ ys) (suc n) x h g at = get_elem?-Lacks ys n x h.1 g.1 at

c_str-append : (xs ys : List ℕ) → Lacks 0 xs → c_str (xs ++ 0 ∷ ys) ≡ xs
unfolding c_str
c_str-append [] ys h = refl
c_str-append (x ∷ xs) ys h = ground (arith, c_str-append xs ys h.1)

pub Lacks-append : (c : ℕ) (xs ys : List ℕ) → Lacks c xs → Lacks c ys → Lacks c (xs ++ ys)
Lacks-append c [] ys h g = g
Lacks-append c (x ∷ xs) ys h g = (h.0, Lacks-append c xs ys h.1 g)

-- The newline and the NUL are passed over.
trim_lem :
    (key ending rest : List ℕ)
    → IsKey key
    → (ending ≡ []) ⊎ (ending ≡ 10 ∷ [])
    → trim (length key + length ending) (key ++ (ending ++ 0 ∷ rest)) ≡ done (length key - 1)
trim_lem [] ending rest k ends = absurd (omega (arith, k.some_bytes))
trim_lem (x ∷ xs) ending rest k ends =
    let key = x ∷ xs in
    let (last, at) = get_elem?_total key (length xs) (omega arith) in
    let plain = get_elem?-Lacks key (length xs) last k.one_line k.no_nul at in
    let stops : (ys : List ℕ) → trim (length xs) (key ++ ys) ≡ done (length key - 1) = λ ys.
      trim_stop (length xs) last (key ++ ys)
        (get_elem?-append_left key ys (length xs) (omega arith) ∙ at) plain
      ∙ ap done (omega arith) in
    elim ends [
      | inl e ↦
          ap₂ (λ n l. trim n (key ++ (l ++ 0 ∷ rest))) {x = length key + length ending}
            {y = length key} (omega (arith, ap length e)) e
          ∙ trim_skip (length xs) 0 (key ++ 0 ∷ rest)
              (get_elem?-append_right key (0 ∷ rest) (length key) 0 (omega arith)) refl
          ∙ stops (0 ∷ rest)
      | inr e ↦
          ap₂ (λ n l. trim n (key ++ (l ++ 0 ∷ rest))) {x = length key + length ending}
            {y = suc (length key)} (omega (arith, ap length e)) e
          ∙ trim_skip (length key) 0 (key ++ 10 ∷ 0 ∷ rest)
              (get_elem?-append_right key (10 ∷ 0 ∷ rest) (suc (length key)) 1 (omega arith)) refl
          ∙ trim_skip (length xs) 10 (key ++ 10 ∷ 0 ∷ rest)
              (get_elem?-append_right key (10 ∷ 0 ∷ rest) (length key) 0 (omega arith)) refl
          ∙ stops (10 ∷ 0 ∷ rest)
    ]

-- The suffix takes the place of what is behind the key.
decorate_lem :
    (key behind : List ℕ)
    → 0 < length key
    → length key + 6 ≤ length (key ++ behind)
    → (block : List ℕ) × (decorate (length key - 1) (key ++ behind) ≡ done block)
      × (Lacks 0 key → c_str block ≡ counter key)
unfolding decorate
decorate_lem key behind pos room =
    let inside : ltb (length (key ++ behind)) (length key - 1 + 7) ≡ false = ground arith in
    let block = key ++ (suffix ++ drop (length key - 1 + 1 + 6) (key ++ behind)) in
    (
      block,
      rw inside (ap done (overwrite-append (length key - 1 + 1) key behind suffix (omega arith))),
      λ plain.
          ap c_str (sym (append_assoc key (b':' ∷ b'1' ∷ b'|' ∷ b'c' ∷ 10 ∷ []) _))
          ∙ c_str-append (counter key) _ (Lacks-append 0 key _ plain (omega arith)),
    )

send_bytes_lem :
    (rounds : ℕ) (send : ℕ → Option ℕ) (bytes : List ℕ)
    → length bytes ≤ rounds
    → ((left : ℕ) → 0 < left → (n : ℕ) × (send left ≡ some n) × (0 < n) × (n ≤ left))
    → send_bytes rounds send bytes ≡ (true, bytes)
unfolding send_bytes
send_bytes_lem zero send [] enough sends = refl
send_bytes_lem zero send (x ∷ xs) enough sends = absurd (omega arith)
send_bytes_lem (suc rounds) send [] enough sends = refl
send_bytes_lem (suc rounds) send (x ∷ xs) enough sends =
    let (n, answer, some_sent, fits) = sends (length (x ∷ xs)) (omega arith) in
    let later =
      send_bytes_lem rounds send (drop n (x ∷ xs)) (omega (arith, length-drop n (x ∷ xs))) sends in
    let test : (n == 0) ≡ false = ground arith in
    rw (answer, later, test, send_bytes) (ap (λ l. (true, l)) (take-append-drop n (x ∷ xs)))

-- A line is sent as its key and the suffix.
pub send_line_lem :
    (key ending : List ℕ) (r : Read)
    → IsKey key
    → IsLine key ending r
    → send_line r ≡ done (true, counter key)
unfolding send_line
send_line_lem key ending r k l =
    let (rest, reserved, room) = reserve_lem key ending r l in
    let trimmed =
      ap (λ n. trim n (key ++ (ending ++ 0 ∷ rest))) l.measured
      ∙ trim_lem key ending rest k l.ends in
    let (block, decorated, text) =
      decorate_lem key (ending ++ 0 ∷ rest) k.some_bytes (omega (arith, room, l.measured)) in
    rw (reserved, trimmed, decorated, text k.no_nul, send_line)
      (ap done (send_bytes_lem (length (counter key)) r.send (counter key) (omega arith) l.sends))

trim_empty : (rest : List ℕ) → trim 1 (10 ∷ 0 ∷ rest) ≡ undefined
unfolding trim
trim_empty rest = refl

-- A line of a newline alone: the bytes before it are looked at, and there are none.
pub send_line-empty :
    (rest : List ℕ) (r : Read)
    → r.read ≡ 1
    → r.block ≡ 10 ∷ 0 ∷ rest
    → ((n : ℕ) → (bytes : List ℕ) × (r.fresh n ≡ some bytes))
    → send_line r ≡ undefined
unfolding send_line
send_line-empty rest r one block memory =
    let (more, reserved) = reserve_kept r memory in
    let before : trim r.read (r.block ++ more) ≡ undefined =
      ap₂ (λ n l. trim n (l ++ more)) one block ∙ trim_empty (rest ++ more) in
    rw (reserved, before, send_line) refl
