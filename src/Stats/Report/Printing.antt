-- ===== src/Stats/Report/Printing.antt =====
-- One text printed into the buffer of the statistics.
use statsrelay.Prelude.{
  ℕ, ◌+◌, ◌-◌, ◌≤◌, ◌<◌, ◌≡◌, refl, sym, ap, ap₂, true, false, List, [], ◌∷◌, ◌++◌, ◌==◌, ltb,
  length, take, arith, if◌then◌else◌, append-nil, length-append, length-take, slice-overwrite_part,
  length-overwrite, overwrite, subst,
}
use native.Mathlib.Decide.{dec_lt}
use statsrelay.Buffer.{Buffer, spacecount, produced, copy_in}
use statsrelay.Buffer.Invariant.{IsValid}
use statsrelay.Buffer.Queue.{contents}
use statsrelay.Stats.Report.{print_into}

-- What goes into a number of free bytes: a text that is shorter. One that fills them loses its last byte to
-- the NUL of snprintf, and of one that is longer nothing is kept.
unfoldable pub fitted : ℕ → List ℕ → List ℕ
fitted space text =
    if ltb (length text) space
    then text
    else if length text == space
    then (if space == 0 then [] else take (space - 1) text ++ 0 ∷ [])
    else []

-- The bytes `kept` are queued behind those of the buffer.
pub record IsExtended (b : Buffer) (kept : List ℕ) (b' : Buffer) : Type 0 where
  pub valid : IsValid b'
  pub printed : contents b' ≡ contents b ++ kept
  pub room : spacecount b' + length kept ≡ spacecount b

abbrev extended : Buffer → List ℕ → List ℕ → Buffer
extended b kept more = record b {
  mem = overwrite b.mem b.tail (kept ++ more);
  tail = b.tail + length kept;
}

extended-IsExtended :
    (b : Buffer) (kept more : List ℕ)
    → IsValid b
    → length kept + length more ≤ spacecount b
    → IsExtended b kept (extended b kept more)
extended-IsExtended b kept more v fits =
    let whole = length-append kept more in
    record {
      valid = record {
        ordered = omega arith;
        within = omega arith;
        block = omega (arith, v.block, whole, length-overwrite b.mem b.tail (kept ++ more));
        small = v.small;
      };
      printed =
          slice-overwrite_part b.head b.tail (b.tail + length kept) b.mem kept more v.ordered
            (omega arith) refl;
      room = omega arith;
    }

print_short :
    (b : Buffer) (text : List ℕ)
    → IsValid b
    → ltb (length text) (spacecount b) ≡ true
    → IsExtended b (fitted (spacecount b) text) (print_into b text)
unfolding print_into fitted copy_in produced
print_short b text v short =
    let fits : ltb b.size (b.tail + length text) ≡ false = ground (arith, short) in
    let result : print_into b text ≡ extended b text (0 ∷ []) = rw (short, print_into, fits) refl in
    let kept : fitted (spacecount b) text ≡ text = rw (short, fitted) refl in
    subst (λ k. IsExtended b k (print_into b text)) (sym kept)
      (subst (IsExtended b text) (sym result)
        (extended-IsExtended b text (0 ∷ []) v (ground (arith, short))))

print_exact :
    (b : Buffer) (text : List ℕ)
    → IsValid b
    → length text ≡ spacecount b
    → 0 < spacecount b
    → IsExtended b (fitted (spacecount b) text) (print_into b text)
unfolding print_into fitted copy_in produced
print_exact b text v exact pos =
    let cut = take (spacecount b - 1) text ++ 0 ∷ [] in
    let count : length cut ≡ length text = omega (
      arith,
      exact,
      length-append (take (spacecount b - 1) text) (0 ∷ []),
      length-take (spacecount b - 1) text,
    ) in
    let other : ltb (length text) (spacecount b) ≡ false = ground (arith, exact) in
    let some_space : (spacecount b == 0) ≡ false = ground (arith, pos) in
    let fits : ltb b.size (b.tail + length text) ≡ false = ground (arith, exact) in
    let same : (length text == spacecount b) ≡ true = ground (arith, exact) in
    let result : print_into b text ≡ extended b cut [] =
      rw (other, some_space, fits, print_into)
        (ap₂
          (λ (m : List ℕ) (n : ℕ). record b { mem = overwrite b.mem b.tail m; tail = b.tail + n })
          (sym (append-nil cut)) (sym count)) in
    let kept : fitted (spacecount b) text ≡ cut = rw (other, same, some_space, fitted) refl in
    subst (λ k. IsExtended b k (print_into b text)) (sym kept)
      (subst (IsExtended b cut) (sym result)
        (extended-IsExtended b cut [] v (omega (arith, count, exact))))

-- What snprintf writes of a text that does not fit.
cut_off : ℕ → List ℕ → List ℕ
cut_off space text = if space == 0 then [] else take (space - 1) text ++ 0 ∷ []

length-cut_off : (space : ℕ) (text : List ℕ) → length (cut_off space text) ≤ space
unfolding cut_off
length-cut_off space text =
    ground (arith, length-append (take (space - 1) text) (0 ∷ []), length-take (space - 1) text)

unextended :
    (b : Buffer) (more : List ℕ)
    → record b { mem = overwrite b.mem b.tail more } ≡ extended b [] more
unextended b more =
    ap (λ (n : ℕ). record b { mem = overwrite b.mem b.tail more; tail = n }) {x = b.tail}
      {y = b.tail + 0} (omega arith)

print_long :
    (b : Buffer) (text : List ℕ)
    → IsValid b
    → spacecount b < length text
    → IsExtended b (fitted (spacecount b) text) (print_into b text)
unfolding print_into fitted copy_in produced cut_off
print_long b text v long =
    let more = cut_off (spacecount b) text in
    let other : ltb (length text) (spacecount b) ≡ false = ground (arith, long) in
    let unlike : (length text == spacecount b) ≡ false = ground (arith, long) in
    let over : ltb b.size (b.tail + length text) ≡ true = ground (arith, long) in
    let result : print_into b text ≡ extended b [] more =
      rw (other, over, print_into) (unextended b more) in
    let kept : fitted (spacecount b) text ≡ [] = rw (other, unlike, fitted) refl in
    subst (λ k. IsExtended b k (print_into b text)) (sym kept)
      (subst (IsExtended b []) (sym result)
        (extended-IsExtended b [] more v (omega (arith, length-cut_off (spacecount b) text))))

print_none :
    (b : Buffer)
    → IsValid b
    → spacecount b ≡ 0
    → IsExtended b (fitted (spacecount b) []) (print_into b [])
unfolding print_into fitted copy_in produced
print_none b v full =
    let other : ltb 0 (spacecount b) ≡ false = ground (arith, full) in
    let zero_space : (spacecount b == 0) ≡ true = ground (arith, full) in
    let fits : ltb b.size (b.tail + 0) ≡ false = ground (arith, full) in
    let result : print_into b [] ≡ extended b [] [] =
      rw (other, zero_space, fits, print_into) refl in
    let same : (0 == spacecount b) ≡ true = ground (arith, full) in
    let kept : fitted (spacecount b) [] ≡ [] = rw (other, same, zero_space, fitted) refl in
    subst (λ k. IsExtended b k (print_into b [])) (sym kept)
      (subst (IsExtended b []) (sym result) (extended-IsExtended b [] [] v (omega arith)))

-- A text is printed as far as it is `fitted`.
pub print_into-IsExtended :
    (b : Buffer) (text : List ℕ)
    → IsValid b
    → IsExtended b (fitted (spacecount b) text) (print_into b text)
print_into-IsExtended b text v = elim (dec_lt (length text) (spacecount b)) [
  | yes short ↦ print_short b text v (ground (arith, short))
  | no other ↦ elim (dec_lt (spacecount b) (length text)) [
    | yes long ↦ print_long b text v long
    | no same ↦ exact text (omega arith)
  ]
]
  where
    exact :
        (t : List ℕ)
        → length t ≡ spacecount b
        → IsExtended b (fitted (spacecount b) t) (print_into b t)
    exact [] e = print_none b v (omega (arith, e))
    exact (x ∷ xs) e = print_exact b (x ∷ xs) v e (omega (arith, e))
