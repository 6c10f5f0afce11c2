-- ===== src/Ring/Dealloc.antt =====
-- The objects that hashring_dealloc gives back.
use statsrelay.Prelude.{
  ℕ, zero, suc, ◌+◌, ◌≡◌, refl, true, false, Option, none, some, List, [], ◌∷◌, ◌++◌, map, arith,
  ◌==◌, if◌then◌else◌,
}
use native.Mathlib.Nat.{zero-add, add-zero}
use statsrelay.PointerList.Holds.{Holds}
use statsrelay.Ring.{Pointer, Ring, Callbacks, seen, dealloc_slots, dealloc}

-- How often a pointer occurs.
abbrev pub count : Pointer → List Pointer → ℕ
count p [] = 0
count p (x ∷ xs) = let rest = count p xs in if p == x then suc rest else rest

-- The callbacks of a client that only records what is given back.
abbrev pub recording : Callbacks (List Pointer)
recording = record { alloc = λ line log. (none, log); dealloc = λ obj log. log ++ obj ∷ [] }

count-append : (p : Pointer) (xs ys : List Pointer) → count p (xs ++ ys) ≡ count p xs + count p ys
count-append p [] ys = omega arith
count-append p (x ∷ xs) ys = ground (arith, count-append p xs ys)

-- 1 for a pointer that is in the list, else 0.
abbrev pub present : ℕ → ℕ
present zero = 0
present (suc n) = 1

-- The reverse of a list of slots, before others: what the outer loop has passed.
abbrev pub passed : List Pointer → List (Option Pointer) → List (Option Pointer)
passed [] earlier = earlier
passed (x ∷ xs) earlier = passed xs (some x ∷ earlier)

abbrev occurs : Pointer → List (Option Pointer) → ℕ
occurs p [] = 0
occurs p (none ∷ l) = occurs p l
occurs p (some x ∷ l) = let rest = occurs p l in if p == x then suc rest else rest

seen-occurs :
    (p : Pointer) (l : List (Option Pointer)) → seen p l ≡ (if 0 == occurs p l then false else true)
seen-occurs p [] = refl
seen-occurs p (none ∷ l) = seen-occurs p l
seen-occurs p (some x ∷ l) = ground (arith, seen-occurs p l)

dealloc_slots-count :
    (p : Pointer) (xs : List Pointer) (earlier : List (Option Pointer)) (log : List Pointer)
    → count p (dealloc_slots recording (map some xs) earlier log) + present (occurs p earlier)
      ≡ count p log + present (count p xs + occurs p earlier)
unfolding dealloc_slots
dealloc_slots-count p [] earlier log = rw zero-add
dealloc_slots-count p (x ∷ xs) earlier log = ground (
  arith,
  seen-occurs x earlier,
  count-append p log (x ∷ []),
  dealloc_slots-count p xs (some x ∷ earlier) (if seen x earlier then log else log ++ x ∷ []),
)

-- hashring_dealloc of a ring that holds the objects `xs` calls the dealloc callback once for each
-- pointer that occurs in `xs`, however often it does, and for no other pointer.
pub dealloc_once :
    (ring : Ring) (xs : List Pointer) (p : Pointer)
    → Holds ring.backends xs
    → count p (dealloc recording (some ring) []) ≡ present (count p xs)
unfolding dealloc
dealloc_once ring xs p h =
    rw h.held (ground (arith, dealloc_slots-count p xs [] [], add-zero (count p xs)))
