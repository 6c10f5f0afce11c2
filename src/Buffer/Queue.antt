-- ===== src/Buffer/Queue.antt =====
-- The queued bytes of a buffer, between head and tail.
use statsrelay.Prelude.{
  Option-cases, inl, inr, ◌⊎◌, ℕ, ◌+◌, ◌-◌, ◌≤◌, ◌<◌, ◌≡◌, refl, sym, ap, ◌∙◌, List, ◌++◌, arith,
  length, take, drop, slice, drop-take, drop-drop, take-overwrite_zero, slice-overwrite,
  slice-overwrite_zero, take_of_length_le, length-take, length-slice, le→ltb, lt→ltb, ◌==◌,
  Bool-cases,
}
use native.Mathlib.Decide.{dec_lt}
use statsrelay.Buffer.{
  Malloc, ok, fail, Buffer, datacount, spacecount, newsize, myrealloc, consume, produced, copy_in,
  realign,
}
use statsrelay.Buffer.Invariant.{IsValid, IsMalloc}

abbrev pub contents : Buffer → List ℕ
contents b = slice b.head b.tail b.mem

pub length-contents : {b : Buffer} → IsValid b → length (contents b) ≡ datacount b
length-contents {b} v = length-slice b.head b.tail b.mem (omega arith) (omega arith)

-- consume takes bytes from the front if it holds so many; else it changes nothing.
pub consume_lem :
    {b : Buffer} (amt : ℕ)
    → IsValid b
    → (amt ≤ datacount b
        → ((consume b amt).0 ≡ ok) × (contents (consume b amt).1 ≡ drop amt (contents b)))
      × (datacount b < amt → consume b amt ≡ (fail, b))
unfolding consume
consume_lem {b} amt v = (
  λ h. rw (le→ltb b.tail (b.head + amt) (omega arith)) (refl, front),
  λ h. rw (lt→ltb b.tail (b.head + amt) (omega arith)),
)
  where
    front : slice (b.head + amt) b.tail b.mem ≡ drop amt (contents b)
    front =
        rw
          (
            drop-take amt (b.tail - b.head) (drop b.head b.mem),
            drop-drop b.head amt (b.head + amt) b.mem refl,
          )
          (ap (λ k. take k (drop (b.head + amt) b.mem)) (omega arith))

-- buffer_consume of a valid buffer: if at least `amt` bytes are queued, it succeeds and takes the
-- first `amt` of them off; if fewer are, it fails and changes nothing.
consume_cases :
    {b : Buffer} (amt : ℕ)
    → IsValid b
    → ((amt ≤ length (contents b))
        × ((consume b amt).0 ≡ ok)
        × (contents (consume b amt).1 ≡ drop amt (contents b)))
      ⊎ ((length (contents b) < amt) × (consume b amt ≡ (fail, b)))
consume_cases {b} amt v = elim (dec_lt (datacount b) amt) [
  | yes short ↦ inr (omega (arith, length-contents v), (consume_lem amt v).1 short)
  | no enough ↦ inl (
    omega (arith, length-contents v),
    ((consume_lem amt v).0 (omega arith)).0,
    ((consume_lem amt v).0 (omega arith)).1,
  )
]

-- In a valid buffer, bytes that fit the free space, copied to the tail and then produced, stand
-- behind those that were queued, and buffer_produced succeeds.
pub contents-produced :
    {b : Buffer} (bytes : List ℕ)
    → IsValid b
    → length bytes ≤ spacecount b
    → (produced (copy_in b b.tail bytes) (length bytes)).0 ≡ ok
      × (contents (produced (copy_in b b.tail bytes) (length bytes)).1 ≡ contents b ++ bytes)
unfolding produced copy_in
contents-produced {b} bytes v h = rw (le→ltb b.size (b.tail + length bytes) (omega arith)) (
  refl,
  slice-overwrite b.head b.tail (b.tail + length bytes) b.mem bytes v.ordered (omega arith) refl,
)

pub contents-realign : {b : Buffer} → IsValid b → contents (realign b) ≡ contents b
unfolding realign copy_in
contents-realign {b} v = elim (Bool-cases (b.tail == b.head)) [
  | inl e ↦ rw e (
      ap (λ k. take k b.mem) {y = 0} (ground arith)
      ∙ sym (ap (λ k. take k (drop b.head b.mem)) {y = 0} (ground arith)))
  | inr e ↦ rw e (
      take-overwrite_zero b.mem (contents b) (b.tail - b.head - 0)
        (omega (arith, length-contents v)))
]

pub contents-newsize :
    (malloc : Malloc) {b : Buffer} (size : ℕ)
    → IsValid b
    → b.size ≤ size
    → contents (newsize malloc b size).1 ≡ contents b
unfolding newsize
contents-newsize malloc {b} size v h = elim (Option-cases (malloc size)) [
  | inl e ↦ rw (e, newsize, myrealloc)
  | inr (block, e) ↦
      rw (e, newsize, myrealloc)
        (slice-overwrite_zero b.head b.tail block (take b.size b.mem) v.ordered
            (omega (arith, length-take b.size b.mem))
          ∙ ap (slice b.head b.tail) (take_of_length_le b.size b.mem (omega arith)))
]

-- After a realignment all of the block behind the queued bytes is free.
pub spacecount-realign : {b : Buffer} → IsValid b → spacecount (realign b) ≡ b.size - datacount b
unfolding realign copy_in
spacecount-realign v = ground arith

pub spacecount-newsize :
    {malloc : Malloc} {b : Buffer} (size : ℕ)
    → IsMalloc malloc
    → IsValid b
    → b.size ≤ size
    → (newsize malloc b size).0 ≡ ok
    → spacecount (newsize malloc b size).1 ≡ spacecount b + (size - b.size)
unfolding newsize
spacecount-newsize {malloc} {b} size m v h e = elim (Option-cases (malloc size)) [
  | inl none_left ↦ ground arith
  | inr (block, got) ↦ ground (arith, m.limited size block got)
]
