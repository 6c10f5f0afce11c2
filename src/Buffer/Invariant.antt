-- ===== src/Buffer/Invariant.antt =====
-- The well-formed buffers, and the contract of malloc.
use statsrelay.Prelude.{
  ◌⊎◌, refl, Option-cases, inl, inr, ℕ, ◌+◌, ◌^◌, ◌≤◌, ◌<◌, ◌≡◌, some, List, arith, length, take,
  slice, length-overwrite, length-take, length-slice,
}
use statsrelay.Buffer.{
  Status, fail, Malloc, ok, Buffer, allocate, spacecount, myrealloc, newsize, consume, produced,
  copy_in, realign,
}

-- A copy past the end of a block would lengthen `mem`: `block` says that none has happened.
pub record IsValid (b : Buffer) : Type 0 where
  pub ordered : b.head ≤ b.tail
  pub within : b.tail ≤ b.size
  pub block : length b.mem ≡ b.size
  pub small : b.size < 2 ^ 63

-- What malloc(3) documents: the block has the size asked for, and a request past PTRDIFF_MAX fails.
pub record IsMalloc (malloc : Malloc) : Type 0 where
  pub sized : (n : ℕ) (block : List ℕ) → malloc n ≡ some block → length block ≡ n
  pub limited : (n : ℕ) (block : List ℕ) → malloc n ≡ some block → n < 2 ^ 63

pub space-add-tail : {b : Buffer} → IsValid b → spacecount b + b.tail ≡ b.size
space-add-tail v = omega arith

pub allocate-IsValid :
    {malloc : Malloc} (b : Buffer) (size : ℕ)
    → IsMalloc malloc
    → (allocate malloc b size).0 ≡ ok
    → IsValid (allocate malloc b size).1
unfolding allocate
allocate-IsValid {malloc} b size m h = elim (Option-cases (malloc size)) [
  | inl e ↦ ground arith
  | inr (block, e) ↦ ground (arith, m.sized size block e, m.limited size block e)
]

-- A larger block keeps the window.
pub newsize-IsValid :
    {malloc : Malloc} {b : Buffer} (size : ℕ)
    → IsMalloc malloc
    → IsValid b
    → b.size ≤ size
    → IsValid (newsize malloc b size).1
unfolding newsize
newsize-IsValid {malloc} {b} size m v h = elim (Option-cases (malloc size)) [
  | inl e ↦ rw (e, newsize, myrealloc) v
  | inr (block, e) ↦ ground (
    arith,
    m.sized size block e,
    m.limited size block e,
    length-overwrite block 0 (take b.size b.mem),
    length-take b.size b.mem,
  )
]

pub consume-IsValid : {b : Buffer} (amt : ℕ) → IsValid b → IsValid (consume b amt).1
unfolding consume
consume-IsValid amt v = ground arith

pub produced-IsValid : {b : Buffer} (amt : ℕ) → IsValid b → IsValid (produced b amt).1
unfolding produced
produced-IsValid amt v = ground arith

pub copy_in-IsValid :
    {b : Buffer} (off : ℕ) (bytes : List ℕ)
    → IsValid b
    → off + length bytes ≤ b.size
    → IsValid (copy_in b off bytes)
unfolding copy_in
copy_in-IsValid {b} off bytes v h = ground (arith, length-overwrite b.mem off bytes)

pub realign-IsValid : {b : Buffer} → IsValid b → IsValid (realign b)
unfolding realign
realign-IsValid {b} v =
    ground (
      arith,
      length-overwrite b.mem 0 (slice b.head b.tail b.mem),
      length-slice b.head b.tail b.mem,
    )

pub Status-cases : (s : Status) → (s ≡ ok) ⊎ (s ≡ fail)
Status-cases ok = inl refl
Status-cases fail = inr refl
