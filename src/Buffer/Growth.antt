-- ===== src/Buffer/Growth.antt =====
-- buffer_newsize and buffer_expand: the growth of a buffer.
use statsrelay.Prelude.{ℕ, ◌+◌, ◌*◌, ◌≤◌, ◌≡◌, List, arith, u64, Option-cases, inl, inr}
use statsrelay.Buffer.{
  Malloc, Status, ok, fail, Buffer, datacount, spacecount, newsize, expand, consume, produced,
  realign, copy_in,
}
use statsrelay.Buffer.Invariant.{IsValid, IsMalloc, newsize-IsValid}
use statsrelay.Buffer.Queue.{contents, contents-newsize, spacecount-newsize}

newsize_fields :
    (malloc : Malloc) (b : Buffer) (size : ℕ)
    → (datacount (newsize malloc b size).1 ≡ datacount b)
      × ((newsize malloc b size).0 ≡ ok → (newsize malloc b size).1.size ≡ size)
      × ((newsize malloc b size).0 ≡ fail → (newsize malloc b size).1 ≡ b)
unfolding newsize
newsize_fields malloc b size = elim (Option-cases (malloc size)) [
  | inl e ↦ ground arith
  | inr (block, e) ↦ ground arith
]

-- What a doubled buffer keeps, and what it gains.
pub record IsDoubled (b : Buffer) (result : Status × Buffer) : Type 0 where
  pub valid : IsValid result.1
  pub kept : contents result.1 ≡ contents b
  pub counted : datacount result.1 ≡ datacount b
  pub gained : result.0 ≡ ok → spacecount result.1 ≡ spacecount b + b.size
  pub grown : result.0 ≡ ok → result.1.size ≡ b.size + b.size
  pub same : result.0 ≡ fail → result.1 ≡ b

-- buffer_expand of a valid buffer, where malloc keeps its contract, keeps the queued bytes and
-- leaves the buffer valid; on success it has doubled the block and the free space has grown by the
-- old size, on failure the buffer is unchanged.
pub expand-IsDoubled :
    {malloc : Malloc} {b : Buffer} → IsMalloc malloc → IsValid b → IsDoubled b (expand malloc b)
unfolding expand
expand-IsDoubled {malloc} {b} m v =
    let e : u64 (b.size * 2) ≡ b.size + b.size = omega arith in
    rw e (record {
      valid = newsize-IsValid (b.size + b.size) m v (omega arith);
      kept = contents-newsize malloc (b.size + b.size) v (omega arith);
      counted = (newsize_fields malloc b (b.size + b.size)).0;
      gained = λ h. omega (arith, spacecount-newsize (b.size + b.size) m v (omega arith) h);
      grown = (newsize_fields malloc b (b.size + b.size)).1;
      same = (newsize_fields malloc b (b.size + b.size)).2;
    })

pub size-le-newsize :
    (malloc : Malloc) (b : Buffer) (size : ℕ)
    → b.size ≤ size
    → b.size ≤ (newsize malloc b size).1.size
unfolding newsize
size-le-newsize malloc b size h = elim (Option-cases (malloc size)) [
  | inl e ↦ ground arith
  | inr (block, e) ↦ ground arith
]

pub size-realign : (b : Buffer) → (realign b).size ≡ b.size
unfolding realign copy_in
size-realign b = ground arith

pub size-consume : (b : Buffer) (n : ℕ) → (consume b n).1.size ≡ b.size
unfolding consume
size-consume b n = ground arith

pub size-produced :
    (b : Buffer) (off n : ℕ) (bytes : List ℕ) → (produced (copy_in b off bytes) n).1.size ≡ b.size
unfolding produced copy_in
size-produced b off n bytes = ground arith
