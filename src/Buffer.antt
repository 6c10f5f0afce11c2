-- ===== src/Buffer.antt =====
-- src/buffer.c, src/buffer.h: a block of memory with a window of queued bytes.
pub mod Invariant
pub mod Queue
pub mod Growth
use statsrelay.Prelude.{
  ℕ, ◌+◌, ◌-◌, ◌*◌, ◌%◌, ◌^◌, Option, none, some, List, [], ltb, if◌then◌else◌, ◌==◌, not, length,
  take, overwrite, slice, u64,
}

-- A call of malloc(3): the block for a request, or NULL. What a fresh block holds is not determined.
abbrev pub Malloc : Type 0
Malloc = ℕ → Option (List ℕ)

-- The results 0 and -1.
pub data Status : Type 0 where
  ok fail : Status

-- `mem` is the block at `ptr`; `head` and `tail` are offsets from `ptr`.
pub record Buffer : Type 0 where
  pub mem : List ℕ
  pub head : ℕ
  pub tail : ℕ
  pub size : ℕ

abbrev pub initial_buffer_size : ℕ
initial_buffer_size = 4096

-- A `buffer_t` before its first call, whose fields are not determined.
abbrev pub unset : Buffer
unset = record { mem = []; head = 0; tail = 0; size = 0 }

unfoldable pub allocate : Malloc → Buffer → ℕ → Status × Buffer
allocate malloc b size = elim (malloc size) [
  | none ↦ (fail, record b { mem = []; size = size })
  | some block ↦ (ok, record { mem = block; head = 0; tail = 0; size = size })
]

unfoldable pub init : Malloc → Buffer → Status × Buffer
unfolding allocate
init malloc b = allocate malloc b initial_buffer_size

unfoldable pub create_buffer : Malloc → ℕ → Option Buffer
unfolding allocate
create_buffer malloc size =
    let (status, b) = allocate malloc unset size in elim status [ ok ↦ some b | fail ↦ none ]

abbrev pub datacount : Buffer → ℕ
datacount b = b.tail - b.head

-- `size_t` subtraction wraps.
abbrev pub spacecount : Buffer → ℕ
spacecount b = (b.size + 2 ^ 64 - b.tail) % 2 ^ 64

-- A block of `new` bytes with the `old` first bytes of `p` in front.
unfoldable pub myrealloc : Malloc → List ℕ → ℕ → ℕ → Option (List ℕ)
myrealloc malloc p old new = elim (malloc new) [
  | none ↦ none
  | some pnew ↦ some (overwrite pnew 0 (take old p))
]

unfoldable pub newsize : Malloc → Buffer → ℕ → Status × Buffer
unfolding myrealloc
newsize malloc b size = elim (myrealloc malloc b.mem b.size size) [
  | none ↦ (fail, b)
  | some pnew ↦ (ok, record b { mem = pnew; size = size })
]

unfoldable pub expand : Malloc → Buffer → Status × Buffer
unfolding newsize
expand malloc b = newsize malloc b (u64 (b.size * 2))

unfoldable pub consume : Buffer → ℕ → Status × Buffer
consume b amt =
    if ltb b.tail (b.head + amt) then (fail, b) else (ok, record b { head = b.head + amt })

unfoldable pub produced : Buffer → ℕ → Status × Buffer
produced b amt =
    if ltb b.size (b.tail + amt) then (fail, b) else (ok, record b { tail = b.tail + amt })

-- memcpy of `bytes` to offset `off`.
unfoldable pub copy_in : Buffer → ℕ → List ℕ → Buffer
copy_in b off bytes = record b { mem = overwrite b.mem off bytes }

unfoldable pub set : Malloc → Buffer → List ℕ → Status × Buffer
unfolding newsize produced copy_in
set malloc b bytes =
    if ltb b.size (length bytes)
    then (let (status, grown) = newsize malloc b (length bytes) in
        elim status [ fail ↦ (fail, grown) | ok ↦ produced (copy_in grown 0 bytes) (length bytes) ])
    else produced (copy_in b 0 bytes) (length bytes)

unfoldable pub init_contents : Malloc → Buffer → List ℕ → Status × Buffer
unfolding allocate set
init_contents malloc b bytes = set malloc (allocate malloc b (length bytes)).1 bytes

unfoldable pub realign : Buffer → Buffer
unfolding copy_in
realign b =
    let moved = if not (b.tail == b.head) then copy_in b 0 (slice b.head b.tail b.mem) else b in
    record moved { tail = b.tail - b.head; head = 0 }

-- The block is freed.
unfoldable pub destroy : Buffer → Buffer
destroy b = record { mem = []; head = 0; tail = 0; size = 0 }

unfoldable pub wrap : List ℕ → Buffer
wrap bytes = record { mem = bytes; head = 0; tail = length bytes; size = 0 }
