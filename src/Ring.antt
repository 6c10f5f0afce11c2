-- ===== src/Ring.antt =====
-- src/hashring.c, src/hashring.h: the shards of a key space, a pointer for each.
pub mod Shards
pub mod Load
pub mod Dealloc
use statsrelay.Prelude.{
  ℕ, ◌+◌, Bool, true, false, Option, none, some, List, [], ◌∷◌, ◌==◌, if◌then◌else◌, get_elem?,
  take,
}
use statsrelay.Bytes.{c_str}
use statsrelay.Hash.{stats_hash, u32}
use statsrelay.PointerList
use statsrelay.PointerList.{PointerList, Allocator}

-- A `void *` that is not NULL.
abbrev pub Pointer : Type 0
Pointer = ℕ

-- The callbacks act on what stands behind `alloc_data`, of type `S`; NULL is `none`.
pub record Callbacks (S : Type 0) : Type 0 where
  pub alloc : List ℕ → S → Option Pointer × S
  pub dealloc : Pointer → S → S

pub record Ring : Type 0 where
  pub backends : PointerList Pointer

-- NULL where malloc has no memory for a `struct hashring`. That it has memory for the empty list too is
-- assumed: a ring whose `backends` is NULL has no counterpart here.
unfoldable pub init : Allocator → Option Ring
unfolding PointerList.new
init can = if can 32 then some (record { backends = PointerList.new }) else none

-- A NULL ring has size 0.
unfoldable pub size : Option Ring → ℕ
size none = 0
size (some ring) = ring.backends.size

abbrev pub read_slot : Option (Option Pointer) → ℕ → Option (Pointer × ℕ)
read_slot (some (some obj)) index = some (obj, index)
read_slot _ index = none

-- The object and the shard of a key. The read of a slot that holds no object is `none` too.
unfoldable pub choose : Option Ring → List ℕ → Option (Pointer × ℕ)
unfolding c_str
choose none key = none
choose (some ring) key =
    if ring.backends.size == 0
    then none
    else (let index = u32 (stats_hash (c_str key) ring.backends.size) in
        read_slot (get_elem? ring.backends.slots index) index)

-- The inner loop of hashring_dealloc: whether the pointer stands in an earlier slot.
abbrev pub seen : Pointer → List (Option Pointer) → Bool
seen obj [] = false
seen obj (none ∷ earlier) = seen obj earlier
seen obj (some x ∷ earlier) = if obj == x then true else seen obj earlier

module _ {S : Type 0} (callbacks : Callbacks S) where
  -- A line is `none` for NULL.
  unfoldable pub add : Allocator → Ring → Option (List ℕ) → S → Bool × Ring × S
  unfolding PointerList.expand PointerList.store
  add can ring none s = (false, ring, s)
  add can ring (some line) s =
      let (made, s') = callbacks.alloc line s in
      elim made [
        | none ↦ (false, ring, s')
        | some obj ↦
            let (grown, l) = PointerList.expand can ring.backends in
            if grown
            then (true, record ring { backends = PointerList.store obj l }, s')
            else (false, record ring { backends = l }, callbacks.dealloc obj s')
      ]

  -- The outer loop of hashring_dealloc over the slots that are left, with the earlier ones.
  unfoldable pub dealloc_slots : List (Option Pointer) → List (Option Pointer) → S → S
  dealloc_slots [] earlier s = s
  dealloc_slots (none ∷ slots) earlier s = dealloc_slots slots (none ∷ earlier) s
  dealloc_slots (some obj ∷ slots) earlier s =
      dealloc_slots slots (some obj ∷ earlier)
        (if seen obj earlier then s else callbacks.dealloc obj s)

  unfoldable pub dealloc : Option Ring → S → S
  unfolding dealloc_slots
  dealloc none s = s
  dealloc (some ring) s = dealloc_slots (take ring.backends.size ring.backends.slots) [] s

  -- The loop of hashring_load_from_config over the lines of `pc->ring`.
  unfoldable pub load_lines : Allocator → Ring → List (List ℕ) → S → Option Ring × S
  unfolding add dealloc
  load_lines can ring [] s = (some ring, s)
  load_lines can ring (line ∷ lines) s =
      let (added, ring', s') = add can ring (some line) s in
      let rest = load_lines can ring' lines s' in
      if added then rest else (none, dealloc (some ring') s')

  unfoldable pub load_from_config : Allocator → List (List ℕ) → S → Option Ring × S
  unfolding load_lines init
  load_from_config can lines s = elim (init can) [
    | none ↦ (none, s)
    | some ring ↦ load_lines can ring lines s
  ]
