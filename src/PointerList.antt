-- ===== src/PointerList.antt =====
-- src/list.c, src/list.h: a growing array of pointers.
pub mod Holds
use statsrelay.Prelude.{
  ℕ, ◌+◌, ◌-◌, ◌*◌, ◌%◌, ◌^◌, Bool, true, false, Option, none, some, List, [], ◌∷◌, ◌++◌, ltb, ◌==◌,
  if◌then◌else◌, length, take, replicate, set, u64,
}

-- Whether malloc or realloc can serve a request of so many bytes.
abbrev pub Allocator : Type 0
Allocator = ℕ → Bool

-- A slot of `data` that was never written is `none`.
pub record PointerList {ℓ} (A : Type ℓ) : Type ℓ where
  pub allocated_size : ℕ
  pub size : ℕ
  pub slots : List (Option A)

module _ {ℓ} {A : Type ℓ} where
  unfoldable pub new : PointerList A
  new = record { allocated_size = 0; size = 0; slots = [] }

  -- The result is whether the new slot's address was returned. A failure leaves the counts raised.
  unfoldable pub expand : Allocator → PointerList A → Bool × PointerList A
  expand can l =
      let size = u64 (l.size + 1) in
      if ltb l.allocated_size size
      then (if l.allocated_size == 0
          then (if can 8
              then (true, record { allocated_size = 1; size = size; slots = none ∷ [] })
              else (false, record { allocated_size = 1; size = size; slots = [] }))
          else (let doubled = u64 (l.allocated_size * 2) in
              if can (u64 (8 * doubled))
              then (
                true,
                record {
                  allocated_size = doubled;
                  size = size;
                  slots = l.slots ++ replicate (doubled - l.allocated_size) none;
                },
              )
              else (false, record { allocated_size = doubled; size = size; slots = l.slots })))
      else (true, record l { size = size })

  -- `list->data[list->size - 1] = obj`, which follows every successful `expand`.
  unfoldable pub store : A → PointerList A → PointerList A
  store obj l = record l { slots = set l.slots (l.size - 1) (some obj) }
