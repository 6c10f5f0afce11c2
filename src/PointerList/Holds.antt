-- ===== src/PointerList/Holds.antt =====
-- The sequence of objects that a list of pointers stands for.
use mathlib.Core.List.{map-append}
use statsrelay.Prelude.{
  ℕ, zero, suc, ◌-◌, ◌*◌, ◌^◌, ◌≤◌, ◌<◌, ◌≡◌, refl, ap, ◌∙◌, sym, true, Option, none, some, List,
  [], ◌∷◌, ◌++◌, map, arith, length, take, replicate, set, get_elem?, u64, length-append,
  length-replicate, length-set, take-append_of_le,
}
use statsrelay.PointerList.{Allocator, PointerList, new, expand, store}

-- No request past PTRDIFF_MAX succeeds.
pub record IsAllocator (can : Allocator) : Type 0 where
  pub limited : (n : ℕ) → can n ≡ true → n < 2 ^ 63

-- The first `size` slots hold `xs`, and the block has `allocated_size` slots.
pub record Holds {A : Type 0} (l : PointerList A) (xs : List A) : Type 0 where
  pub count : l.size ≡ length xs
  pub fits : l.size ≤ l.allocated_size
  pub block : length l.slots ≡ l.allocated_size
  pub small : 8 * l.allocated_size < 2 ^ 63
  pub held : take l.size l.slots ≡ map some xs

module _ {A : Type 0} where
  take-set_end :
      (n : ℕ) (ys : List A) (v : A)
      → n < length ys
      → take (suc n) (set ys n v) ≡ take n ys ++ v ∷ []
  take-set_end n [] v h = absurd (omega arith)
  take-set_end zero (y ∷ ys) v h = refl
  take-set_end (suc n) (y ∷ ys) v h = ap (λ l. y ∷ l) (take-set_end n ys v (omega arith))

  get_elem?-take : (n i : ℕ) (ys : List A) → i < n → get_elem? (take n ys) i ≡ get_elem? ys i
  get_elem?-take zero i ys h = absurd (omega arith)
  get_elem?-take (suc n) i [] h = refl
  get_elem?-take (suc n) zero (y ∷ ys) h = refl
  get_elem?-take (suc n) (suc i) (y ∷ ys) h = get_elem?-take n i ys (omega arith)

  get_elem?-map-some :
      (i : ℕ) (xs : List A) {x : A}
      → get_elem? xs i ≡ some x
      → get_elem? (map some xs) i ≡ some (some x)
  get_elem?-map-some i [] h = ground arith
  get_elem?-map-some zero (y ∷ ys) h = ground arith
  get_elem?-map-some (suc i) (y ∷ ys) h = get_elem?-map-some i ys h

module _ {A : Type 0} where
  pub Holds-new : Holds (new {A = A}) []
  unfolding new
  Holds-new = record {
    count = refl;
    fits = omega arith;
    block = refl;
    small = omega arith;
    held = refl;
  }

  -- The slot of an object is read back as that object.
  pub get_elem?-slots :
      {l : PointerList A} {xs : List A} (i : ℕ) {x : A}
      → Holds l xs
      → i < l.size
      → get_elem? xs i ≡ some x
      → get_elem? l.slots i ≡ some (some x)
  get_elem?-slots {l} {xs} i h lt e =
      sym (get_elem?-take l.size i l.slots lt)
      ∙ ap (λ s. get_elem? s i) h.held
      ∙ get_elem?-map-some i xs e

  -- What a successful `expand` leaves: one more slot, inside the block.
  record Grown (l : PointerList A) (l' : PointerList A) : Type 0 where
    count : l'.size ≡ suc l.size
    fits : l'.size ≤ l'.allocated_size
    block : length l'.slots ≡ l'.allocated_size
    small : 8 * l'.allocated_size < 2 ^ 63
    kept : take l.size l'.slots ≡ take l.size l.slots

  expand-Grown :
      {can : Allocator} {l : PointerList A} {xs : List A}
      → IsAllocator can
      → Holds l xs
      → (expand can l).0 ≡ true
      → Grown l (expand can l).1
  unfolding expand
  expand-Grown {can} {l} {xs} c h e = ground (
    arith,
    c.limited (u64 (8 * u64 (l.allocated_size * 2))),
    length-append l.slots (replicate (u64 (l.allocated_size * 2) - l.allocated_size) none),
    length-replicate {A = Option A} (u64 (l.allocated_size * 2) - l.allocated_size) none,
    take-append_of_le l.size l.slots
        (replicate (u64 (l.allocated_size * 2) - l.allocated_size) none),
    start l.size,
  )
    where
      start : (n : ℕ) → n ≡ 0 → take {A = Option A} n (none ∷ []) ≡ take n l.slots
      start zero h = refl
      start (suc n) h = absurd (omega arith)

  store-Holds :
      (obj : A) {l l' : PointerList A} {xs : List A}
      → Holds l xs
      → Grown l l'
      → Holds (store obj l') (xs ++ obj ∷ [])
  unfolding store
  store-Holds obj {l} {l'} {xs} h g = record {
    count = omega (arith, g.count, h.count, length-append xs (obj ∷ []));
    fits = g.fits;
    block = length-set l'.slots (l'.size - 1) (some obj) ∙ g.block;
    small = g.small;
    held =
        ap (λ n. take n (set l'.slots (l'.size - 1) (some obj))) g.count
        ∙ ap (λ n. take (suc l.size) (set l'.slots n (some obj))) (omega (arith, g.count))
        ∙ take-set_end l.size l'.slots (some obj) (omega arith)
        ∙ ap (λ s. s ++ some obj ∷ []) (g.kept ∙ h.held)
        ∙ sym (map-append some xs (obj ∷ []));
  }

  -- If statsrelay_list_expand succeeds on a list that holds `xs`, with an allocator that serves no
  -- request of 2^63 bytes or more, then the list holds `xs` followed by the object that is stored
  -- in the new slot.
  pub store-expand-Holds :
      {can : Allocator} (obj : A) {l : PointerList A} {xs : List A}
      → IsAllocator can
      → Holds l xs
      → (expand can l).0 ≡ true
      → Holds (store obj (expand can l).1) (xs ++ obj ∷ [])
  store-expand-Holds obj c h e = store-Holds obj h (expand-Grown c h e)
