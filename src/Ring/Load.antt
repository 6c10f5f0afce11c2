-- ===== src/Ring/Load.antt =====
-- The objects of a ring that hashring_load_from_config has filled.
use statsrelay.Prelude.{
  ap, ℕ, ◌≡◌, subst, Option, none, some, List, [], ◌∷◌, ◌++◌, arith, Bool-cases, Option-cases, inl,
  inr, append-nil, append_assoc,
}
use statsrelay.PointerList
use statsrelay.PointerList.{PointerList, Allocator}
use statsrelay.PointerList.Holds.{Holds, Holds-new, IsAllocator, store-expand-Holds}
use statsrelay.Ring.{Pointer, Ring, Callbacks, add, load_lines, load_from_config}

abbrev push_object : {S : Type 0} → Pointer → Option (List Pointer) × S → Option (List Pointer) × S
push_object obj (none, s) = (none, s)
push_object obj (some objs, s) = (some (obj ∷ objs), s)

module _ {S : Type 0} (callbacks : Callbacks S) where
  -- The objects of all lines, made one after the other.
  unfoldable pub alloc_all : List (List ℕ) → S → Option (List Pointer) × S
  alloc_all [] s = (some [], s)
  alloc_all (line ∷ lines) s =
      let rest = alloc_all lines (callbacks.alloc line s).1 in
      elim (callbacks.alloc line s).0 [
        | none ↦ (none, (callbacks.alloc line s).1)
        | some obj ↦ push_object obj rest
      ]

  pub alloc_all-cons :
      (line : List ℕ) (lines : List (List ℕ)) (s s' : S) (obj : Pointer) (ys : List Pointer)
      → (callbacks.alloc line s).0 ≡ some obj
      → alloc_all lines (callbacks.alloc line s).1 ≡ (some ys, s')
      → alloc_all (line ∷ lines) s ≡ (some (obj ∷ ys), s')
  unfolding alloc_all
  alloc_all-cons line lines s s' obj ys made eq = rw (made, alloc_all) (ap (push_object obj) eq)

  load_lines-Holds :
      (can : Allocator) (lines : List (List ℕ)) (ring ring' : Ring) (xs : List Pointer) (s s' : S)
      → IsAllocator can
      → Holds ring.backends xs
      → load_lines callbacks can ring lines s ≡ (some ring', s')
      → (ys : List Pointer) × (alloc_all lines s ≡ (some ys, s')) × Holds ring'.backends (xs ++ ys)
  unfolding load_lines alloc_all
  load_lines-Holds can [] ring ring' xs s s' c h e =
      ([], ground arith, rw append-nil (subst (λ (r : Ring). Holds r.backends xs) (ground arith) h))
  load_lines-Holds can (line ∷ lines) ring ring' xs s s' c h e =
      elim (Option-cases (callbacks.alloc line s).0) [
        | inl failed ↦ absurd (cc (rw (failed, load_lines, add) at e))
        | inr (obj, made) ↦ elim (Bool-cases (PointerList.expand can ring.backends).0) [
          | inl grown ↦
              let l = PointerList.store obj (PointerList.expand can ring.backends).1 in
              let (ys, eq, holds) =
                load_lines-Holds can lines (record { backends = l }) ring' (xs ++ obj ∷ [])
                  (callbacks.alloc line s).1 s' c (store-expand-Holds obj c h grown)
                  (rw (made, grown, load_lines, add) at e) in
              (
                obj ∷ ys,
                alloc_all-cons line lines s s' obj ys made eq,
                subst (λ z. Holds ring'.backends z) (append_assoc xs (obj ∷ []) ys) holds,
              )
          | inr stuck ↦ absurd (cc (rw (made, stuck, load_lines, add) at e))
        ]
      ]

  -- If hashring_load_from_config succeeds, with an allocator that serves no request of 2^63 bytes
  -- or more, then the ring holds the objects that the alloc callback made of the configuration's
  -- lines, one after the other and in their order.
  pub load_from_config-Holds :
      (can : Allocator) (lines : List (List ℕ)) (ring : Ring) (s s' : S)
      → IsAllocator can
      → load_from_config callbacks can lines s ≡ (some ring, s')
      → (objs : List Pointer) × (alloc_all lines s ≡ (some objs, s')) × Holds ring.backends objs
  unfolding load_from_config
  load_from_config-Holds can lines ring s s' c e = elim (Bool-cases (can 32)) [
    | inl made ↦
        load_lines-Holds can lines (record { backends = PointerList.new }) ring [] s s' c Holds-new
          (rw (made, load_from_config) at e)
    | inr failed ↦ absurd (cc (rw (failed, load_from_config) at e))
  ]
