-- ===== src/Prelude/Slices.antt =====
-- How `take`, `drop` and `++` combine, and the copy of bytes into a block.
use Prim.Native.Nat.{ℕ, zero, suc, ◌+◌, ◌-◌, ◌≤◌}
use mathlib.Core.Path.{◌≡◌, refl, ap, ◌∙◌}
use mathlib.Core.List.{List, [], ◌∷◌, ◌++◌, append_assoc}
use native.Mathlib.Omega.{arith}
use statsrelay.Prelude.Lists.{length, take, drop, length-append, length-take, length-drop}

module _ {ℓ} {A : Type ℓ} where
  pub take-append-drop : (n : ℕ) (xs : List A) → take n xs ++ drop n xs ≡ xs
  take-append-drop zero xs = refl
  take-append-drop (suc n) [] = refl
  take-append-drop (suc n) (x ∷ xs) = ap (λ l. x ∷ l) (take-append-drop n xs)

  pub take_of_length_le : (n : ℕ) (xs : List A) → length xs ≤ n → take n xs ≡ xs
  take_of_length_le zero [] h = refl
  take_of_length_le zero (x ∷ xs) h = absurd (omega arith)
  take_of_length_le (suc n) [] h = refl
  take_of_length_le (suc n) (x ∷ xs) h = ap (λ l. x ∷ l) (take_of_length_le n xs (omega arith))

  pub take-append : (n : ℕ) (xs ys : List A) → length xs ≡ n → take n (xs ++ ys) ≡ xs
  take-append zero [] ys h = refl
  take-append zero (x ∷ xs) ys h = absurd (omega arith)
  take-append (suc n) [] ys h = absurd (omega arith)
  take-append (suc n) (x ∷ xs) ys h = ap (λ l. x ∷ l) (take-append n xs ys (omega arith))

  pub drop-append : (n : ℕ) (xs ys : List A) → length xs ≡ n → drop n (xs ++ ys) ≡ ys
  drop-append zero [] ys h = refl
  drop-append zero (x ∷ xs) ys h = absurd (omega arith)
  drop-append (suc n) [] ys h = absurd (omega arith)
  drop-append (suc n) (x ∷ xs) ys h = drop-append n xs ys (omega arith)

  pub take-append_of_le : (n : ℕ) (xs ys : List A) → n ≤ length xs → take n (xs ++ ys) ≡ take n xs
  take-append_of_le zero xs ys h = refl
  take-append_of_le (suc n) [] ys h = absurd (omega arith)
  take-append_of_le (suc n) (x ∷ xs) ys h =
      ap (λ l. x ∷ l) (take-append_of_le n xs ys (omega arith))

  pub drop-append_of_le :
      (n : ℕ) (xs ys : List A) → n ≤ length xs → drop n (xs ++ ys) ≡ drop n xs ++ ys
  drop-append_of_le zero xs ys h = refl
  drop-append_of_le (suc n) [] ys h = absurd (omega arith)
  drop-append_of_le (suc n) (x ∷ xs) ys h = drop-append_of_le n xs ys (omega arith)

  pub drop-take : (m n : ℕ) (xs : List A) → drop m (take n xs) ≡ take (n - m) (drop m xs)
  drop-take zero n xs = ap (λ k. take k xs) (omega arith)
  drop-take (suc m) zero xs = ap (λ k. take k (drop (suc m) xs)) {x = 0} (omega arith)
  drop-take (suc m) (suc n) [] = nil (suc n - suc m)
    where
      nil : (k : ℕ) → [] ≡ take {A = A} k []
      nil zero = refl
      nil (suc k) = refl
  drop-take (suc m) (suc n) (x ∷ xs) = drop-take m n xs ∙ ap (λ k. take k (drop m xs)) (omega arith)

  pub drop-nil : (n : ℕ) → drop {A = A} n [] ≡ []
  drop-nil zero = refl
  drop-nil (suc n) = refl

  pub drop-drop : (m n k : ℕ) (xs : List A) → m + n ≡ k → drop n (drop m xs) ≡ drop k xs
  drop-drop zero n k xs e = ap (λ j. drop j xs) (omega arith)
  drop-drop (suc m) n zero xs e = absurd (omega arith)
  drop-drop (suc m) n (suc k) [] e = drop-nil n
  drop-drop (suc m) n (suc k) (x ∷ xs) e = drop-drop m n k xs (omega arith)

  -- memcpy of `ys` to offset `off` of the block `xs`. A copy that passes the end lengthens the list.
  pub overwrite : List A → ℕ → List A → List A
  overwrite xs off ys = take off xs ++ (ys ++ drop (off + length ys) xs)

  pub length-overwrite :
      (xs : List A) (off : ℕ) (ys : List A)
      → off + length ys ≤ length xs
      → length (overwrite xs off ys) ≡ length xs
  unfolding overwrite
  length-overwrite xs off ys h = omega (
    arith,
    length-append (take off xs) (ys ++ drop (off + length ys) xs),
    length-append ys (drop (off + length ys) xs),
    length-take off xs,
    length-drop (off + length ys) xs,
  )

  pub overwrite-append :
      (n : ℕ) (xs rest ys : List A)
      → length xs ≡ n
      → overwrite (xs ++ rest) n ys ≡ xs ++ (ys ++ drop (n + length ys) (xs ++ rest))
  unfolding overwrite
  overwrite-append n xs rest ys e =
      ap (λ l. l ++ (ys ++ drop (n + length ys) (xs ++ rest))) (take-append n xs rest e)

  -- the bytes from `h` up to `t`
  abbrev pub slice : ℕ → ℕ → List A → List A
  slice h t xs = take (t - h) (drop h xs)

  pub length-slice : (h t : ℕ) (xs : List A) → h ≤ t → t ≤ length xs → length (slice h t xs) ≡ t - h
  length-slice h t xs p q = omega (arith, length-take (t - h) (drop h xs), length-drop h xs)

  pub take-overwrite_zero :
      (xs ys : List A) (n : ℕ) → length ys ≡ n → take n (overwrite xs 0 ys) ≡ ys
  unfolding overwrite
  take-overwrite_zero xs ys n e = take-append n ys (drop (0 + length ys) xs) e

  slice-front :
      (h t u : ℕ) (xs ys rest : List A)
      → h ≤ t
      → t ≤ length xs
      → t + length ys ≡ u
      → slice h u (take t xs ++ (ys ++ rest)) ≡ slice h t xs ++ ys
  slice-front h t u xs ys rest p q e =
      rw (drop-append_of_le h (take t xs) (ys ++ rest) front, drop-take h t xs)
        (rw (← append_assoc) (take-append (u - h) (slice h t xs ++ ys) rest total))
    where
      front : h ≤ length (take t xs)
      front = omega (arith, length-take t xs)

      total : length (slice h t xs ++ ys) ≡ u - h
      total = omega (arith, length-append (slice h t xs) ys, length-slice h t xs p q)

  -- A write at the end of a slice extends it.
  pub slice-overwrite :
      (h t u : ℕ) (xs ys : List A)
      → h ≤ t
      → t ≤ length xs
      → t + length ys ≡ u
      → slice h u (overwrite xs t ys) ≡ slice h t xs ++ ys
  unfolding overwrite
  slice-overwrite h t u xs ys p q e = slice-front h t u xs ys (drop (t + length ys) xs) p q e

  -- The first part of such a write.
  pub slice-overwrite_part :
      (h t u : ℕ) (xs ys zs : List A)
      → h ≤ t
      → t ≤ length xs
      → t + length ys ≡ u
      → slice h u (overwrite xs t (ys ++ zs)) ≡ slice h t xs ++ ys
  unfolding overwrite
  slice-overwrite_part h t u xs ys zs p q e =
      ap (λ l. slice h u (take t xs ++ l)) (append_assoc ys zs (drop (t + length (ys ++ zs)) xs))
      ∙ slice-front h t u xs ys (zs ++ drop (t + length (ys ++ zs)) xs) p q e

  -- A copy to the front of a larger block keeps every slice.
  pub slice-overwrite_zero :
      (h t : ℕ) (xs ys : List A)
      → h ≤ t
      → t ≤ length ys
      → slice h t (overwrite xs 0 ys) ≡ slice h t ys
  unfolding overwrite
  slice-overwrite_zero h t xs ys p q =
      rw (drop-append_of_le h ys (drop (0 + length ys) xs) (omega arith)) (
        take-append_of_le (t - h) (drop h ys) (drop (0 + length ys) xs)
          (omega (arith, length-drop h ys)))
