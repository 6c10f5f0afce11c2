-- ===== src/Bytes/Search.antt =====
-- What memchr finds.
use statsrelay.Prelude.{
  ℕ, zero, suc, ◌<◌, ◌≡◌, ◌≢◌, ◌↔◌, refl, ap, true, none, some, List, [], ◌∷◌, ◌++◌, arith, length,
  take, drop,
}
use statsrelay.Bytes.{memchr, same_bytes}

-- No byte of the list is `c`.
abbrev pub Lacks : ℕ → List ℕ → Type 0
Lacks c [] = Unit {0}
Lacks c (x ∷ xs) = (x ≢ c) × Lacks c xs

-- The first `c` behind a part that has none.
pub memchr-append :
    (c : ℕ) (xs ys : List ℕ) → Lacks c xs → memchr c (xs ++ c ∷ ys) ≡ some (length xs)
unfolding memchr
memchr-append c [] ys h = ground arith
memchr-append c (x ∷ xs) ys h = ground (arith, memchr-append c xs ys h.1)

pub memchr-Lacks : (c : ℕ) (xs : List ℕ) → Lacks c xs → memchr c xs ≡ none
unfolding memchr
memchr-Lacks c [] h = refl
memchr-Lacks c (x ∷ xs) h = ground (arith, memchr-Lacks c xs h.1)

pub Lacks-memchr : (c : ℕ) (xs : List ℕ) → memchr c xs ≡ none → Lacks c xs
unfolding memchr
Lacks-memchr c [] h = tt
Lacks-memchr c (x ∷ xs) h = (ground arith, Lacks-memchr c xs (ground arith))

pub memchr-split :
    (c : ℕ) (xs : List ℕ) (i : ℕ)
    → memchr c xs ≡ some i
    → (xs ≡ take i xs ++ c ∷ drop (suc i) xs) × Lacks c (take i xs)
unfolding memchr
memchr-split c [] i h = ground arith
memchr-split c (x ∷ xs) zero h = (ground arith, tt)
memchr-split c (x ∷ xs) (suc i) h =
    let found : memchr c xs ≡ some i = ground arith in
    (ap (λ l. x ∷ l) (memchr-split c xs i found).0, (ground arith, (memchr-split c xs i found).1))

pub memchr-lt : (c : ℕ) (xs : List ℕ) (i : ℕ) → memchr c xs ≡ some i → i < length xs
unfolding memchr
memchr-lt c [] i h = ground arith
memchr-lt c (x ∷ xs) zero h = omega arith
memchr-lt c (x ∷ xs) (suc i) h = omega (arith, memchr-lt c xs i (ground arith))

pub same_bytes_iff : (xs ys : List ℕ) → (same_bytes xs ys ≡ true) ↔ (xs ≡ ys)
unfolding same_bytes
same_bytes_iff [] [] = (λ h. refl, λ h. refl)
same_bytes_iff [] (y ∷ ys) = ground arith
same_bytes_iff (x ∷ xs) [] = ground arith
same_bytes_iff (x ∷ xs) (y ∷ ys) = ground (arith, same_bytes_iff xs ys)
