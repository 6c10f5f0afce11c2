-- ===== src/Validate/Carbon.antt =====
-- What validate_carbon accepts.
use statsrelay.Prelude.{
  ℕ, zero, suc, ◌+◌, ◌≤◌, ◌≡◌, ◌↔◌, refl, ap, ◌∙◌, none, some, List, [], ◌∷◌, if◌then◌else◌, ◌==◌,
  ltb, drop, arith, Bool-cases, Option-cases, inl, inr,
}
use statsrelay.Bytes.{memchr}
use statsrelay.Validate.{spaces_found, validate_carbon}

-- How often a byte occurs.
abbrev pub occurrences : ℕ → List ℕ → ℕ
occurrences c [] = 0
occurrences c (x ∷ xs) = let rest = occurrences c xs in if x == c then suc rest else rest

occurrences-none : (c : ℕ) (xs : List ℕ) → memchr c xs ≡ none → occurrences c xs ≡ 0
unfolding memchr
occurrences-none c [] h = refl
occurrences-none c (x ∷ xs) h = ground (arith, occurrences-none c xs)

occurrences-drop :
    (c : ℕ) (xs : List ℕ) (i : ℕ)
    → memchr c xs ≡ some i
    → occurrences c xs ≡ suc (occurrences c (drop (suc i) xs))
unfolding memchr
occurrences-drop c [] i h = ground arith
occurrences-drop c (x ∷ xs) zero h = ground arith
occurrences-drop c (x ∷ xs) (suc i) h =
    let found : memchr c xs ≡ some i = ground arith in ground (arith, occurrences-drop c xs i found)

-- The loop counts up to a third space.
spaces_found_lem :
    (rounds found : ℕ) (bytes : List ℕ)
    → found + rounds ≡ 3
    → found ≤ 2
    → spaces_found rounds found bytes
      ≡ (if ltb 2 (found + occurrences b' ' bytes) then 3 else found + occurrences b' ' bytes)
unfolding spaces_found
spaces_found_lem zero found bytes total low = absurd (omega arith)
spaces_found_lem (suc rounds) found bytes total low = elim (Option-cases (memchr b' ' bytes)) [
  | inl e ↦ rw (e, spaces_found) (ground (arith, occurrences-none b' ' bytes e))
  | inr (s, e) ↦ elim (Bool-cases (ltb 2 (found + 1))) [
    | inl third ↦ rw (e, third, spaces_found) (ground (arith, occurrences-drop b' ' bytes s e))
    | inr more ↦
        rw (e, more, spaces_found)
          (spaces_found_lem rounds (found + 1) (drop (suc s) bytes) (omega arith) (ground arith)
            ∙ ap (λ n. if ltb 2 n then 3 else n)
                {x = found + 1 + occurrences b' ' (drop (suc s) bytes)}
                {y = found + occurrences b' ' bytes}
                (omega (arith, occurrences-drop b' ' bytes s e)))
  ]
]

-- validate_carbon accepts a line exactly when it has two spaces.
pub validate_carbon_iff : (line : List ℕ) → (validate_carbon line ≡ 0) ↔ (occurrences b' ' line ≡ 2)
unfolding validate_carbon
validate_carbon_iff line = ground (arith, spaces_found_lem 3 0 line refl (omega arith))
