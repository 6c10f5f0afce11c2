-- ===== src/Decimal.antt =====
-- The decimal digits that printf(3) writes, and what they stand for.
use statsrelay.Prelude.{
  ℕ, zero, suc, ◌+◌, ◌-◌, ◌*◌, ◌/◌, ◌%◌, ◌^◌, ◌<◌, ◌≡◌, ap, ◌∙◌, List, [], ◌∷◌, if◌then◌else◌, ◌==◌,
  arith, Bool-cases, inl, inr,
}

-- The digits of a number, before `after`.
unfoldable pub decimal_digits : ℕ → ℕ → List ℕ → List ℕ
decimal_digits zero n after = after
decimal_digits (suc rounds) n after =
    let longer = decimal_digits rounds (n / 10) ((b'0' + n % 10) ∷ after) in
    if n / 10 == 0 then (b'0' + n % 10) ∷ after else longer

-- A uint64_t has at most 20 digits.
unfoldable pub decimal : ℕ → List ℕ
unfolding decimal_digits
decimal n = decimal_digits 20 n []

-- The number that digits stand for, behind those that make `acc`.
abbrev pub value_from : ℕ → List ℕ → ℕ
value_from acc [] = acc
value_from acc (x ∷ xs) = value_from (acc * 10 + (x - b'0')) xs

abbrev ten_to : ℕ → ℕ
ten_to zero = 1
ten_to (suc n) = 10 * ten_to n

value_from-decimal_digits :
    (rounds n : ℕ) (after : List ℕ)
    → n < ten_to rounds
    → value_from 0 (decimal_digits rounds n after) ≡ value_from n after
unfolding decimal_digits
value_from-decimal_digits zero n after h =
    ap (λ k. value_from k after) {x = 0} {y = n} (omega arith)
value_from-decimal_digits (suc rounds) n after h = elim (Bool-cases (n / 10 == 0)) [
  | inl last ↦
      rw (last, decimal_digits)
        (ap (λ k. value_from k after) {x = 0 * 10 + (b'0' + n % 10 - b'0')} {y = n} (ground arith))
  | inr more ↦
      rw (more, decimal_digits)
        (value_from-decimal_digits rounds (n / 10) ((b'0' + n % 10) ∷ after) (omega arith)
          ∙ ap (λ k. value_from k after) {x = n / 10 * 10 + (b'0' + n % 10 - b'0')} {y = n}
              (omega arith))
]

-- The digits of a 64-bit number stand for it.
pub value_from-decimal : (n : ℕ) → n < 2 ^ 64 → value_from 0 (decimal n) ≡ n
unfolding decimal
value_from-decimal n h = value_from-decimal_digits 20 n [] (omega arith)
