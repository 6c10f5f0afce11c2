-- ===== src/StressTest/Blocks.antt =====
-- The block that a line is read into.
use statsrelay.Prelude.{
  ℕ, zero, suc, ◌+◌, ◌-◌, ◌*◌, ◌^◌, ◌≤◌, ◌<◌, ◌≡◌, refl, ap, ◌∙◌, sym, some, List, [], ◌∷◌, ◌++◌,
  ltb, length, u64, arith, inl, inr, ltb→le, ◌⊎◌, Bool-cases, length-append, append_assoc,
  append-nil,
}
use statsrelay.Bytes.Search.{Lacks}
use statsrelay.StressTest.{Read, grow, reserve}

-- A key of a byte at least, without newline or NUL.
pub record IsKey (key : List ℕ) : Type 0 where
  pub some_bytes : 0 < length key
  pub one_line : Lacks 10 key
  pub no_nul : Lacks 0 key

-- getline has read the key and its newline, if it has one, and put a NUL behind them. There is memory for a
-- longer block, and send(2) always takes a byte at least and no more than it is given.
pub record IsLine (key ending : List ℕ) (r : Read) : Type 0 where
  pub ends : (ending ≡ []) ⊎ (ending ≡ 10 ∷ [])
  pub rest : List ℕ
  pub measured : r.read ≡ length key + length ending
  pub filled : r.block ≡ key ++ (ending ++ 0 ∷ rest)
  pub limited : r.read + 6 ≤ 2 ^ 63
  pub memory : (n : ℕ) → (bytes : List ℕ) × (r.fresh n ≡ some bytes) × (length bytes ≡ n)
  pub sends : (left : ℕ) → 0 < left → (n : ℕ) × (r.send left ≡ some n) × (0 < n) × (n ≤ left)

grow_lem :
    (rounds read len : ℕ)
    → 0 < len
    → read + 6 ≤ len + rounds
    → read + 6 ≤ 2 ^ 63
    → (len ≤ grow rounds read len) × (read + 6 ≤ grow rounds read len)
unfolding grow
grow_lem zero read len pos enough small = (omega arith, omega arith)
grow_lem (suc rounds) read len pos enough small = elim (Bool-cases (ltb len (read + 6))) [
  | inl short ↦
      let double : u64 (len * 2) ≡ len * 2 = ground (arith, short) in
      let (_, fits) = grow_lem rounds read (len * 2) (omega arith) (omega arith) small in
      rw (short, double, grow) (ground (arith, short, fits), fits)
  | inr wide ↦ rw (wide, grow) (omega arith, ground (arith, wide))
]

length-line :
    (key ending rest : List ℕ)
    → length (key ++ (ending ++ 0 ∷ rest)) ≡ length key + (length ending + suc (length rest))
length-line key ending rest =
    omega (arith, length-append key (ending ++ 0 ∷ rest), length-append ending (0 ∷ rest))

-- The block behind realloc starts with the same line.
pub reserve_lem :
    (key ending : List ℕ) (r : Read)
    → IsLine key ending r
    → (rest : List ℕ) × (reserve r ≡ some (key ++ (ending ++ 0 ∷ rest)))
      × (r.read + 6 ≤ length (key ++ (ending ++ 0 ∷ rest)))
unfolding reserve
reserve_lem key ending r l =
    let len = grow (r.read + 6) r.read (length r.block) in
    let size = ap length l.filled ∙ length-line key ending l.rest in
    let (kept, enough) =
      grow_lem (r.read + 6) r.read (length r.block) (omega (arith, size)) (omega arith) l.limited in
    elim (Bool-cases (ltb (length r.block) len)) [
      | inr same ↦ (
        l.rest,
        rw same (ap some l.filled),
        omega (arith, length-line key ending l.rest, size, enough, ltb→le _ _ same),
      )
      | inl longer ↦
          let (bytes, given, count) = l.memory (len - length r.block) in
          (
            l.rest ++ bytes,
            rw (longer, given, reserve)
                (ap (λ b. some (b ++ bytes)) l.filled ∙ ap some (joined bytes)),
            omega (
              arith,
              length-line key ending (l.rest ++ bytes),
              length-append l.rest bytes,
              size,
              enough,
              count,
            ),
          )
    ]
  where
    joined :
        (bytes : List ℕ)
        → (key ++ (ending ++ 0 ∷ l.rest)) ++ bytes ≡ key ++ (ending ++ 0 ∷ (l.rest ++ bytes))
    joined bytes =
        append_assoc key (ending ++ 0 ∷ l.rest) bytes
        ∙ ap (λ b. key ++ b) (append_assoc ending (0 ∷ l.rest) bytes)

pub reserve_kept :
    (r : Read)
    → ((n : ℕ) → (bytes : List ℕ) × (r.fresh n ≡ some bytes))
    → (more : List ℕ) × (reserve r ≡ some (r.block ++ more))
unfolding reserve
reserve_kept r memory =
    let len = grow (r.read + 6) r.read (length r.block) in
    elim (Bool-cases (ltb (length r.block) len)) [
      | inr same ↦ ([], rw same (ap some (sym (append-nil r.block))))
      | inl longer ↦
          let (bytes, given) = memory (len - length r.block) in
          (bytes, rw (longer, given, reserve) refl)
    ]
