-- ===== src/Log/Fill.antt =====
-- The loops of stats_vlog: the block that grows, and the writes to standard error.
use statsrelay.Prelude.{
  ℕ, zero, suc, ◌*◌, ◌^◌, ◌≤◌, ◌<◌, ◌≡◌, refl, ap, true, false, some, List, [], ◌∷◌, ◌==◌, ltb, leb,
  drop, length, length-drop, take-append-drop, arith, Bool-cases, Option-cases, inl, inr, ltb→lt,
  leb→lt,
}
use statsrelay.Log.{Libc, Filled, failed, alloc_failure, filled, fill, write_text}

-- A size after `n` doublings.
abbrev pub doubled : ℕ → ℕ → ℕ
doubled zero size = size
doubled (suc n) size = doubled n (size * 2)

-- A text that an int can count, with room to double a block for it.
abbrev pub AreShort : Libc → Type 0
AreShort libc = (k : ℕ) (text : List ℕ) → libc.vsnprintf k ≡ some text → length text < 2 ^ 30

-- What the loop leaves: a failure, or a text in a block that has room for it.
pub data IsFilled (size : ℕ) : Filled → Type 0 where
  a_failure : (n : ℕ) → size ≤ n → n < 2 ^ 31 → IsFilled size (failed n)
  no_memory : IsFilled size alloc_failure
  a_text :
      (text : List ℕ) (n : ℕ)
      → size ≤ n
      → n < 2 ^ 31
      → length text < n
      → IsFilled size (filled text n)

IsFilled-mono : {size size' : ℕ} {f : Filled} → size ≤ size' → IsFilled size' f → IsFilled size f
IsFilled-mono le (a_failure n h small) = a_failure n (omega arith) small
IsFilled-mono le no_memory = no_memory
IsFilled-mono le (a_text text n h small fits) = a_text text n (omega arith) small fits

-- One round, where the rounds behind it are right.
fill_round :
    (rounds : ℕ) (libc : Libc) (calls size : ℕ)
    → AreShort libc
    → size < 2 ^ 31
    → (size < 2 ^ 30 → IsFilled size (fill rounds libc (suc calls) (size * 2)))
    → IsFilled size (fill (suc rounds) libc calls size)
unfolding fill
fill_round rounds libc calls size short small more = elim (Option-cases (libc.vsnprintf calls)) [
  | inl fails ↦ rw (fails, fill) (a_failure size (omega arith) small)
  | inr (text, prints) ↦ elim (Bool-cases (ltb (length text) size)) [
    | inl fits ↦ rw (prints, fits, fill) (a_text text size (omega arith) small (ltb→lt _ _ fits))
    | inr long ↦
        let room : leb (2 ^ 30) size ≡ false = ground (arith, short calls text prints, long) in
        elim (Bool-cases (libc.realloc (size * 2))) [
          | inr out_of_memory ↦ rw (prints, long, room, out_of_memory, fill) no_memory
          | inl memory ↦ rw (prints, long, room, memory, fill) (more (leb→lt _ _ room))
        ]
  ]
]

-- Rounds that double the size up to 2 ^ 30 are enough.
pub fill-IsFilled :
    (rounds : ℕ) (libc : Libc) (calls size : ℕ)
    → AreShort libc
    → size < 2 ^ 31
    → 2 ^ 30 ≤ doubled rounds size
    → IsFilled size (fill (suc rounds) libc calls size)
fill-IsFilled zero libc calls size short small enough =
    fill_round zero libc calls size short small (λ lt. absurd (omega (arith, lt, enough)))
fill-IsFilled (suc rounds) libc calls size short small enough =
    fill_round (suc rounds) libc calls size short small (λ lt.
      IsFilled-mono (omega arith)
        (fill-IsFilled rounds libc (suc calls) (size * 2) short (omega (arith, lt)) enough))

-- What fwrite takes: a byte at least, and no more than it is given.
abbrev pub TakesBytes : (ℕ → ℕ) → Type 0
TakesBytes fwrite = (n : ℕ) → 0 < n → (0 < fwrite n) × (fwrite n ≤ n)

pub write_text-whole :
    (rounds : ℕ) (fwrite : ℕ → ℕ) (text : List ℕ)
    → TakesBytes fwrite
    → length text ≤ rounds
    → write_text rounds fwrite text ≡ (text, true)
unfolding write_text
write_text-whole zero fwrite [] takes enough = refl
write_text-whole zero fwrite (x ∷ xs) takes enough = absurd (omega arith)
write_text-whole (suc rounds) fwrite [] takes enough = refl
write_text-whole (suc rounds) fwrite (x ∷ xs) takes enough =
    let (some_bytes, few) = takes (suc (length xs)) (omega arith) in
    let more : (fwrite (suc (length xs)) == 0) ≡ false = ground (arith, some_bytes) in
    let bytes : (suc (length xs) == 0) ≡ false = ground arith in
    rw
      (
        bytes,
        more,
        write_text-whole rounds fwrite (drop (fwrite (suc (length xs))) (x ∷ xs)) takes
            (omega (arith, length-drop (fwrite (suc (length xs))) (x ∷ xs), some_bytes, few)),
      )
      (ap (λ l. (l, true)) (take-append-drop (fwrite (suc (length xs))) (x ∷ xs)))
