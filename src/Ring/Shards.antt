-- ===== src/Ring/Shards.antt =====
-- The shard that a key is sent to.
use statsrelay.Prelude.{
  ℕ, ◌+◌, ◌-◌, ◌%◌, ◌^◌, ◌<◌, ◌≡◌, ap, ◌∙◌, sym, some, List, ◌++◌, arith, length, get_elem?,
  get_elem?_total, inl, inr, ◌⊎◌, get_elem?-append_left, get_elem?-append_right, length-append,
}
use native.Mathlib.Nat.{mod-eq_of_lt, mod-mod_of_dvd, mod-eq-sub-mod, mod-lt, dvd-mul_left, two-mul}
use native.Mathlib.Decide.{dec_lt}
use Prim.Native.Nat.{◌∣◌}
use statsrelay.Bytes.{c_str}
use statsrelay.Hash.{stats_hash, u32, murmur3_32, hashlib_seed, stats_hash-eq}
use statsrelay.PointerList.Holds.{Holds, get_elem?-slots}
use statsrelay.Ring.{Pointer, Ring, choose}

-- The shard of a key among `n`.
abbrev pub shard : List ℕ → ℕ → ℕ
shard key n = murmur3_32 (c_str key) hashlib_seed % n

pub shard-lt : (key : List ℕ) (n : ℕ) → 0 < n → shard key n < n
shard-lt key n h = grind arith

small_mod : (h n : ℕ) → 0 < n → n < 2 ^ 32 → u32 (h % u32 n) ≡ h % n
small_mod h n pos small = rw (mod-eq_of_lt small) (mod-eq_of_lt (grind arith))

choose_index :
    (key : List ℕ) (n : ℕ) → 0 < n → n < 2 ^ 32 → u32 (stats_hash (c_str key) n) ≡ shard key n
choose_index key n pos small =
    rw stats_hash-eq (small_mod (murmur3_32 (c_str key) hashlib_seed) n pos small)

choose_at :
    (ring : Ring) (xs : List Pointer) (key : List ℕ) (obj : Pointer)
    → Holds ring.backends xs
    → 0 < length xs
    → length xs < 2 ^ 32
    → get_elem? xs (shard key (length xs)) ≡ some obj
    → choose (some ring) key ≡ some (obj, shard key (length xs))
unfolding choose
choose_at ring xs key obj h pos small e =
    rw (h.count, choose_index key (length xs) pos small, slot) (ground arith)
  where
    slot : get_elem? ring.backends.slots (shard key (length xs)) ≡ some (some obj)
    slot =
        get_elem?-slots (shard key (length xs)) h
          (omega (arith, h.count, shard-lt key (length xs) pos)) e

-- In a ring that holds from 1 to 2^32 - 1 objects, hashring_choose gives every key the object of
-- the shard that is MurmurHash3 of the key modulo the number of shards, and that shard's number.
pub choose_lem :
    (ring : Ring) (xs : List Pointer) (key : List ℕ)
    → Holds ring.backends xs
    → 0 < length xs
    → length xs < 2 ^ 32
    → (obj : Pointer) × (choose (some ring) key ≡ some (obj, shard key (length xs)))
      × (get_elem? xs (shard key (length xs)) ≡ some obj)
choose_lem ring xs key h pos small =
    let (obj, at) = get_elem?_total xs (shard key (length xs)) (shard-lt key (length xs) pos) in
    (obj, choose_at ring xs key obj h pos small at, at)

double_mod : (h n : ℕ) → 0 < n → (h % (n + n) ≡ h % n) ⊎ (h % (n + n) ≡ h % n + n)
double_mod h n pos = elim (dec_lt (h % (n + n)) n) [
  | yes low ↦ inl (sym (mod-eq_of_lt low) ∙ mod-mod_of_dvd n h halves)
  | no high ↦ inr (
      omega (
        arith,
        mod-mod_of_dvd n h halves,
        mod-eq-sub-mod {n = h % (n + n)} {m = n} (omega arith),
        mod-eq_of_lt {n = h % (n + n) - n} {m = n}
            (omega (arith, mod-lt h {m = n + n} (omega arith))),
      ))
]
  where
    halves : n ∣ n + n
    halves = rw (← two-mul n) (dvd-mul_left n 2)

-- When a ring of n objects gets n more behind them, with 0 < n and 2n < 2^32, then each key keeps
-- its shard and object, or moves from shard i to shard n + i, the i-th of the new ones.
pub choose_double :
    (ring doubled : Ring) (xs ys : List Pointer) (key : List ℕ)
    → Holds ring.backends xs
    → Holds doubled.backends (xs ++ ys)
    → 0 < length xs
    → length ys ≡ length xs
    → length xs + length xs < 2 ^ 32
    → (obj : Pointer) × (choose (some ring) key ≡ some (obj, shard key (length xs)))
      × ((choose (some doubled) key ≡ some (obj, shard key (length xs)))
          ⊎ ((moved : Pointer) × (choose (some doubled) key
                ≡ some (moved, shard key (length xs) + length xs))
              × (get_elem? ys (shard key (length xs)) ≡ some moved)))
choose_double ring doubled xs ys key h h2 pos same small =
    let n : ℕ = length xs in
    let (obj, chosen, at) = choose_lem ring xs key h pos (omega arith) in
    let (moved, at') = get_elem?_total ys (shard key n) (omega (arith, shard-lt key n pos)) in
    elim (double_mod (murmur3_32 (c_str key) hashlib_seed) n pos) [
      | inl stays ↦ (
        obj,
        chosen,
        inl (
            both obj (shard key n) stays
              (get_elem?-append_left xs ys (shard key n) (shard-lt key n pos) ∙ at)),
      )
      | inr moves ↦ (
        obj,
        chosen,
        inr (
          moved,
          both moved (shard key n + n) moves
              (get_elem?-append_right xs ys (shard key n + n) (shard key n) (omega arith) ∙ at'),
          at',
        ),
      )
    ]
  where
    total : length (xs ++ ys) ≡ length xs + length xs
    total = omega (arith, length-append xs ys)

    both :
        (obj i : ℕ)
        → shard key (length xs + length xs) ≡ i
        → get_elem? (xs ++ ys) i ≡ some obj
        → choose (some doubled) key ≡ some (obj, i)
    both obj i e at =
        let e' : shard key (length (xs ++ ys)) ≡ i = ap (shard key) total ∙ e in
        choose_at doubled (xs ++ ys) key obj h2 (omega (arith, total)) (omega (arith, total))
          (ap (get_elem? (xs ++ ys)) e' ∙ at)
        ∙ ap (λ k. some (obj, k)) e'
