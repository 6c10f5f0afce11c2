-- ===== src/Hash.antt =====
-- src/hashlib.c: the 32-bit MurmurHash3 that chooses a shard.
mod Tests
use Prim.Native.Nat.{bit_or, bit_xor}
use statsrelay.Prelude.{ℕ, ◌+◌, ◌-◌, ◌*◌, ◌/◌, ◌%◌, ◌^◌, List, [], ◌∷◌, length, take, ◌≡◌, refl}

-- `uint32_t` arithmetic wraps at 2 ^ 32.
abbrev pub u32 : ℕ → ℕ
u32 n = n % 2 ^ 32

abbrev pub hashlib_seed : ℕ
hashlib_seed = 0xaccd3d34

abbrev rotl : ℕ → ℕ → ℕ
rotl x r = bit_or (u32 (x * 2 ^ r)) (x / 2 ^ (32 - r))

-- The word that four bytes make on a little-endian machine.
word : ℕ → ℕ → ℕ → ℕ → ℕ
word a b c d = a + b * 2 ^ 8 + c * 2 ^ 16 + d * 2 ^ 24

scramble : ℕ → ℕ
scramble k = u32 (rotl (u32 (k * 0xcc9e2d51)) 15 * 0x1b873593)

mix_block : ℕ → ℕ → ℕ
unfolding scramble
mix_block hash k = u32 (rotl (bit_xor hash (scramble k)) 13 * 5 + 0xe6546b64)

-- The `switch` on the bytes that are left.
mix_tail : ℕ → List ℕ → ℕ
unfolding scramble
mix_tail hash [] = hash
mix_tail hash (a ∷ []) = bit_xor hash (scramble a)
mix_tail hash (a ∷ b ∷ []) = bit_xor hash (scramble (bit_xor (b * 2 ^ 8) a))
mix_tail hash (a ∷ b ∷ c ∷ _) =
    bit_xor hash (scramble (bit_xor (bit_xor (c * 2 ^ 16) (b * 2 ^ 8)) a))

-- The loop over the blocks of four bytes, and the switch behind it.
mix_key : ℕ → List ℕ → ℕ
unfolding word mix_block mix_tail
mix_key hash (a ∷ b ∷ c ∷ d ∷ rest) = mix_key (mix_block hash (word a b c d)) rest
mix_key hash rest = mix_tail hash rest

finish : ℕ → ℕ → ℕ
finish hash len =
    let h0 = bit_xor hash len in
    let h1 = bit_xor h0 (h0 / 2 ^ 16) in
    let h2 = u32 (h1 * 0x85ebca6b) in
    let h3 = bit_xor h2 (h2 / 2 ^ 13) in let h4 = u32 (h3 * 0xc2b2ae35) in bit_xor h4 (h4 / 2 ^ 16)

-- `len` is the length of `key`, as a `uint32_t`, for the loop too.
pub murmur3_32 : List ℕ → ℕ → ℕ
unfolding mix_key finish
murmur3_32 key seed = let len = u32 (length key) in finish (mix_key seed (take len key)) len

unfoldable pub stats_hash : List ℕ → ℕ → ℕ
unfolding murmur3_32
stats_hash key output_domain = murmur3_32 key hashlib_seed % u32 output_domain

pub stats_hash-eq :
    (key : List ℕ) (output_domain : ℕ)
    → stats_hash key output_domain ≡ murmur3_32 key hashlib_seed % u32 output_domain
unfolding stats_hash
stats_hash-eq key output_domain = refl
