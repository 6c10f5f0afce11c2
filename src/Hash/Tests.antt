-- ===== src/Hash/Tests.antt =====
-- The values that src/tests/test_hashlib.c expects.
use statsrelay.Prelude.{ℕ, ◌≡◌, refl, List, [], ◌∷◌, ◌-◌, ◌^◌}
use statsrelay.Hash.{stats_hash}

abbrev domain : ℕ
domain = 2 ^ 32 - 1

abbrev apple : List ℕ
apple = b'a' ∷ b'p' ∷ b'p' ∷ b'l' ∷ b'e' ∷ []

abbrev banana : List ℕ
banana = b'b' ∷ b'a' ∷ b'n' ∷ b'a' ∷ b'n' ∷ b'a' ∷ []

abbrev orange : List ℕ
orange = b'o' ∷ b'r' ∷ b'a' ∷ b'n' ∷ b'g' ∷ b'e' ∷ []

abbrev lemon : List ℕ
lemon = b'l' ∷ b'e' ∷ b'm' ∷ b'o' ∷ b'n' ∷ []

hash_apple : stats_hash apple domain ≡ 2699884538
unfolding stats_hash
hash_apple = refl

hash_banana : stats_hash banana domain ≡ 558421143
unfolding stats_hash
hash_banana = refl

hash_orange : stats_hash orange domain ≡ 2279140812
unfolding stats_hash
hash_orange = refl

hash_lemon : stats_hash lemon domain ≡ 4183924513
unfolding stats_hash
hash_lemon = refl
