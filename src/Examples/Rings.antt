-- ===== src/Examples/Rings.antt =====
-- Theorems on rings at concrete rings.
use statsrelay.Prelude.{
  ℕ, ◌+◌, ◌^◌, ◌≡◌, ◌⊎◌, refl, true, some, List, [], ◌∷◌, ◌++◌, get_elem?, ltb, arith,
}
use statsrelay.PointerList.{Allocator}
use statsrelay.PointerList.Holds.{Holds, IsAllocator}
use statsrelay.Ring.{Pointer, Ring, choose, dealloc, load_from_config}
use statsrelay.Ring.Shards.{shard, choose_lem, choose_double}
use statsrelay.Bytes.{c_str}
use statsrelay.Config.{Config}
use statsrelay.Examples.{test_config}
use statsrelay.StatHasher.{my_strdup, Rings, load_rings, trim, print_line, carbon_name, statsd_name}
use statsrelay.StatHasher.Addresses.{choice_text, print_line-load_rings}
use statsrelay.Ring.Dealloc.{count, recording, dealloc_once}

abbrev pub roomy : Allocator
roomy n = ltb n (2 ^ 63)

pub roomy-IsAllocator : IsAllocator roomy
roomy-IsAllocator = record { limited = λ n e. ground arith }

-- Two shards of one backend, and four of two.
abbrev two_shards : Ring
two_shards = record {
  backends = record { allocated_size = 2; size = 2; slots = some 5 ∷ some 5 ∷ [] };
}

abbrev four_shards : Ring
four_shards = record {
  backends = record {
    allocated_size = 4;
    size = 4;
    slots = some 5 ∷ some 5 ∷ some 6 ∷ some 6 ∷ [];
  };
}

two_shards-Holds : Holds two_shards.backends (5 ∷ 5 ∷ [])
two_shards-Holds = record {
  count = refl;
  fits = omega arith;
  block = refl;
  small = omega arith;
  held = refl;
}

four_shards-Holds : Holds four_shards.backends ((5 ∷ 5 ∷ []) ++ (6 ∷ 6 ∷ []))
four_shards-Holds = record {
  count = refl;
  fits = omega arith;
  block = refl;
  small = omega arith;
  held = refl;
}

abbrev apple : List ℕ
apple = b'a' ∷ b'p' ∷ b'p' ∷ b'l' ∷ b'e' ∷ 0 ∷ []

choose_lem_example :
    (obj : Pointer) × (choose (some two_shards) apple ≡ some (obj, shard apple 2))
    × (get_elem? (5 ∷ 5 ∷ []) (shard apple 2) ≡ some obj)
choose_lem_example =
    choose_lem two_shards (5 ∷ 5 ∷ []) apple two_shards-Holds (omega arith) (omega arith)

choose_double_example :
    (obj : Pointer) × (choose (some two_shards) apple ≡ some (obj, shard apple 2))
    × ((choose (some four_shards) apple ≡ some (obj, shard apple 2))
        ⊎ ((moved : Pointer) × (choose (some four_shards) apple ≡ some (moved, shard apple 2 + 2))
            × (get_elem? (6 ∷ 6 ∷ []) (shard apple 2) ≡ some moved)))
choose_double_example =
    choose_double two_shards four_shards (5 ∷ 5 ∷ []) (6 ∷ 6 ∷ []) apple two_shards-Holds
      four_shards-Holds (omega arith) refl (omega arith)

dealloc_once_example : count 5 (dealloc recording (some two_shards) []) ≡ 1
dealloc_once_example = dealloc_once two_shards (5 ∷ 5 ∷ []) 5 two_shards-Holds

abbrev backend_lines : List (List ℕ)
backend_lines = (b'a' ∷ []) ∷ (b'b' ∷ []) ∷ []

-- The same lines, as strings of the tool.
abbrev two_addresses : Ring
two_addresses = record {
  backends = record { allocated_size = 2; size = 2; slots = some 0 ∷ some 1 ∷ [] };
}

-- Two addresses for carbon and one for statsd.
abbrev both_rings : Config
both_rings = record {
  carbon_config = record test_config { ring = backend_lines };
  statsd_config = record test_config { ring = (b'c' ∷ []) ∷ [] };
}

abbrev one_address : Ring
one_address = record { backends = record { allocated_size = 1; size = 1; slots = some 2 ∷ [] } }

abbrev loaded : Rings
loaded = load_rings roomy (λ n. true) both_rings

carbon_loaded : loaded.carbon_ring ≡ some two_addresses
unfolding load_rings load_from_config my_strdup
carbon_loaded = refl

statsd_loaded : loaded.statsd_ring ≡ some one_address
unfolding load_rings load_from_config my_strdup
statsd_loaded = refl

-- `k` and a newline
abbrev k_line : List ℕ
k_line = b'k' ∷ 10 ∷ []

abbrev k_shard : ℕ
k_shard = shard (c_str (trim k_line)) 2

print_line-load_rings_example :
    (a : List ℕ) × (b : List ℕ) × (get_elem? backend_lines k_shard ≡ some a)
    × (get_elem? ((b'c' ∷ []) ∷ []) (shard (c_str (trim k_line)) 1) ≡ some b)
    × (print_line loaded k_line
        ≡ b'k' ∷ b'e' ∷ b'y' ∷ b'=' ∷ c_str (trim k_line)
          ++ choice_text carbon_name a k_shard
          ++ choice_text statsd_name b (shard (c_str (trim k_line)) 1)
          ++ 10 ∷ [])
print_line-load_rings_example =
    print_line-load_rings roomy (λ n. true) both_rings two_addresses one_address k_line
      roomy-IsAllocator (λ n. refl) refl refl carbon_loaded statsd_loaded (omega arith)
      (omega arith) (omega arith) (omega arith)
