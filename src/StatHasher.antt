-- ===== src/StatHasher.antt =====
-- src/stathasher.c: the tool that prints the shard and the address of keys.
pub mod Addresses
use statsrelay.Prelude.{
  ℕ, ◌-◌, ◌^◌, Bool, true, false, Option, none, some, List, [], ◌∷◌, ◌++◌, if◌then◌else◌, ◌==◌, leb,
  inl, inr, ◌⊎◌, ◌||◌, length, get_elem?, set,
}
use statsrelay.Outcome.{Outcome, done, ◌>>=◌}
use statsrelay.Bytes.{c_str}
use statsrelay.Decimal.{decimal}
use statsrelay.PointerList.{Allocator}
use statsrelay.Ring.{Pointer, Ring, Callbacks, choose, load_from_config}
use statsrelay.Config.{ProtoConfig, Config}
use statsrelay.Config.{default_config}
use statsrelay.Config.Parser.{Read, Strtol, Start, parse_config}

-- The strings that strdup made, by their addresses; none once they are freed.
abbrev pub Strings : Type 0
Strings = List (Option (List ℕ))

-- my_strdup; `memory n` is whether there is memory for string number `n`.
unfoldable pub my_strdup : (ℕ → Bool) → List ℕ → Strings → Option Pointer × Strings
my_strdup memory str s =
    if memory (length s) then (some (length s), s ++ some str ∷ []) else (none, s)

-- my_strdup and free.
abbrev pub string_callbacks : (ℕ → Bool) → Callbacks Strings
string_callbacks memory = record { alloc = my_strdup memory; dealloc = λ p s. set s p none }

-- isspace in the C locale.
abbrev pub is_space : ℕ → Bool
is_space x = if x == 32 then true else if leb 9 x then leb x 13 else false

-- The loop that ends a line at its first white space.
unfoldable pub trim : List ℕ → List ℕ
trim [] = []
trim (x ∷ xs) = let rest = trim xs in if is_space x then [] else x ∷ rest

-- What hashring_choose gives, with the text that the pointer leads to.
unfoldable pub describe : Option Ring → Strings → List ℕ → Option (List ℕ × ℕ)
unfolding choose
describe ring s key = elim (choose ring key) [
  | none ↦ none
  | some (obj, index) ↦ elim (get_elem? s obj) [
    | some (some address) ↦ some (address, index)
    | some none ↦ none
    | none ↦ none
  ]
]

-- A `uint32_t` that printf writes with %d.
abbrev pub signed_decimal : ℕ → List ℕ
signed_decimal n = if leb (2 ^ 31) n then b'-' ∷ decimal (2 ^ 32 - n) else decimal n

-- ` NAME=ADDRESS NAME_shard=NUMBER`
abbrev pub print_choice : List ℕ → Option (List ℕ × ℕ) → List ℕ
print_choice name none = []
print_choice name (some (address, index)) =
    b' ' ∷ name
    ++ b'=' ∷ address
    ++ b' ' ∷ name
    ++ b'_' ∷ b's' ∷ b'h' ∷ b'a' ∷ b'r' ∷ b'd' ∷ b'=' ∷ signed_decimal index

abbrev pub carbon_name : List ℕ
carbon_name = b'c' ∷ b'a' ∷ b'r' ∷ b'b' ∷ b'o' ∷ b'n' ∷ []

abbrev pub statsd_name : List ℕ
statsd_name = b's' ∷ b't' ∷ b'a' ∷ b't' ∷ b's' ∷ b'd' ∷ []

-- The rings of both protocols, and their strings.
pub record Rings : Type 0 where
  pub carbon_ring : Option Ring
  pub statsd_ring : Option Ring
  pub strings : Strings

-- One round of the loop over the lines of the input.
unfoldable pub print_line : Rings → List ℕ → List ℕ
unfolding trim describe
print_line rings line =
    let key = c_str (trim line) in
    b'k' ∷ b'e' ∷ b'y' ∷ b'=' ∷ key
    ++ print_choice carbon_name (describe rings.carbon_ring rings.strings key)
    ++ print_choice statsd_name (describe rings.statsd_ring rings.strings key)
    ++ 10 ∷ []

unfoldable pub print_lines : Rings → List (List ℕ) → List ℕ
unfolding print_line
print_lines rings [] = []
print_lines rings (line ∷ lines) = print_line rings line ++ print_lines rings lines

-- A ring for a protocol that the configuration names.
unfoldable pub load_ring : Allocator → (ℕ → Bool) → ProtoConfig → Strings → Option Ring × Strings
unfolding load_from_config my_strdup
load_ring can memory c s =
    if c.initialized then load_from_config (string_callbacks memory) can c.ring s else (none, s)

unfoldable pub load_rings : Allocator → (ℕ → Bool) → Config → Rings
unfolding load_ring
load_rings can memory cfg =
    let (carbon, s) = load_ring can memory cfg.carbon_config [] in
    let (statsd, s') = load_ring can memory cfg.statsd_config s in
    record { carbon_ring = carbon; statsd_ring = statsd; strings = s' }

-- main behind the options: the exit code and the output, for the events of the file, if it can be opened.
unfoldable pub hash_keys :
    Strtol
    → Start
    → Allocator
    → (ℕ → Bool)
    → Option (List Read)
    → List (List ℕ)
    → Outcome (ℕ × List ℕ)
unfolding parse_config load_rings print_lines
hash_keys strtol start can memory none lines = done (1, [])
hash_keys strtol start can memory (some reads) lines = parse_config strtol start reads >>= λ result.
    elim result [
      | none ↦ done (1, [])
      | some cfg ↦ done (0, print_lines (load_rings can memory cfg) lines)
    ]

-- What getopt_long finds, with the argument of the option. An option that it does not know, or that lacks its
-- argument, is `unknown`.
pub data Arg : Type 0 where
  help unknown : Arg
  config : List ℕ → Arg

-- The loop over the options: the code that main returns in it, or the name of the configuration.
unfoldable pub parse_options : List Arg → List ℕ → ℕ ⊎ List ℕ
parse_options [] config_name = inr config_name
parse_options (help ∷ args) config_name = inl 0
parse_options (unknown ∷ args) config_name = inl 1
parse_options (config name ∷ args) config_name = parse_options args name

-- main. `optind` is what getopt_long leaves in the variable, `files` the events of the files that can be
-- opened.
unfoldable pub main :
    Strtol
    → Start
    → Allocator
    → (ℕ → Bool)
    → (List ℕ → Option (List Read))
    → List Arg
    → ℕ
    → List (List ℕ)
    → Outcome (ℕ × List ℕ)
unfolding parse_options hash_keys
main strtol start can memory files args optind lines = elim (parse_options args default_config) [
  | inl code ↦ done (code, [])
  | inr name ↦
      if optind == 1 || optind == 3
      then hash_keys strtol start can memory (files name) lines
      else done (1, [])
]
