-- ===== src/StatHasher/Addresses.antt =====
-- Which address the tool prints for a key.
use statsrelay.Prelude.{
  ℕ, suc, zero, ◌+◌, ◌^◌, ◌<◌, ◌≡◌, refl, ap, ap₂, ◌∙◌, sym, subst, Bool, true, Option, none, some,
  List, [], ◌∷◌, ◌++◌, map, arith, length, get_elem?, get_elem?-append_right, length-append,
  append_assoc, append-nil, get_elem?-append_left, lt_of_get_elem?, leb, false,
}
use statsrelay.PointerList.{Allocator}
use statsrelay.Bytes.{c_str}
use statsrelay.Decimal.{decimal}
use statsrelay.Config.{ProtoConfig, Config}
use statsrelay.PointerList.Holds.{Holds, IsAllocator}
use statsrelay.Ring.{Pointer, Ring, load_from_config}
use statsrelay.Ring.Load.{alloc_all, alloc_all-cons, load_from_config-Holds}
use statsrelay.Ring.Shards.{shard, shard-lt, choose_lem}
use statsrelay.StatHasher.{
  Strings, my_strdup, string_callbacks, describe, print_choice, carbon_name, statsd_name, load_ring,
  load_rings, trim, print_line,
}

abbrev addresses_from : ℕ → List (List ℕ) → List Pointer
addresses_from n [] = []
addresses_from n (line ∷ lines) = n ∷ addresses_from (suc n) lines

longer : (s : Strings) (line : List ℕ) → length (s ++ some line ∷ []) ≡ suc (length s)
longer s line = omega (arith, length-append s (some line ∷ []))

-- The strings after each line was copied.
alloc_all-strings :
    (memory : ℕ → Bool) (lines : List (List ℕ)) (s : Strings)
    → ((n : ℕ) → memory n ≡ true)
    → alloc_all (string_callbacks memory) lines s
      ≡ (some (addresses_from (length s) lines), s ++ map some lines)
unfolding alloc_all my_strdup
alloc_all-strings memory [] s plenty = ap (λ l. (some [], l)) (sym (append-nil s))
alloc_all-strings memory (line ∷ lines) s plenty =
    let s1 = s ++ some line ∷ [] in
    let grown : (my_strdup memory line s).1 ≡ s1 = rw (plenty (length s), my_strdup) refl in
    alloc_all-cons (string_callbacks memory) line lines s (s ++ map some (line ∷ lines)) (length s)
      (addresses_from (suc (length s)) lines) (rw (plenty (length s), my_strdup) refl)
      (ap (alloc_all (string_callbacks memory) lines) grown
        ∙ alloc_all-strings memory lines s1 plenty
        ∙ ap₂ (λ k l. (some (addresses_from k lines), l)) (longer s line)
            (append_assoc s (some line ∷ []) (map some lines)))

-- A copy is where its address says.
string_at :
    (lines : List (List ℕ)) (s : Strings) (i obj : ℕ)
    → get_elem? (addresses_from (length s) lines) i ≡ some obj
    → (line : List ℕ) × (get_elem? lines i ≡ some line)
      × (get_elem? (s ++ map some lines) obj ≡ some (some line))
string_at [] s i obj e = ground (arith, e)
string_at (line ∷ lines) s zero obj e =
    let here : obj ≡ length s + 0 = ground (arith, e) in
    (line, refl, get_elem?-append_right s (map some (line ∷ lines)) obj 0 here)
string_at (line ∷ lines) s (suc i) obj e =
    let (found, at, copy) =
      string_at lines (s ++ some line ∷ []) i obj
        (subst (λ k. get_elem? (addresses_from k lines) i ≡ some obj) (sym (longer s line)) e) in
    (
      found,
      at,
      subst (λ l. get_elem? l obj ≡ some (some found))
          (append_assoc s (some line ∷ []) (map some lines)) copy,
    )

length-addresses_from :
    (n : ℕ) (lines : List (List ℕ)) → length (addresses_from n lines) ≡ length lines
length-addresses_from n [] = refl
length-addresses_from n (line ∷ lines) = omega (arith, length-addresses_from (suc n) lines)

abbrev given : Option (List Pointer) → List Pointer
given none = []
given (some objs) = objs

-- A ring that was loaded, and the strings behind those that were there.
record IsLoaded (lines : List (List ℕ)) (s : Strings) (ring : Ring) (s' : Strings) : Type 0 where
  holds : Holds ring.backends (addresses_from (length s) lines)
  strings : s' ≡ s ++ map some lines

load_from_config-IsLoaded :
    (can : Allocator) (memory : ℕ → Bool) (lines : List (List ℕ)) (s s' : Strings) (ring : Ring)
    → IsAllocator can
    → ((n : ℕ) → memory n ≡ true)
    → load_from_config (string_callbacks memory) can lines s ≡ (some ring, s')
    → IsLoaded lines s ring s'
load_from_config-IsLoaded can memory lines s s' ring c plenty loads =
    let (objs, made, holds) =
      load_from_config-Holds (string_callbacks memory) can lines ring s s' c loads in
    let all = sym made ∙ alloc_all-strings memory lines s plenty in
    record {
      holds =
          subst (Holds ring.backends) (ap (λ (r : Option (List Pointer) × Strings). given r.0) all)
            holds;
      strings = ap (λ (r : Option (List Pointer) × Strings). r.1) all;
    }

-- The address of a key, where strings may have come behind those of the ring.
describe-IsLoaded :
    (lines : List (List ℕ)) (s s' more : Strings) (ring : Ring) (key : List ℕ)
    → IsLoaded lines s ring s'
    → 0 < length lines
    → length lines < 2 ^ 32
    → (address : List ℕ) × (describe (some ring) (s' ++ more) key
        ≡ some (address, shard key (length lines)))
      × (get_elem? lines (shard key (length lines)) ≡ some address)
unfolding describe
describe-IsLoaded lines s s' more ring key l pos small =
    let objs = addresses_from (length s) lines in
    let count = length-addresses_from (length s) lines in
    let (obj, chosen, at) =
      choose_lem ring objs key l.holds (omega (arith, count, pos)) (omega (arith, count, small)) in
    let (address, line_at, copy) =
      string_at lines s (shard key (length lines)) obj
        (subst (λ n. get_elem? objs (shard key n) ≡ some obj) count at) in
    let inside = lt_of_get_elem? (s ++ map some lines) obj copy in
    let kept : get_elem? (s' ++ more) obj ≡ some (some address) =
      ap (λ l. get_elem? (l ++ more) obj) l.strings
      ∙ get_elem?-append_left (s ++ map some lines) more obj inside
      ∙ copy in
    let chosen' = chosen ∙ ap (λ n. some (obj, shard key n)) count in
    (address, rw (chosen', kept, describe) refl, line_at)

-- ` NAME=ADDRESS NAME_shard=NUMBER`, with the number in plain decimal digits.
abbrev pub choice_text : List ℕ → List ℕ → ℕ → List ℕ
choice_text name address index =
    b' ' ∷ name
    ++ b'=' ∷ address
    ++ b' ' ∷ name
    ++ b'_' ∷ b's' ∷ b'h' ∷ b'a' ∷ b'r' ∷ b'd' ∷ b'=' ∷ decimal index

print_choice-small :
    (name address : List ℕ) (index : ℕ)
    → index < 2 ^ 31
    → print_choice name (some (address, index)) ≡ choice_text name address index
print_choice-small name address index h =
    let positive : leb (2 ^ 31) index ≡ false = ground (arith, h) in rw positive refl

load_ring-IsLoaded :
    (can : Allocator) (memory : ℕ → Bool) (c : ProtoConfig) (s s' : Strings) (ring : Ring)
    → IsAllocator can
    → ((n : ℕ) → memory n ≡ true)
    → c.initialized ≡ true
    → load_ring can memory c s ≡ (some ring, s')
    → IsLoaded c.ring s ring s'
unfolding load_ring
load_ring-IsLoaded can memory c s s' ring a plenty named loads =
    load_from_config-IsLoaded can memory c.ring s s' ring a plenty (rw (named, load_ring) at loads)

-- If both protocols of the configuration are initialised and have from 1 to 2^31 - 1 lines,
-- hashring_load_from_config succeeds for both, my_strdup has memory and the allocator serves no
-- request of 2^63 bytes or more, then for each line of the input stathasher prints `key=` and the
-- key (the line up to its first white space or NUL), and for carbon and then for statsd ` NAME=`
-- and the line of that protocol's ring at the place that is MurmurHash3 of the key modulo the
-- number of its lines, ` NAME_shard=` and that place in decimal digits, and a newline.
pub print_line-load_rings :
    (can : Allocator) (memory : ℕ → Bool) (cfg : Config) (carbon statsd : Ring) (line : List ℕ)
    → IsAllocator can
    → ((n : ℕ) → memory n ≡ true)
    → cfg.carbon_config.initialized ≡ true
    → cfg.statsd_config.initialized ≡ true
    → (load_rings can memory cfg).carbon_ring ≡ some carbon
    → (load_rings can memory cfg).statsd_ring ≡ some statsd
    → 0 < length cfg.carbon_config.ring
    → length cfg.carbon_config.ring < 2 ^ 31
    → 0 < length cfg.statsd_config.ring
    → length cfg.statsd_config.ring < 2 ^ 31
    → let key = c_str (trim line) in
      let i = shard key (length cfg.carbon_config.ring) in
      let j = shard key (length cfg.statsd_config.ring) in
      (a : List ℕ) × (b : List ℕ) × (get_elem? cfg.carbon_config.ring i ≡ some a)
      × (get_elem? cfg.statsd_config.ring j ≡ some b)
      × (print_line (load_rings can memory cfg) line
          ≡ b'k' ∷ b'e' ∷ b'y' ∷ b'=' ∷ key
            ++ choice_text carbon_name a i
            ++ choice_text statsd_name b j
            ++ 10 ∷ [])
unfolding load_rings print_line
print_line-load_rings can memory cfg carbon statsd line c plenty named named' has_carbon has_statsd
      pos small pos' small' =
    let key = c_str (trim line) in
    let first = load_ring can memory cfg.carbon_config [] in
    let second = load_ring can memory cfg.statsd_config first.1 in
    let l : IsLoaded cfg.carbon_config.ring [] carbon first.1 =
      load_ring-IsLoaded can memory cfg.carbon_config [] first.1 carbon c plenty named
        (ap (λ o. (o, first.1)) has_carbon) in
    let l' : IsLoaded cfg.statsd_config.ring first.1 statsd second.1 =
      load_ring-IsLoaded can memory cfg.statsd_config first.1 second.1 statsd c plenty named'
        (ap (λ o. (o, second.1)) has_statsd) in
    let (a, says, at) =
      describe-IsLoaded cfg.carbon_config.ring [] first.1 (map some cfg.statsd_config.ring) carbon
        key l pos (omega (arith, small)) in
    let (b, says', at') =
      describe-IsLoaded cfg.statsd_config.ring first.1 second.1 [] statsd key l' pos'
        (omega (arith, small')) in
    let known : describe (some carbon) second.1 key
        ≡ some (a, shard key (length cfg.carbon_config.ring)) =
      ap (λ s. describe (some carbon) s key) l'.strings ∙ says in
    let known' : describe (some statsd) second.1 key
        ≡ some (b, shard key (length cfg.statsd_config.ring)) =
      ap (λ s. describe (some statsd) s key) (sym (append-nil second.1)) ∙ says' in
    (
      a,
      b,
      at,
      at',
      rw (has_carbon, has_statsd, known, known', print_line)
          (ap₂ (λ x y. b'k' ∷ b'e' ∷ b'y' ∷ b'=' ∷ key ++ x ++ y ++ 10 ∷ [])
            (print_choice-small carbon_name a (shard key (length cfg.carbon_config.ring))
              (omega (arith, shard-lt key (length cfg.carbon_config.ring) pos, small)))
            (print_choice-small statsd_name b (shard key (length cfg.statsd_config.ring))
              (omega (arith, shard-lt key (length cfg.statsd_config.ring) pos', small')))),
    )
