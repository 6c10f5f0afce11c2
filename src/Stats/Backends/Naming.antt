-- ===== src/Stats/Backends/Naming.antt =====
-- Which lines of a configuration name one backend.
use statsrelay.Prelude.{
  ℕ, suc, ◌≡◌, refl, ap, ◌∙◌, sym, none, some, List, [], ◌∷◌, ◌++◌, length, take, drop,
  append_assoc,
}
use statsrelay.Bytes.{memchr}
use statsrelay.Bytes.Search.{Lacks, memchr-append, memchr-Lacks}
use statsrelay.Stats.Backends.{Address, parse_address}

abbrev pub tcp_suffix : List ℕ
tcp_suffix = b':' ∷ b't' ∷ b'c' ∷ b'p' ∷ []

-- `host:port` names what `host:port:tcp` names, and each line what it names itself.
pub data NamesSame : List ℕ → List ℕ → Type 0 where
  itself : (line : List ℕ) → NamesSame line line
  written_out :
      (host port : List ℕ)
      → Lacks b':' host
      → Lacks b':' port
      → NamesSame (host ++ b':' ∷ port) (host ++ b':' ∷ (port ++ tcp_suffix))
  left_out :
      (host port : List ℕ)
      → Lacks b':' host
      → Lacks b':' port
      → NamesSame (host ++ b':' ∷ (port ++ tcp_suffix)) (host ++ b':' ∷ port)

-- The address of a line has this key.
abbrev pub HasKey : List ℕ → List ℕ → Type 0
HasKey line key = (a : Address) × (parse_address line ≡ some a) × (a.full_key ≡ key)

behind : (xs ys : List ℕ) (c : ℕ) → drop (suc (length xs)) (xs ++ c ∷ ys) ≡ ys
behind [] ys c = refl
behind (x ∷ xs) ys c = behind xs ys c

short-HasKey :
    (host port : List ℕ)
    → Lacks b':' host
    → Lacks b':' port
    → HasKey (host ++ b':' ∷ port) (host ++ b':' ∷ (port ++ tcp_suffix))
unfolding parse_address
short-HasKey host port plain plain' =
    let after = drop (suc (length host)) (host ++ b':' ∷ port) in
    let no_more : memchr b':' after ≡ none =
      ap (memchr b':') (behind host port b':') ∙ memchr-Lacks b':' port plain' in
    (
      record {
        host = take (length host) (host ++ b':' ∷ port);
        port = after;
        protocol = b't' ∷ b'c' ∷ b'p' ∷ [];
        full_key = (host ++ b':' ∷ port) ++ tcp_suffix;
      },
      rw (memchr-append b':' host port plain, no_more, parse_address) refl,
      append_assoc host (b':' ∷ port) tcp_suffix,
    )

long-HasKey :
    (host port : List ℕ)
    → Lacks b':' host
    → Lacks b':' port
    → HasKey (host ++ b':' ∷ (port ++ tcp_suffix)) (host ++ b':' ∷ (port ++ tcp_suffix))
unfolding parse_address
long-HasKey host port plain plain' =
    let line = host ++ b':' ∷ (port ++ tcp_suffix) in
    let after = drop (suc (length host)) line in
    let second : memchr b':' after ≡ some (length port) =
      ap (memchr b':') (behind host (port ++ tcp_suffix) b':')
      ∙ memchr-append b':' port (b't' ∷ b'c' ∷ b'p' ∷ []) plain' in
    (
      record {
        host = take (length host) line;
        port = take (length port) after;
        protocol = drop (suc (length port)) after;
        full_key = line;
      },
      rw (memchr-append b':' host (port ++ tcp_suffix) plain, second, parse_address) refl,
      refl,
    )

some_inj : {x y : Address} → some x ≡ some y → x ≡ y
some_inj e = cc

-- Lines that name the same have the same key.
pub NamesSame-HasKey :
    (line other : List ℕ) (a : Address)
    → NamesSame line other
    → parse_address line ≡ some a
    → HasKey other a.full_key
NamesSame-HasKey line other a (itself l) parsed = (a, parsed, refl)
NamesSame-HasKey line other a (written_out host port plain plain') parsed =
    let (b, found, key) = short-HasKey host port plain plain' in
    let (c, found', key') = long-HasKey host port plain plain' in
    (c, found', key' ∙ sym key ∙ ap (λ (d : Address). d.full_key) (some_inj (sym found ∙ parsed)))
NamesSame-HasKey line other a (left_out host port plain plain') parsed =
    let (b, found, key) = short-HasKey host port plain plain' in
    let (c, found', key') = long-HasKey host port plain plain' in
    (b, found, key ∙ sym key' ∙ ap (λ (d : Address). d.full_key) (some_inj (sym found' ∙ parsed)))
