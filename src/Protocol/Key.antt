-- ===== src/Protocol/Key.antt =====
-- The key that a parser finds.
use statsrelay.Prelude.{
  ℕ, suc, ◌<◌, ◌≡◌, ◌↔◌, ◌∙◌, some, List, ◌∷◌, ◌++◌, arith, length, take, drop, length-append,
  length-take, ap, Option-cases, inl, inr, ◌≤◌,
}
use statsrelay.Bytes.{memchr}
use statsrelay.Bytes.Search.{Lacks, memchr-append, memchr-split, memchr-lt}
use statsrelay.Protocol.{simple_parse, protocol_parser_carbon, protocol_parser_statsd}

-- A line is a key without the separator, the separator, and anything.
pub record HasKey (needle : ℕ) (line : List ℕ) (n : ℕ) : Type 0 where
  pub cut : line ≡ take n line ++ needle ∷ drop (suc n) line
  pub plain : Lacks needle (take n line)

simple_parse-append :
    (needle : ℕ) (key rest : List ℕ)
    → Lacks needle key
    → simple_parse (some (key ++ needle ∷ rest)) needle ≡ length key
unfolding simple_parse
simple_parse-append needle key rest h =
    rw (memchr-append needle key rest h) (ground (arith, length-append key (needle ∷ rest)))

simple_parse-HasKey :
    (needle n : ℕ) (line : List ℕ)
    → 0 < n
    → simple_parse (some line) needle ≡ n
    → HasKey needle line n
unfolding simple_parse
simple_parse-HasKey needle n line pos h =
    let found : memchr needle line ≡ some n = ground arith in
    record {
      cut = (memchr-split needle line n found).0;
      plain = (memchr-split needle line n found).1;
    }

HasKey-lt : {needle n : ℕ} {line : List ℕ} → HasKey needle line n → n < length line
HasKey-lt {needle} {n} {line} k = omega (
  arith,
  ap length k.cut,
  length-append (take n line) (needle ∷ drop (suc n) line),
  length-take n line,
)

HasKey-simple_parse :
    (needle n : ℕ) (line : List ℕ) → HasKey needle line n → simple_parse (some line) needle ≡ n
HasKey-simple_parse needle n line k =
    ap (λ l. simple_parse (some l) needle) k.cut
    ∙ simple_parse-append needle (take n line) (drop (suc n) line) k.plain
    ∙ omega (arith, length-take n line, HasKey-lt k)

-- For 0 < n, the statsd parser returns n exactly when the line has a colon at offset n and none
-- before it.
protocol_parser_statsd_iff :
    (n : ℕ) (line : List ℕ) → 0 < n → (protocol_parser_statsd (some line) ≡ n) ↔ HasKey b':' line n
unfolding protocol_parser_statsd
protocol_parser_statsd_iff n line pos =
    (simple_parse-HasKey b':' n line pos, HasKey-simple_parse b':' n line)

-- For 0 < n, the carbon parser returns n exactly when the line has a space at offset n and none
-- before it.
pub protocol_parser_carbon_iff :
    (n : ℕ) (line : List ℕ) → 0 < n → (protocol_parser_carbon (some line) ≡ n) ↔ HasKey b' ' line n
unfolding protocol_parser_carbon
protocol_parser_carbon_iff n line pos =
    (simple_parse-HasKey b' ' n line pos, HasKey-simple_parse b' ' n line)

pub protocol_parser_statsd-append :
    (key rest : List ℕ)
    → Lacks b':' key
    → protocol_parser_statsd (some (key ++ b':' ∷ rest)) ≡ length key
unfolding protocol_parser_statsd
protocol_parser_statsd-append key rest h = simple_parse-append b':' key rest h

simple_parse-le : (needle : ℕ) (line : List ℕ) → simple_parse (some line) needle ≤ length line
unfolding simple_parse
simple_parse-le needle line = elim (Option-cases (memchr needle line)) [
  | inl alone ↦ rw alone (ground arith)
  | inr (i, found) ↦ rw found (ground (arith, memchr-lt needle line i found))
]

-- A key is a part of its line.
pub protocol_parser_statsd-le : (line : List ℕ) → protocol_parser_statsd (some line) ≤ length line
unfolding protocol_parser_statsd
protocol_parser_statsd-le line = simple_parse-le b':' line
