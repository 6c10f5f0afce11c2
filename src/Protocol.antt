-- ===== src/Protocol.antt =====
-- src/protocol.c, src/protocol.h: the key of a line is what stands before a separator.
pub mod Key
use statsrelay.Prelude.{ℕ, Option, none, some, List, ◌==◌, length, if◌then◌else◌}
use statsrelay.Bytes.{memchr}

-- `none` is the NULL pointer; a line is its `inlen` bytes. 0 is failure.
abbrev pub Parser : Type 0
Parser = Option (List ℕ) → ℕ

simple_parse : Option (List ℕ) → ℕ → ℕ
simple_parse none needle = 0
simple_parse (some instr) needle =
    if length instr == 0 then 0 else elim (memchr needle instr) [ none ↦ 0 | some p ↦ p ]

unfoldable pub protocol_parser_carbon : Parser
unfolding simple_parse memchr
protocol_parser_carbon instr = simple_parse instr b' '

unfoldable pub protocol_parser_statsd : Parser
unfolding simple_parse memchr
protocol_parser_statsd instr = simple_parse instr b':'
