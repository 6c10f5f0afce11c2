-- ===== src/Config/Shards.antt =====
-- parse_config on the events of a shard map.
use statsrelay.Prelude.{
  ℕ, suc, ◌+◌, ◌-◌, ◌^◌, ◌<◌, ◌≡◌, refl, ap, ◌∙◌, sym, Bool, true, false, Option, some, List, [],
  ◌∷◌, ◌++◌, arith, append_assoc, append-nil, u64, ◌==◌,
}
use statsrelay.Config.{ProtoConfig, Config}
use statsrelay.Config.Parser.{
  scalar, Read, Strtol, Protocol, carbon, statsd, Progress, goes_on, minus_one, edit_config,
  next_event, parse_events, shard_key, scalar_event,
}
use statsrelay.Config.Document.{addresses, IsNumbered, reading, pair_events, shard_events}

-- Inside the map of a protocol, before a key.
abbrev pub at_key : Config → Protocol → ℕ → Bool → Bool → Progress
at_key c p count dns expect = record {
  config = c;
  protoc = some p;
  shard_count = count;
  map_nesting = 2;
  in_document = true;
  is_key = true;
  update_bind = false;
  update_send_queue = false;
  update_validate = false;
  update_tcp_cork = false;
  always_resolve_dns = dns;
  expect_shard_map = expect;
}

-- Inside a shard map, before the key of shard `i`.
abbrev pub at_shard : Config → Protocol → ℕ → Bool → Progress
at_shard c p i dns = record (at_key c p (u64 (i + minus_one)) dns true) { map_nesting = 3 }

-- Between the maps of the protocols.
abbrev pub at_protocol : Config → Option Protocol → ℕ → Bool → Bool → Bool → Progress
at_protocol c p count dns expect key = record (at_key c carbon count dns expect) {
  protoc = p;
  map_nesting = 1;
  is_key = key;
}

pub edit_twice :
    (p : Protocol) (f g : ProtoConfig → ProtoConfig) (c : Config)
    → edit_config p f (edit_config p g c) ≡ edit_config p (λ pc. f (g pc)) c
edit_twice carbon f g c = refl
edit_twice statsd f g c = refl

-- An event behind which the loop goes on.
pub step :
    (strtol : Strtol) (r : Read) (reads : List Read) (s s' : Progress)
    → next_event strtol r s ≡ goes_on s'
    → parse_events strtol (r ∷ reads) s ≡ parse_events strtol reads s'
unfolding parse_events
step strtol r reads s s' e = rw (e, parse_events) refl

-- A key of the shard map that is the next number.
shard_key-numbered :
    (strtol : Strtol) (key : List ℕ) (c : Config) (p : Protocol) (i : ℕ) (dns : Bool)
    → strtol key ≡ (true, i)
    → i < 2 ^ 31
    → next_event strtol (reading (scalar key)) (at_shard c p i dns)
      ≡ goes_on (record (at_shard c p (suc i) dns) { is_key = false })
unfolding next_event scalar_event shard_key
shard_key-numbered strtol key c p i dns e small =
    let counted : u64 (u64 (i + minus_one) + 1) ≡ i = omega arith in
    let next_count : u64 (suc i + minus_one) ≡ i = omega arith in
    let same : (i == i) ≡ true = ground arith in
    let room : (u64 (i + minus_one) == 2 ^ 31 - 1) ≡ false = ground arith in
    rw (e, room, counted, same, next_count) refl

-- A pair of the shard map that has the right number.
shard-step :
    (strtol : Strtol) (key address : List ℕ) (rest : List Read) (c : Config) (p : Protocol) (i : ℕ)
    (dns : Bool)
    → strtol key ≡ (true, i)
    → i < 2 ^ 31
    → parse_events strtol (pair_events key address rest) (at_shard c p i dns)
      ≡ parse_events strtol rest (
          at_shard
            (edit_config p (λ pc. record pc { ring = pc.ring ++ address ∷ [] }) c)
            p
            (suc i)
            dns)
shard-step strtol key address rest c p i dns e small =
    step strtol (reading (scalar key)) (reading (scalar address) ∷ rest) (at_shard c p i dns)
      (record (at_shard c p (suc i) dns) { is_key = false })
      (shard_key-numbered strtol key c p i dns e small)
    ∙ step strtol (reading (scalar address)) rest
        (record (at_shard c p (suc i) dns) { is_key = false })
        (at_shard (edit_config p (λ pc. record pc { ring = pc.ring ++ address ∷ [] }) c) p (suc i)
          dns)
        (unfold next_event in refl)

-- A whole shard map, from shard `i` on.
pub shards-run :
    (strtol : Strtol) (shards : List (List ℕ × List ℕ)) (rest : List Read) (c : Config)
    (p : Protocol) (i : ℕ) (dns : Bool)
    → IsNumbered strtol i shards
    → (count : ℕ) × (parse_events strtol (shard_events shards rest) (at_shard c p i dns)
        ≡ parse_events strtol rest
            (record (at_key
              (edit_config p (λ pc. record pc { ring = pc.ring ++ addresses shards }) c)
              p
              count
              dns
              true) { map_nesting = 3 }))
shards-run strtol [] rest c p i dns h = (
  u64 (i + minus_one),
  ap (λ k. parse_events strtol rest (at_shard k p i dns)) (sym (edit_nothing p c)),
)
  where
    edit_nothing :
        (q : Protocol) (k : Config) → edit_config q (λ pc. record pc { ring = pc.ring ++ [] }) k ≡ k
    edit_nothing carbon k =
        ap (λ l. record k { carbon_config = record k.carbon_config { ring = l } })
          (append-nil k.carbon_config.ring)
    edit_nothing statsd k =
        ap (λ l. record k { statsd_config = record k.statsd_config { ring = l } })
          (append-nil k.statsd_config.ring)
shards-run strtol ((key, address) ∷ shards) rest c p i dns h =
    let c1 = edit_config p (λ pc. record pc { ring = pc.ring ++ address ∷ [] }) c in
    let (count, ih) = shards-run strtol shards rest c1 p (suc i) dns h.2 in
    (
      count,
      shard-step strtol key address (shard_events shards rest) c p i dns h.0 h.1
          ∙ ih
          ∙ ap
              (λ k.
                parse_events strtol rest (record (at_key k p count dns true) { map_nesting = 3 }))
              (joined p c),
    )
  where
    joined :
        (q : Protocol) (k : Config)
        → edit_config q
            (λ pc. record pc { ring = pc.ring ++ addresses shards })
            (edit_config q (λ pc. record pc { ring = pc.ring ++ address ∷ [] }) k)
          ≡ edit_config q (λ pc. record pc { ring = pc.ring ++ address ∷ addresses shards }) k
    joined carbon k =
        ap (λ l. record k { carbon_config = record k.carbon_config { ring = l } })
          (append_assoc k.carbon_config.ring (address ∷ []) (addresses shards))
    joined statsd k =
        ap (λ l. record k { statsd_config = record k.statsd_config { ring = l } })
          (append_assoc k.statsd_config.ring (address ∷ []) (addresses shards))
