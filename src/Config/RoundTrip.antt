-- ===== src/Config/RoundTrip.antt =====
-- A configuration written as a document.
use statsrelay.Prelude.{
  ℕ, suc, ◌+◌, ◌^◌, ◌<◌, ◌≡◌, refl, ap, ap₂, ◌∙◌, sym, Bool, true, Option, none, some, List, [],
  ◌∷◌, ◌++◌, length, arith,
}
use statsrelay.Outcome.{done}
use statsrelay.Decimal.{decimal}
use statsrelay.Config.{ProtoConfig, Config}
use statsrelay.Config.Parser.{Strtol, carbon, statsd, Start, initial_config, parse_config}
use statsrelay.Config.Document.{
  Setting, bind, max_send_queue, validate, tcp_cork, always_resolve_dns, shard_map, Section,
  addresses, set_all, IsNumbered, AreNumbered, events_of,
}
use statsrelay.Config.Reading.{parse_config-events_of}

-- Addresses with the numbers from `i` on as their keys.
abbrev pub numbered : ℕ → List (List ℕ) → List (List ℕ × List ℕ)
numbered i [] = []
numbered i (address ∷ more) = (decimal i, address) ∷ numbered (suc i) more

abbrev bind_settings : Option (List ℕ) → List Setting → List Setting
bind_settings none rest = rest
bind_settings (some text) rest = bind text ∷ rest

-- All settings of a protocol.
abbrev pub settings_of : ProtoConfig → List Setting
settings_of c = bind_settings c.bind (
    max_send_queue (decimal c.max_send_queue)
    ∷ validate c.enable_validation
    ∷ tcp_cork c.enable_tcp_cork
    ∷ always_resolve_dns c.always_resolve_dns
    ∷ shard_map (numbered 0 c.ring)
    ∷ [])

abbrev pub document_of : Config → List Section
document_of c = (carbon, settings_of c.carbon_config) ∷ (statsd, settings_of c.statsd_config) ∷ []

-- strtol reads what decimal digits stand for, if a long can hold it.
abbrev pub ReadsDecimal : Strtol → Type 0
ReadsDecimal strtol = (n : ℕ) → n < 2 ^ 63 → strtol (decimal n) ≡ (true, n)

-- The configurations of a protocol that a document can say.
pub record IsWritable (c : ProtoConfig) : Type 0 where
  pub initialized : c.initialized ≡ true
  pub address : (text : List ℕ) × (c.bind ≡ some text)
  pub queue : c.max_send_queue < 2 ^ 63
  pub shards : length c.ring < 2 ^ 31

addresses-numbered : (i : ℕ) (ring : List (List ℕ)) → addresses (numbered i ring) ≡ ring
addresses-numbered i [] = refl
addresses-numbered i (address ∷ more) = ap (λ l. address ∷ l) (addresses-numbered (suc i) more)

numbered-IsNumbered :
    (strtol : Strtol) (i : ℕ) (ring : List (List ℕ))
    → ReadsDecimal strtol
    → i + length ring < 2 ^ 31
    → IsNumbered strtol i (numbered i ring)
numbered-IsNumbered strtol i [] reads h = tt
numbered-IsNumbered strtol i (address ∷ more) reads h = (
  reads i (omega arith),
  omega arith,
  numbered-IsNumbered strtol (suc i) more reads (omega arith),
)

-- The settings of a configuration make it out of the default one.
settings_of-set_all :
    (strtol : Strtol) (c start : ProtoConfig)
    → ReadsDecimal strtol
    → IsWritable c
    → start.ring ≡ []
    → set_all strtol (settings_of c) (record start { initialized = true }) ≡ c
settings_of-set_all strtol c start reads w empty =
    let (text, bound) = w.address in
    let rest =
      max_send_queue (decimal c.max_send_queue)
      ∷ validate c.enable_validation
      ∷ tcp_cork c.enable_tcp_cork
      ∷ always_resolve_dns c.always_resolve_dns
      ∷ shard_map (numbered 0 c.ring)
      ∷ [] in
    let queue : ℕ = (strtol (decimal c.max_send_queue)).1 in
    let ring = start.ring ++ addresses (numbered 0 c.ring) in
    ap (λ b. set_all strtol (bind_settings b rest) (record start { initialized = true })) bound
    ∙ ap (λ i. fields i (some text) queue ring) (sym w.initialized)
    ∙ ap (λ b. fields c.initialized b queue ring) (sym bound)
    ∙ ap (λ q. fields c.initialized c.bind q ring)
        (ap (λ (r : Bool × ℕ). r.1) (reads c.max_send_queue w.queue))
    ∙ ap (fields c.initialized c.bind c.max_send_queue)
        (ap (λ l. l ++ addresses (numbered 0 c.ring)) empty ∙ addresses-numbered 0 c.ring)
  where
    fields : Bool → Option (List ℕ) → ℕ → List (List ℕ) → ProtoConfig
    fields i b q r = record c { initialized = i; bind = b; max_send_queue = q; ring = r }

-- A configuration in which both protocols are marked as initialised, with an address, a queue limit
-- below 2^63 and fewer than 2^31 shards for each protocol, written as a document and parsed, is the
-- same configuration, where strtol reads decimal digits, and each allocation (those before the
-- events, and strdup and the growth of the ring at each event) and libyaml's parser succeed.
pub parse_config-document_of :
    (strtol : Strtol) (start : Start) (c : Config)
    → start.memory ≡ true
    → start.carbon_ring ≡ true
    → start.parser ≡ true
    → ReadsDecimal strtol
    → IsWritable c.carbon_config
    → IsWritable c.statsd_config
    → parse_config strtol start (events_of (document_of c)) ≡ done (some c)
parse_config-document_of strtol start c memory ring parser reads carbon_ok statsd_ok =
    parse_config-events_of strtol start (document_of c) memory ring parser (
      settings-numbered c.carbon_config carbon_ok,
      (settings-numbered c.statsd_config statsd_ok, tt),
    )
    ∙ ap₂ (λ a b. done (some (record { carbon_config = a; statsd_config = b })))
        (settings_of-set_all strtol c.carbon_config (initial_config start).carbon_config reads
          carbon_ok refl)
        (settings_of-set_all strtol c.statsd_config (initial_config start).statsd_config reads
          statsd_ok refl)
  where
    settings-numbered : (pc : ProtoConfig) → IsWritable pc → AreNumbered strtol (settings_of pc)
    settings-numbered pc w =
        let shards = numbered-IsNumbered strtol 0 pc.ring reads (omega (arith, w.shards)) in
        rw w.address.1 (shards, tt)
