-- ===== src/Config/Flags.antt =====
-- The flag for `always_resolve_dns`, which parse_config does not put back.
use statsrelay.Prelude.{
  ℕ, ◌≡◌, ◌≢◌, refl, ◌∙◌, Bool, true, false, none, some, List, ◌∷◌, Bool-cases, inl, inr,
}
use statsrelay.Outcome.{done}
use statsrelay.Bytes.{same_bytes}
use statsrelay.Bytes.Search.{same_bytes_iff}
use statsrelay.Config.{Config}
use statsrelay.Config.Parser.{
  stream_start, document_start, mapping_start, scalar, Read, Strtol, Protocol, Progress, fails,
  minus_one, edit_config, key_bind, key_max_send_queue, key_shard_map, key_validate, key_tcp_cork,
  key_always_resolve_dns, next_event, key_scalar, value_scalar, scalar_event, set_boolean,
  parse_events, Start, initial_config, parse_config,
}
use statsrelay.Config.Document.{
  always_resolve_dns, set_to, reading, boolean_text, pair_events, setting_events, protocol_key,
}
use statsrelay.Config.Shards.{at_key, at_protocol, step}
use statsrelay.Config.Settings.{dns-run}
use statsrelay.Config.Reading.{protocol-step, opened}

-- None of the keys that parse_config knows inside a protocol.
pub record IsUnknown (key : List ℕ) : Type 0 where
  pub not_bind : key ≢ key_bind
  pub not_queue : key ≢ key_max_send_queue
  pub not_shards : key ≢ key_shard_map
  pub not_validate : key ≢ key_validate
  pub not_cork : key ≢ key_tcp_cork
  pub not_dns : key ≢ key_always_resolve_dns

differs : {xs ys : List ℕ} → xs ≢ ys → same_bytes xs ys ≡ false
differs {xs} {ys} h = elim (Bool-cases (same_bytes xs ys)) [
  | inl same ↦ absurd (h ((same_bytes_iff xs ys).0 same))
  | inr other ↦ other
]

key_scalar-IsUnknown : (key : List ℕ) (s : Progress) → IsUnknown key → key_scalar key s ≡ s
unfolding key_scalar
key_scalar-IsUnknown key s u =
    rw
      (
        differs u.not_bind,
        differs u.not_queue,
        differs u.not_shards,
        differs u.not_validate,
        differs u.not_cork,
        differs u.not_dns,
      )
      refl

set_boolean-none :
    (value : List ℕ)
    → value ≢ boolean_text true
    → value ≢ boolean_text false
    → set_boolean value ≡ none
unfolding set_boolean
set_boolean-none value not_true not_false = rw (differs not_true, differs not_false) refl

-- The start of a document with `always_resolve_dns` in its first section, before others.
abbrev pub dns_events : Protocol → Bool → List Read → List Read
dns_events p b rest =
    reading stream_start
    ∷ reading document_start
    ∷ reading mapping_start
    ∷ reading (scalar (protocol_key p))
    ∷ reading mapping_start
    ∷ setting_events (always_resolve_dns b) rest

fails_here :
    (strtol : Strtol) (r : Read) (reads : List Read) (s : Progress)
    → next_event strtol r s ≡ fails
    → parse_events strtol (r ∷ reads) s ≡ done none
unfolding parse_events
fails_here strtol r reads s e = rw (e, parse_events) refl

-- A key that is not known and its value, where the flag is set.
unknown_pair :
    (strtol : Strtol) (key value : List ℕ) (rest : List Read) (c : Config) (p : Protocol)
    (count : ℕ) (expect : Bool)
    → IsUnknown key
    → set_boolean value ≡ none
    → parse_events strtol (pair_events key value rest) (at_key c p count true expect) ≡ done none
unknown_pair strtol key value rest c p count expect unknown bad =
    step strtol (reading (scalar key)) (reading (scalar value) ∷ rest)
      (at_key c p count true expect) (record (at_key c p count true expect) { is_key = false })
      (unfold next_event scalar_event in
        rw (key_scalar-IsUnknown key (at_key c p count true expect) unknown) refl)
    ∙ fails_here strtol (reading (scalar value)) rest
        (record (at_key c p count true expect) { is_key = false })
        (unfold next_event scalar_event value_scalar in rw bad refl)

-- If the first setting of a document is always_resolve_dns, and a key that parse_config does not
-- know follows with a value other than true and false, then parse_config fails, where the first
-- allocations and libyaml's parser succeed.
pub always_resolve_dns_sticks :
    (strtol : Strtol) (start : Start) (p : Protocol) (b : Bool) (key value : List ℕ)
    (rest : List Read)
    → start.memory ≡ true
    → start.carbon_ring ≡ true
    → start.parser ≡ true
    → IsUnknown key
    → value ≢ boolean_text true
    → value ≢ boolean_text false
    → parse_config strtol start (dns_events p b (pair_events key value rest)) ≡ done none
always_resolve_dns_sticks strtol start p b key value rest memory ring parser unknown not_true
      not_false =
    let c = initial_config start in
    let c1 = edit_config p (λ pc. record pc { initialized = true }) c in
    let others = pair_events key value rest in
    let inside = setting_events (always_resolve_dns b) others in
    opened strtol start (reading (scalar (protocol_key p)) ∷ reading mapping_start ∷ inside) memory
      ring parser
    ∙ step strtol (reading (scalar (protocol_key p))) (reading mapping_start ∷ inside)
        (at_protocol c none minus_one false false true)
        (at_protocol c1 (some p) minus_one false false false)
        (protocol-step strtol p c none minus_one false false true)
    ∙ step strtol (reading mapping_start) inside
        (at_protocol c1 (some p) minus_one false false false) (at_key c1 p minus_one false false)
        (unfold next_event in refl)
    ∙ dns-run strtol others c1 p minus_one false false b
    ∙ unknown_pair strtol key value rest (edit_config p (set_to strtol (always_resolve_dns b)) c1) p
        minus_one false unknown (set_boolean-none value not_true not_false)
