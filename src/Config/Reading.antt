-- ===== src/Config/Reading.antt =====
-- parse_config on the events of a document.
use statsrelay.Prelude.{
  ℕ, ◌≡◌, refl, ap, ◌∙◌, Bool, true, false, not, Option, none, some, List, [], ◌∷◌,
}
use statsrelay.Outcome.{done}
use statsrelay.Config.{Config}
use statsrelay.Config.Parser.{
  stream_start, stream_end, document_start, document_end, mapping_start, mapping_end, scalar, Read,
  Strtol, Protocol, carbon, statsd, goes_on, minus_one, edit_config, next_event, parse_events,
  Start, initial_config, parse_config,
}
use statsrelay.Config.Document.{
  Section, set_all, meaning, IsDocument, reading, settings_events, protocol_key, section_events,
  events_of,
}
use statsrelay.Config.Shards.{at_key, at_protocol, edit_twice, step}
use statsrelay.Config.Settings.{settings-run}

-- The first event of a section chooses its protocol.
pub protocol-step :
    (strtol : Strtol) (p : Protocol) (c : Config) (q : Option Protocol) (count : ℕ)
    (dns expect key : Bool)
    → next_event strtol (reading (scalar (protocol_key p))) (at_protocol c q count dns expect key)
      ≡ goes_on (
          at_protocol
            (edit_config p (λ pc. record pc { initialized = true }) c)
            (some p)
            count
            dns
            expect
            (not key))
unfolding next_event
protocol-step strtol carbon c q count dns expect key = refl
protocol-step strtol statsd c q count dns expect key = refl

-- The sections, and the three events that end a document.
sections-run :
    (strtol : Strtol) (sections : List Section) (c : Config) (q : Option Protocol) (count : ℕ)
    (dns expect key : Bool)
    → IsDocument strtol sections
    → parse_events strtol
        (section_events sections
          (reading mapping_end ∷ reading document_end ∷ reading stream_end ∷ []))
        (at_protocol c q count dns expect key)
      ≡ done (some (meaning strtol sections c))
sections-run strtol [] c q count dns expect key h = unfold parse_events next_event in refl
sections-run strtol ((p, settings) ∷ sections) c q count dns expect key h =
    let after =
      section_events sections
        (reading mapping_end ∷ reading document_end ∷ reading stream_end ∷ []) in
    let inside = settings_events settings (reading mapping_end ∷ after) in
    let c1 = edit_config p (λ pc. record pc { initialized = true }) c in
    let (count2, dns2, expect2, run) =
      settings-run strtol settings (reading mapping_end ∷ after) c1 p count dns expect h.0 in
    let c2 = edit_config p (set_all strtol settings) c1 in
    step strtol (reading (scalar (protocol_key p))) (reading mapping_start ∷ inside)
      (at_protocol c q count dns expect key) (at_protocol c1 (some p) count dns expect (not key))
      (protocol-step strtol p c q count dns expect key)
    ∙ step strtol (reading mapping_start) inside
        (at_protocol c1 (some p) count dns expect (not key)) (at_key c1 p count dns expect)
        (unfold next_event in refl)
    ∙ run
    ∙ step strtol (reading mapping_end) after (at_key c2 p count2 dns2 expect2)
        (at_protocol c2 (some p) count2 dns2 expect2 true) (unfold next_event in refl)
    ∙ sections-run strtol sections c2 (some p) count2 dns2 expect2 true h.1
    ∙ ap (λ k. done (some (meaning strtol sections k)))
        (edit_twice p (set_all strtol settings) (λ pc. record pc { initialized = true }) c)

-- The three events before the first protocol.
pub opened :
    (strtol : Strtol) (start : Start) (rest : List Read)
    → start.memory ≡ true
    → start.carbon_ring ≡ true
    → start.parser ≡ true
    → parse_config strtol start
        (reading stream_start ∷ reading document_start ∷ reading mapping_start ∷ rest)
      ≡ parse_events strtol rest
          (at_protocol (initial_config start) none minus_one false false true)
unfolding parse_config
opened strtol start rest memory ring parser =
    rw (memory, ring, parser) (unfold parse_events next_event in refl)

-- parse_config of the events of a document of known settings, whose shard maps have the keys 0, 1,
-- 2, ... in order, where each allocation (those before the events, and strdup and the growth of the
-- ring at each event) and libyaml's parser succeed, gives the default configuration changed by each
-- section's settings in turn; a protocol that has a section is marked as initialised.
pub parse_config-events_of :
    (strtol : Strtol) (start : Start) (sections : List Section)
    → start.memory ≡ true
    → start.carbon_ring ≡ true
    → start.parser ≡ true
    → IsDocument strtol sections
    → parse_config strtol start (events_of sections)
      ≡ done (some (meaning strtol sections (initial_config start)))
parse_config-events_of strtol start sections memory ring parser h =
    opened strtol start
      (section_events sections
        (reading mapping_end ∷ reading document_end ∷ reading stream_end ∷ []))
      memory ring parser
    ∙ sections-run strtol sections (initial_config start) none minus_one false false true h
