-- ===== src/Config/Settings.antt =====
-- parse_config on the events of the settings of a protocol.
use statsrelay.Prelude.{ℕ, ◌≡◌, refl, ap, ◌∙◌, Bool, true, false, some, List, [], ◌∷◌, ◌++◌}
use statsrelay.Config.{Config}
use statsrelay.Config.Parser.{
  mapping_start, mapping_end, scalar, Read, Strtol, Protocol, carbon, statsd, Progress, goes_on,
  minus_one, edit_config, key_bind, key_max_send_queue, key_shard_map, key_validate, key_tcp_cork,
  key_always_resolve_dns, next_event, parse_events, set_boolean,
}
use statsrelay.Config.Document.{
  Setting, bind, max_send_queue, validate, tcp_cork, always_resolve_dns, shard_map, addresses,
  set_to, set_all, IsNumbered, AreNumbered, reading, boolean_text, pair_events, shard_events,
  setting_events, settings_events,
}
use statsrelay.Config.Shards.{at_key, at_shard, edit_twice, step, shards-run}

-- A key and its value.
pair-run :
    (strtol : Strtol) (key value : List ℕ) (rest : List Read) (s s1 s2 : Progress)
    → next_event strtol (reading (scalar key)) s ≡ goes_on s1
    → next_event strtol (reading (scalar value)) s1 ≡ goes_on s2
    → parse_events strtol (pair_events key value rest) s ≡ parse_events strtol rest s2
pair-run strtol key value rest s s1 s2 e1 e2 =
    step strtol (reading (scalar key)) (reading (scalar value) ∷ rest) s s1 e1
    ∙ step strtol (reading (scalar value)) rest s1 s2 e2

read_boolean : (b : Bool) → set_boolean (boolean_text b) ≡ some b
unfolding set_boolean
read_boolean true = refl
read_boolean false = refl

-- Where a setting leaves the loop: before the next key, with the setting made.
abbrev pub HasSetting : Strtol → Setting → List Read → Config → Protocol → Progress → Type 0
HasSetting strtol x rest c p s =
    (count : ℕ) × (dns : Bool) × (expect : Bool) × (parse_events strtol (setting_events x rest) s
      ≡ parse_events strtol rest (at_key (edit_config p (set_to strtol x) c) p count dns expect))

module _ (strtol : Strtol) (rest : List Read) (c : Config) (p : Protocol) (count : ℕ)
    (dns expect : Bool) where
  bind-run : (text : List ℕ) → HasSetting strtol (bind text) rest c p (at_key c p count dns expect)
  unfolding next_event
  bind-run text = (
    count,
    dns,
    expect,
    pair-run strtol key_bind text rest (at_key c p count dns expect)
        (record (at_key c p count dns expect) { is_key = false; update_bind = true })
        (at_key (edit_config p (set_to strtol (bind text)) c) p count dns expect) refl refl,
  )

  send_queue-run :
      (text : List ℕ)
      → HasSetting strtol (max_send_queue text) rest c p (at_key c p count dns expect)
  unfolding next_event
  send_queue-run text = (
    count,
    dns,
    expect,
    pair-run strtol key_max_send_queue text rest (at_key c p count dns expect)
        (record (at_key c p count dns expect) { is_key = false; update_send_queue = true })
        (at_key (edit_config p (set_to strtol (max_send_queue text)) c) p count dns expect) refl
        refl,
  )

  validate-run : (b : Bool) → HasSetting strtol (validate b) rest c p (at_key c p count dns expect)
  unfolding next_event
  validate-run b = (
    count,
    dns,
    expect,
    pair-run strtol key_validate (boolean_text b) rest (at_key c p count dns expect)
        (record (at_key c p count dns expect) { is_key = false; update_validate = true })
        (at_key (edit_config p (set_to strtol (validate b)) c) p count dns expect) refl
        (rw (read_boolean b) refl),
  )

  tcp_cork-run : (b : Bool) → HasSetting strtol (tcp_cork b) rest c p (at_key c p count dns expect)
  unfolding next_event
  tcp_cork-run b = (
    count,
    dns,
    expect,
    pair-run strtol key_tcp_cork (boolean_text b) rest (at_key c p count dns expect)
        (record (at_key c p count dns expect) { is_key = false; update_tcp_cork = true })
        (at_key (edit_config p (set_to strtol (tcp_cork b)) c) p count dns expect) refl
        (rw (read_boolean b) refl),
  )

  pub dns-run :
      (b : Bool)
      → parse_events strtol
          (setting_events (always_resolve_dns b) rest)
          (at_key c p count dns expect)
        ≡ parse_events strtol rest
            (at_key (edit_config p (set_to strtol (always_resolve_dns b)) c) p count true expect)
  unfolding next_event
  dns-run b =
      pair-run strtol key_always_resolve_dns (boolean_text b) rest (at_key c p count dns expect)
        (record (at_key c p count dns expect) { is_key = false; always_resolve_dns = true })
        (at_key (edit_config p (set_to strtol (always_resolve_dns b)) c) p count true expect) refl
        (rw (read_boolean b) refl)

  shard_map-run :
      (shards : List (List ℕ × List ℕ))
      → IsNumbered strtol 0 shards
      → HasSetting strtol (shard_map shards) rest c p (at_key c p count dns expect)
  unfolding next_event
  shard_map-run shards h =
      let (last, run) = shards-run strtol shards (reading mapping_end ∷ rest) c p 0 dns h in
      let c1 = edit_config p (λ pc. record pc { ring = pc.ring ++ addresses shards }) c in
      let entered = shard_events shards (reading mapping_end ∷ rest) in
      (
        last,
        dns,
        true,
        step strtol (reading (scalar key_shard_map)) (reading mapping_start ∷ entered)
              (at_key c p count dns expect)
              (record (at_key c p minus_one dns true) { is_key = false }) refl
            ∙ step strtol (reading mapping_start) entered
                (record (at_key c p minus_one dns true) { is_key = false }) (at_shard c p 0 dns)
                refl
            ∙ run
            ∙ step strtol (reading mapping_end) rest
                (record (at_key c1 p last dns true) { map_nesting = 3 }) (at_key c1 p last dns true)
                refl,
      )

setting-run :
    (strtol : Strtol) (x : Setting) (rest : List Read) (c : Config) (p : Protocol) (count : ℕ)
    (dns expect : Bool)
    → AreNumbered strtol (x ∷ [])
    → HasSetting strtol x rest c p (at_key c p count dns expect)
setting-run strtol (bind text) rest c p count dns expect h =
    bind-run strtol rest c p count dns expect text
setting-run strtol (max_send_queue text) rest c p count dns expect h =
    send_queue-run strtol rest c p count dns expect text
setting-run strtol (validate b) rest c p count dns expect h =
    validate-run strtol rest c p count dns expect b
setting-run strtol (tcp_cork b) rest c p count dns expect h =
    tcp_cork-run strtol rest c p count dns expect b
setting-run strtol (always_resolve_dns b) rest c p count dns expect h =
    (count, true, expect, dns-run strtol rest c p count dns expect b)
setting-run strtol (shard_map shards) rest c p count dns expect h =
    shard_map-run strtol rest c p count dns expect shards h.0

AreNumbered-split :
    (strtol : Strtol) (x : Setting) (xs : List Setting)
    → AreNumbered strtol (x ∷ xs)
    → AreNumbered strtol (x ∷ []) × AreNumbered strtol xs
AreNumbered-split strtol (bind text) xs h = (tt, h)
AreNumbered-split strtol (max_send_queue text) xs h = (tt, h)
AreNumbered-split strtol (validate b) xs h = (tt, h)
AreNumbered-split strtol (tcp_cork b) xs h = (tt, h)
AreNumbered-split strtol (always_resolve_dns b) xs h = (tt, h)
AreNumbered-split strtol (shard_map shards) xs h = ((h.0, tt), h.1)

pub settings-run :
    (strtol : Strtol) (xs : List Setting) (rest : List Read) (c : Config) (p : Protocol) (count : ℕ)
    (dns expect : Bool)
    → AreNumbered strtol xs
    → (count' : ℕ) × (dns' : Bool) × (expect' : Bool) × (parse_events strtol
          (settings_events xs rest)
          (at_key c p count dns expect)
        ≡ parse_events strtol rest
            (at_key (edit_config p (set_all strtol xs) c) p count' dns' expect'))
settings-run strtol [] rest c p count dns expect h = (
  count,
  dns,
  expect,
  ap (λ k. parse_events strtol rest (at_key k p count dns expect)) (unchanged p c),
)
  where
    unchanged : (q : Protocol) (k : Config) → k ≡ edit_config q (set_all strtol []) k
    unchanged carbon k = refl
    unchanged statsd k = refl
settings-run strtol (x ∷ xs) rest c p count dns expect h =
    let (first, others) = AreNumbered-split strtol x xs h in
    let (count1, dns1, expect1, run1) =
      setting-run strtol x (settings_events xs rest) c p count dns expect first in
    let (count2, dns2, expect2, run2) =
      settings-run strtol xs rest (edit_config p (set_to strtol x) c) p count1 dns1 expect1
        others in
    (
      count2,
      dns2,
      expect2,
      run1
          ∙ run2
          ∙ ap (λ k. parse_events strtol rest (at_key k p count2 dns2 expect2))
              (edit_twice p (set_all strtol xs) (set_to strtol x) c),
    )
