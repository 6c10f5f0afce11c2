-- ===== src/Stats/Delivery/Advance.antt =====
-- How a line and an event advance the stream of one backend.
use statsrelay.Prelude.{
  ap, ◌∙◌, sym, ℕ, ◌+◌, ◌≡◌, refl, List, [], ◌∷◌, ◌++◌, ◌==◌, length, u64, arith, inl, inr,
  if◌then◌else◌, append-nil, append_assoc, length-append, subst,
}
use statsrelay.Buffer.Queue.{contents}
use statsrelay.Client.{Client, Event, on_sent, on_recv, on_connected, on_error}
use statsrelay.Client.Action.{Action, act, Allowed, accepted, sent_bytes, IsOpen}
use statsrelay.Client.Stream.{act-Keeps}
use statsrelay.Stats.{Backend}
use statsrelay.Stats.Relay.{stats_sent, newline}
use statsrelay.Stats.Routing.{IsDelivered}
use statsrelay.Stats.Delivery.{after_act, Advances}

pub Advances-refl : (b : Backend) → Advances [] [] b b
Advances-refl b = record {
  same_key = refl;
  stream = sym (append-nil _);
  counts_sent = omega arith;
  counts_queued = omega arith;
}

pub Advances-trans :
    (g g' o o' : List ℕ) {b c d : Backend}
    → Advances g o b c
    → Advances g' o' c d
    → Advances (g ++ g') (o ++ o') b d
Advances-trans g g' o o' {b} {c} {d} r s = record {
  same_key = s.same_key ∙ r.same_key;
  stream =
      append_assoc o o' _
      ∙ ap (λ l. o ++ l) s.stream
      ∙ sym (append_assoc o (contents c.client.send_queue) g')
      ∙ ap (λ l. l ++ g') r.stream
      ∙ append_assoc (contents b.client.send_queue) g g';
  counts_sent = omega (arith, s.counts_sent, r.counts_sent, length-append o o');
  counts_queued = omega (arith, s.counts_queued, r.counts_queued, length-append g g');
}

-- A line that the backend was given or refused.
pub IsDelivered-Advances :
    (line : List ℕ) (b : Backend) (result : ℕ × Backend)
    → IsDelivered line b result
    → Advances (if result.0 == 0 then line ++ newline ∷ [] else []) [] b result.1
IsDelivered-Advances line b result d = elim d.outcome [
  | inl (code, queued, _, counted, _, _) ↦ rw code (record {
    same_key = d.same_key;
    stream = queued;
    counts_sent = omega (arith, ap u64 d.same_sent);
    counts_queued = omega (arith, counted, length-append line (newline ∷ []));
  })
  | inr (code, queued, _, counted, _, _) ↦ rw code (record {
    same_key = d.same_key;
    stream = queued ∙ sym (append-nil _);
    counts_sent = omega (arith, ap u64 d.same_sent);
    counts_queued = omega (arith, ap u64 counted);
  })
]

-- What stats_sent leaves, and what it counts.
stats_sent_kept :
    (es : List Event) (b : Backend)
    → ((stats_sent es b).client ≡ b.client)
      × ((stats_sent es b).key ≡ b.key)
      × ((stats_sent es b).bytes_queued ≡ b.bytes_queued)
      × (u64 (stats_sent es b).bytes_sent ≡ u64 (b.bytes_sent + length (sent_bytes es)))
unfolding stats_sent
stats_sent_kept [] b = (refl, refl, refl, omega arith)
stats_sent_kept (on_sent bytes ∷ es) b =
    let (client, key, queued, counted) =
      stats_sent_kept es (record b { bytes_sent = u64 (b.bytes_sent + length bytes) }) in
    (client, key, queued, omega (arith, counted, length-append bytes (sent_bytes es)))
stats_sent_kept (on_recv _ ∷ es) b = stats_sent_kept es b
stats_sent_kept (on_connected ∷ es) b = stats_sent_kept es b
stats_sent_kept (on_error ∷ es) b = stats_sent_kept es b

-- An event of libev at the client of a backend.
pub act-Advances :
    (a : Action) (b : Backend)
    → IsOpen b.client
    → Allowed a b.client
    → ((code : ℕ) → accepted a code ≡ [])
    → IsOpen (after_act a b).client × Advances [] (sent_bytes (act a b.client).1) b (after_act a b)
act-Advances a b o fits no_bytes =
    let (code, events, c) = act a b.client in
    let (client, key, queued, counted) = stats_sent_kept events (record b { client = c }) in
    let (o', kept) = act-Keeps a b.client o fits in
    (
      subst IsOpen (sym client) o',
      record {
        same_key = key;
        stream =
            ap (λ (d : Client). sent_bytes events ++ contents d.send_queue) client
            ∙ kept
            ∙ ap (λ l. contents b.client.send_queue ++ l) (no_bytes code);
        counts_sent = counted;
        counts_queued = omega (arith, ap u64 queued);
      },
    )
