-- ===== src/Stats/Report/Text.antt =====
-- The text of the statistics, as a list of the lines that are printed.
use statsrelay.Prelude.{
  ℕ, ◌-◌, ◌<◌, ◌≡◌, refl, sym, ap, ap₂, ◌∙◌, true, none, some, List, [], ◌∷◌, ◌++◌, ltb, length,
  arith, append-nil, append_assoc, length-append, get_elem?, Option-cases, inl, inr, subst,
}
use statsrelay.Buffer.{Buffer, spacecount}
use statsrelay.Buffer.Invariant.{IsValid}
use statsrelay.Buffer.Queue.{contents}
use statsrelay.Ring.{Pointer}
use statsrelay.Stats.{Backend, Server}
use statsrelay.Stats.Report.{
  line, backend_line, bool_digit, print_into, print_backend, print_backends, print_statistics,
}
use statsrelay.Stats.Report.Printing.{fitted, IsExtended, print_into-IsExtended}

abbrev pub backend_texts : Backend → List (List ℕ)
backend_texts b =
    backend_line b.key " bytes_queued gauge " b.bytes_queued
    ∷ backend_line b.key " bytes_sent gauge " b.bytes_sent
    ∷ backend_line b.key " relayed_lines gauge " b.relayed_lines
    ∷ backend_line b.key " dropped_lines gauge " b.dropped_lines
    ∷ backend_line b.key " failing boolean " (bool_digit b.failing)
    ∷ []

abbrev pub list_texts : List Backend → List Pointer → List (List ℕ)
list_texts heap [] = (10 ∷ []) ∷ []
list_texts heap (p ∷ ps) = elim (get_elem? heap p) [
  | none ↦ list_texts heap ps
  | some b ↦ backend_texts b ++ list_texts heap ps
]

-- The lines of the statistics: five for the server, five for each backend of its list, and an empty one.
abbrev pub statistics_texts : Server → List (List ℕ)
statistics_texts ss =
    line "global bytes_recv_udp gauge " ss.bytes_recv_udp
    ∷ line "global bytes_recv_tcp gauge " ss.bytes_recv_tcp
    ∷ line "global total_connections gauge " ss.total_connections
    ∷ line "global last_reload timestamp " ss.last_reload
    ∷ line "global malformed_lines gauge " ss.malformed_lines
    ∷ list_texts ss.heap ss.backend_list

abbrev pub joined : List (List ℕ) → List ℕ
joined [] = []
joined (t ∷ ts) = t ++ joined ts

-- The statistics of a server.
abbrev pub statistics : Server → List ℕ
statistics ss = joined (statistics_texts ss)

-- What a number of free bytes takes of the texts.
abbrev pub texts_kept : ℕ → List (List ℕ) → List ℕ
texts_kept space [] = []
texts_kept space (t ∷ ts) = fitted space t ++ texts_kept (space - length (fitted space t)) ts

print_all : Buffer → List (List ℕ) → Buffer
print_all b [] = b
print_all b (t ∷ ts) = print_all (print_into b t) ts

print_all-append :
    (b : Buffer) (ts us : List (List ℕ)) → print_all b (ts ++ us) ≡ print_all (print_all b ts) us
unfolding print_all
print_all-append b [] us = refl
print_all-append b (t ∷ ts) us = print_all-append (print_into b t) ts us

print_backends_lem :
    (b : Buffer) (heap : List Backend) (ps : List Pointer)
    → print_all b (list_texts heap ps) ≡ print_into (print_backends b heap ps) (10 ∷ [])
unfolding print_all print_backends print_backend
print_backends_lem b heap [] = refl
print_backends_lem b heap (p ∷ ps) = elim (Option-cases (get_elem? heap p)) [
  | inl nothing ↦ rw (nothing, print_backends, list_texts) (print_backends_lem b heap ps)
  | inr (backend, found) ↦
      rw (found, print_backends, list_texts)
        (print_all-append b (backend_texts backend) (list_texts heap ps)
          ∙ print_backends_lem (print_backend b backend) heap ps)
]

print_statistics_lem :
    (b : Buffer) (ss : Server) → print_statistics b ss ≡ print_all b (statistics_texts ss)
unfolding print_all print_statistics
print_statistics_lem b ss = sym (print_backends_lem _ ss.heap ss.backend_list)

print_all-IsExtended :
    (b : Buffer) (ts : List (List ℕ))
    → IsValid b
    → IsExtended b (texts_kept (spacecount b) ts) (print_all b ts)
unfolding print_all
print_all-IsExtended b [] v = record { valid = v; printed = sym (append-nil _); room = omega arith }
print_all-IsExtended b (t ∷ ts) v =
    let kept = fitted (spacecount b) t in
    let first = print_into-IsExtended b t v in
    let space : spacecount (print_into b t) ≡ spacecount b - length kept =
      omega (arith, first.room) in
    let others =
      subst (λ k. IsExtended (print_into b t) (texts_kept k ts) (print_all (print_into b t) ts))
        space (print_all-IsExtended (print_into b t) ts first.valid) in
    record {
      valid = others.valid;
      printed =
          others.printed
          ∙ ap (λ l. l ++ texts_kept (spacecount b - length kept) ts) first.printed
          ∙ append_assoc (contents b) kept _;
      room = omega (
        arith,
        others.room,
        first.room,
        length-append kept (texts_kept (spacecount b - length kept) ts),
      );
    }

-- x
pub contents-print_statistics :
    (b : Buffer) (ss : Server)
    → IsValid b
    → IsExtended b (texts_kept (spacecount b) (statistics_texts ss)) (print_statistics b ss)
contents-print_statistics b ss v =
    subst (IsExtended b (texts_kept (spacecount b) (statistics_texts ss)))
      (sym (print_statistics_lem b ss)) (print_all-IsExtended b (statistics_texts ss) v)

-- Where all texts fit, all are kept.
pub texts_kept_all :
    (space : ℕ) (ts : List (List ℕ)) → length (joined ts) < space → texts_kept space ts ≡ joined ts
unfolding fitted
texts_kept_all space [] short = refl
texts_kept_all space (t ∷ ts) short =
    let parts = length-append t (joined ts) in
    let test : ltb (length t) space ≡ true = ground (arith, short, parts) in
    let kept : fitted space t ≡ t = rw (test, fitted) refl in
    ap₂ (λ k l. k ++ texts_kept (space - length l) ts) kept kept
    ∙ ap (λ l. t ++ l) (texts_kept_all (space - length t) ts (omega arith))
