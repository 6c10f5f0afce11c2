-- ===== src/Stats/Backends/Sound.antt =====
-- The server that stats_server_create makes: its backends are open, and its ring leads to them.
use statsrelay.Prelude.{
  ℕ, ◌^◌, ◌≤◌, ◌<◌, ◌≡◌, refl, subst, ap, ◌∙◌, sym, Option, none, some, List, [], ◌∷◌, length,
  arith, Option-cases, inl, inr,
}
use statsrelay.Config.{ProtoConfig}
use statsrelay.Protocol.{Parser}
use statsrelay.PointerList.{Allocator}
use statsrelay.PointerList.Holds.{Holds, IsAllocator}
use statsrelay.Ring
use statsrelay.Ring.{Pointer, Ring}
use statsrelay.Ring.Load.{alloc_all, alloc_all-cons, load_from_config-Holds}
use statsrelay.Ring.Shards.{choose_lem, shard}
use statsrelay.Stats.{Server, Validator}
use statsrelay.Stats.Backends.{Making, make_backend, backend_callbacks, blank, stats_server_create}
use statsrelay.Stats.Backends.Growing.{AreLive}
use statsrelay.Stats.Safety.{IsSound}
use statsrelay.Stats.Backends.Ready.{
  IsGenerous, IsStocked, IsMade, some_inj, both_same, AreLive-get, make_backend-IsMade,
}

-- What the lines of a configuration leave.
record AreMade (server : Server) (lines : List (List ℕ)) (objs : List Pointer) (server' : Server)
    : Type 0 where
  stocked : IsStocked server'
  live : AreLive (length server'.heap) objs
  grown : length server.heap ≤ length server'.heap
  count : length objs ≡ length lines
  same_parser : server'.parser ≡ server.parser

AreMade-cons :
    (line : List ℕ) (lines : List (List ℕ)) (s s1 s2 : Server) (p : Pointer) (objs : List Pointer)
    → IsMade s p s1
    → AreMade s1 lines objs s2
    → AreMade s (line ∷ lines) (p ∷ objs) s2
AreMade-cons line lines s s1 s2 p objs m ms = record {
  stocked = ms.stocked;
  live = (omega (arith, m.live, ms.grown), ms.live);
  grown = omega (arith, m.grown, ms.grown);
  count = omega (arith, ms.count);
  same_parser = ms.same_parser ∙ m.same_parser;
}

alloc_all-AreMade :
    (env : List ℕ → Making) (lines : List (List ℕ)) (server server' : Server) (objs : List Pointer)
    → ((line : List ℕ) → IsGenerous (env line))
    → IsStocked server
    → alloc_all (backend_callbacks env) lines server ≡ (some objs, server')
    → AreMade server lines objs server'
unfolding alloc_all
alloc_all-AreMade env [] server server' objs g s e =
    subst (λ (r : List Pointer × Server). AreMade server [] r.0 r.1) (both_same e)
      (record { stocked = s; live = tt; grown = omega arith; count = refl; same_parser = refl })
alloc_all-AreMade env (line ∷ lines) server server' objs g s e = elim (Option-cases made.0) [
  | inl failed ↦ absurd (cc (rw (failed, alloc_all) at e))
  | inr (p, found) ↦
      let m =
        make_backend-IsMade (env line) line server made.1 p (g line) s
          (ap (λ o. (o, made.1)) found) in
      elim (Option-cases later.0) [
        | inl failed ↦
            let all : later ≡ (none, later.1) = ap (λ o. (o, later.1)) failed in
            absurd (cc (rw (found, all, alloc_all) at e))
        | inr (ps, rest) ↦
            let all : later ≡ (some ps, later.1) = ap (λ o. (o, later.1)) rest in
            subst (λ (r : List Pointer × Server). AreMade server (line ∷ lines) r.0 r.1)
              (both_same (
                sym
                  (alloc_all-cons (backend_callbacks env) line lines server later.1 p ps found all)
                ∙ e))
              (AreMade-cons line lines server made.1 later.1 p ps m
                (alloc_all-AreMade env lines made.1 later.1 ps g m.stocked all))
      ]
]
  where
    made : Option Pointer × Server
    made = make_backend (env line) line server

    later : Option (List Pointer) × Server
    later = alloc_all (backend_callbacks env) lines made.1

AreLive-choose :
    (ring : Ring) (objs : List Pointer) (n : ℕ) (key : List ℕ) (q i : ℕ)
    → Holds ring.backends objs
    → AreLive n objs
    → length objs < 2 ^ 32
    → Ring.choose (some ring) key ≡ some (q, i)
    → q < n
unfolding Ring.choose
AreLive-choose ring [] n key q i h live small chosen =
    let empty : ring.backends.size ≡ 0 = h.count in absurd (cc (rw (empty, Ring.choose) at chosen))
AreLive-choose ring (p ∷ ps) n key q i h live small chosen =
    let (obj, found, at) = choose_lem ring (p ∷ ps) key h (omega arith) small in
    let same : q ≡ obj = ap (λ (r : Pointer × ℕ). r.0) (some_inj (sym chosen ∙ found)) in
    subst (λ k. k < n) (sym same) (AreLive-get n (p ∷ ps) (shard key (length (p ∷ ps))) obj live at)

blank-IsStocked :
    (config : ProtoConfig) (parser : Parser) (validator : Option Validator)
    → IsStocked (blank config parser validator)
blank-IsStocked config parser validator = record {
  opened = λ q b found. absurd (cc found);
  listed = tt;
}

-- If stats_server_create gives a server, with fewer than 2^32 lines in the configuration's ring, a
-- parser that gives no more than the length of a line, an allocator that serves no request of 2^63
-- bytes or more, and a malloc that keeps its contract and has memory for the first block of each
-- send queue, then each backend of the server has a valid, non-empty queue block, hashring_choose
-- leads every key to a backend or to none, and the parser still gives no more than the length of a
-- line.
pub stats_server_create-IsSound :
    (env : List ℕ → Making) (can : Allocator) (config : ProtoConfig) (parser : Parser)
    (validator : Option Validator) (ss : Server)
    → ((line : List ℕ) → IsGenerous (env line))
    → IsAllocator can
    → length config.ring < 2 ^ 32
    → ((line : List ℕ) → parser (some line) ≤ length line)
    → stats_server_create env can config parser validator ≡ some ss
    → IsSound ss
unfolding stats_server_create
stats_server_create-IsSound env can config parser validator ss g c small bounded e =
    elim (Option-cases loaded.0) [
      | inl failed ↦ absurd (cc (rw (failed, stats_server_create) at e))
      | inr (ring, found) ↦
          let (objs, made, holds) =
            load_from_config-Holds (backend_callbacks env) can config.ring ring start loaded.1 c
              (ap (λ o. (o, loaded.1)) found) in
          let all =
            alloc_all-AreMade env config.ring start loaded.1 objs g
              (blank-IsStocked config parser validator) made in
          subst IsSound (some_inj (rw (found, stats_server_create) at e)) (record {
            ready = record {
              opened = all.stocked.opened;
              live = λ key q i chosen.
                  AreLive-choose ring objs (length loaded.1.heap) key q i holds all.live
                    (omega (arith, all.count, small)) chosen;
            };
            bounded =
                subst (λ (p : Parser). (line : List ℕ) → p (some line) ≤ length line)
                  (sym all.same_parser) bounded;
          })
    ]
  where
    start : Server
    start = blank config parser validator

    loaded : Option Ring × Server
    loaded = Ring.load_from_config (backend_callbacks env) can config.ring start
