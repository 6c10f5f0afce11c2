-- ===== src/Examples/Reloads.antt =====
-- A server with one backend that is reloaded.
use statsrelay.Prelude.{zero, suc, ◌≡◌, refl, some, [], ◌∷◌, arith, subst, get_elem?}
use statsrelay.PointerList.{PointerList}
use statsrelay.PointerList.Holds.{Holds}
use statsrelay.Ring.{Pointer}
use statsrelay.Client.Watchers.{IsConsistent}
use statsrelay.Stats.{Backend}
use statsrelay.Stats.Backends.{stats_server_reload}
use statsrelay.Stats.Backends.Reload.{IsQuiet, stats_server_reload-IsQuiet}
use statsrelay.Examples.Clients.{connected-IsConsistent}
use statsrelay.Examples.Making.{making}
use statsrelay.Examples.Servers.{server, backend}

abbrev one_slot : PointerList Pointer
one_slot = record { allocated_size = 1; size = 1; slots = some 0 ∷ [] }

one_slot-Holds : Holds one_slot (0 ∷ [])
one_slot-Holds = record {
  count = refl;
  fits = omega arith;
  block = refl;
  small = omega arith;
  held = refl;
}

consistent : (q : Pointer) (b : Backend) → get_elem? server.heap q ≡ some b → IsConsistent b.client
consistent zero b found =
    let same : backend ≡ b = cc in
    subst (λ (d : Backend). IsConsistent d.client) same connected-IsConsistent
consistent (suc q) b found = absurd (cc found)

stats_server_reload-IsQuiet_example :
    (b : Backend) × (get_elem? (stats_server_reload (λ line. making) 99 server).heap 0 ≡ some b)
    × IsQuiet b.client
stats_server_reload-IsQuiet_example =
    stats_server_reload-IsQuiet (λ line. making) 99 server (record { backends = one_slot }) (0 ∷ [])
      refl one_slot-Holds consistent 0 0 (omega arith) refl
