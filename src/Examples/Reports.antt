-- ===== src/Examples/Reports.antt =====
-- The statistics of a server with one backend.
use statsrelay.Prelude.{
  ◌≡◌, refl, some, [], ◌∷◌, ◌++◌, inr, subst, sym, ap, ◌∙◌, arith, length, replicate,
}
use statsrelay.Decimal.{decimal}
use statsrelay.Outcome.{done, map_outcome}
use statsrelay.Buffer.{Buffer}
use statsrelay.Buffer.Invariant.{IsValid}
use statsrelay.Stats.Relay.{newline}
use statsrelay.Stats.Report.{max_udp_length, send_statistics}
use statsrelay.Stats.Report.Text.{statistics_texts, statistics, texts_kept, texts_kept_all}
use statsrelay.Stats.Report.Sending.{IsTaking, send_statistics_lem, status_answered}
use statsrelay.Stats.Session.{World, process_lines, status_line}
use statsrelay.Stats.Lines.{view}
use statsrelay.Examples.{plenty, plenty-IsMalloc}
use statsrelay.Examples.Servers.{server, world}

count : length (statistics server) ≡ 318
unfolding decimal
count = refl

-- The socket takes 300 bytes, and then the other 18.
abbrev two_sends : World
two_sends = record world { sends = λ ss. some 300 ∷ some 18 ∷ [] }

taking : IsTaking (some 300 ∷ some 18 ∷ []) 318
taking = inr (omega arith, omega arith, inr (omega arith, omega arith, omega arith))

fits : texts_kept max_udp_length (statistics_texts server) ≡ statistics server
fits = texts_kept_all max_udp_length (statistics_texts server) (omega (arith, count))

send_statistics_lem_example :
    send_statistics plenty (some 300 ∷ some 18 ∷ []) server
    ≡ texts_kept max_udp_length (statistics_texts server)
send_statistics_lem_example =
    send_statistics_lem plenty (some 300 ∷ some 18 ∷ []) server (replicate max_udp_length 0)
      plenty-IsMalloc refl
      (subst (IsTaking (some 300 ∷ some 18 ∷ [])) (sym (ap length fits ∙ count)) taking)

abbrev asking : Buffer
asking = record { mem = status_line ++ newline ∷ 0 ∷ []; head = 0; tail = 7; size = 8 }

asking-IsValid : IsValid asking
asking-IsValid = ground arith

status_answered_example :
    map_outcome view (process_lines 7 two_sends asking server)
    ≡ done (record { code = 0; responses = statistics server; left = []; server = server })
status_answered_example =
    status_answered two_sends asking server (replicate max_udp_length 0) asking-IsValid refl
      plenty-IsMalloc refl (omega (arith, count))
      (subst (IsTaking (some 300 ∷ some 18 ∷ [])) (sym count) taking)
