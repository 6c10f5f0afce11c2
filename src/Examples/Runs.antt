-- ===== src/Examples/Runs.antt =====
-- Runs of main.
use statsrelay.Prelude.{ℕ, ◌+◌, ◌≡◌, refl, ap, arith, true, false, none, some, List, [], ◌∷◌}
use statsrelay.Outcome.{done, ◌>>=◌}
use statsrelay.Config.{Config}
use statsrelay.Config.Document.{events_of}
use statsrelay.Config.RoundTrip.{document_of, parse_config-document_of}
use statsrelay.ServerCollection.{init_server, init_server_collection}
use statsrelay.Main.{
  verbose, check_config, Run, parsed, parse_options, use_file, load_config, read_file, System,
  begin_run, main,
}
use statsrelay.Listener.Bind.{contains}
use statsrelay.ServerCollection.Ownership.{alive, held}
use statsrelay.Main.Runs.{main-check_config}
use statsrelay.Examples.Configs.{digits, start, small, digits-ReadsDecimal, small-IsWritable}
use statsrelay.Examples.Collections.{carbon, statsd, process}
use statsrelay.Examples.Logs.{new_log}

abbrev pub both : Config
both = record { carbon_config = small; statsd_config = small }

abbrev pub name : List ℕ
name = b'f' ∷ []

-- A system with one file.
abbrev pub system : System
system = record {
  default_copy = some 20;
  strtol = digits;
  start = start;
  files = λ file. some (events_of (document_of both));
  file_sd = 3;
  config_objects = 30 ∷ 31 ∷ [];
  carbon = carbon;
  statsd = statsd;
}

abbrev pub first_run : Run
first_run = record {
  servers = record {
    initialized = false;
    config_file = none;
    carbon_server = init_server;
    statsd_server = init_server;
  };
  file = [];
  log = new_log;
  just_check_config = false;
  process = process;
}

abbrev checking : Run
checking =
    record (use_file name (some 10)
      (record first_run { log = record new_log { verbose = true } })) { just_check_config = true }

options_read :
    parse_options (verbose ∷ check_config name (some 10) ∷ []) (begin_run first_run)
    ≡ done (parsed checking)
unfolding parse_options
options_read = refl

file_loaded :
    load_config system checking
    ≡ done (some both, record checking { process = read_file system (some both) checking.process })
unfolding load_config use_file init_server_collection
file_loaded =
    ap
      (λ o. o >>= λ cfg.
        done (cfg, record checking { process = read_file system cfg checking.process }))
      (parse_config-document_of digits start both refl refl refl digits-ReadsDecimal
        small-IsWritable small-IsWritable)

main-check_config_example :
    (q : Run) × (main system
        (λ run. done run)
        (verbose ∷ check_config name (some 10) ∷ [])
        first_run
      ≡ done (0, q))
    × ((sd : ℕ) → contains sd q.process.system.opened ≡ contains sd first_run.process.system.opened)
    × ((x : ℕ) → alive q.process x + held checking.servers.config_file x ≡ alive checking.process x)
unfolding use_file init_server_collection
main-check_config_example =
    main-check_config system (λ run. done run) (verbose ∷ check_config name (some 10) ∷ [])
      first_run checking _ (some both) refl options_read file_loaded refl (λ x. ground arith)
