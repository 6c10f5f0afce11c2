-- ===== src/Main.antt =====
-- src/main.c: the options, the configuration, and the start and the end of the servers.
pub mod Ending
pub mod Runs
pub mod Lifecycle
use statsrelay.Prelude.{
  ℕ, ◌+◌, Bool, true, false, Option, none, some, List, [], ◌∷◌, ◌++◌, if◌then◌else◌, leb, length,
  map,
}
use statsrelay.Outcome.{Outcome, done, undefined, ◌>>=◌}
use statsrelay.Bytes.{same_bytes}
use statsrelay.Config.{ProtoConfig, Config, default_config}
use statsrelay.Config.Parser.{Read, Strtol, Start, parse_config}
use statsrelay.Log.{Logger, log_debug, log_info, log_warn, log_error, stats_log_end}
use statsrelay.ServerCollection.{
  Process, ServerCollection, Connecting, init_server_collection, connect_server_collection,
  destroy_server_collection, release_all,
}
use statsrelay.Listener.{close, open_descriptor}

-- What getopt_long finds, with the argument of the option and what strdup returns for it. An option that
-- it does not know, or that lacks its argument, is `unknown`.
pub data Arg : Type 0 where
  help verbose version unknown : Arg
  log_level : List ℕ → Bool → Arg
  config check_config : List ℕ → Option ℕ → Arg

-- The global `servers` with the text that its config_file points to, the log, and the local variable of main.
pub record Run : Type 0 where
  pub servers : ServerCollection
  pub file : List ℕ
  pub log : Logger
  pub just_check_config : Bool
  pub process : Process

-- tolower in the C locale.
abbrev pub lower_byte : ℕ → ℕ
lower_byte x = if leb b'A' x then (if leb x b'Z' then x + 32 else x) else x

-- to_lower. Without memory it writes through NULL.
unfoldable pub to_lower : Bool → List ℕ → Outcome (List ℕ)
to_lower memory input = if memory then done (map lower_byte input) else undefined

-- The case 'l', for the text in lower case. A text that is no level changes nothing.
unfoldable pub set_log_level : List ℕ → Logger → Logger
unfolding same_bytes
set_log_level lower log =
    if same_bytes lower (b'd' ∷ b'e' ∷ b'b' ∷ b'u' ∷ b'g' ∷ [])
    then record log { level = log_debug; verbose = true }
    else if same_bytes lower (b'w' ∷ b'a' ∷ b'r' ∷ b'n' ∷ [])
    then record log { level = log_warn }
    else if same_bytes lower (b'e' ∷ b'r' ∷ b'r' ∷ b'o' ∷ b'r' ∷ [])
    then record log { level = log_error }
    else log

-- init_server_collection for a file name.
unfoldable pub use_file : List ℕ → Option ℕ → Run → Run
unfolding init_server_collection
use_file name copy run =
    let (servers, process) = init_server_collection copy run.process in
    record run { servers = servers; file = name; process = process }

-- How the loop over the options ends: `return`, `goto err`, or the code behind it.
pub data Parsed : Type 0 where
  returns : ℕ → Run → Parsed
  errs parsed : Run → Parsed

unfoldable pub parse_options : List Arg → Run → Outcome Parsed
unfolding to_lower set_log_level use_file
parse_options [] run = done (parsed run)
parse_options (help ∷ args) run = done (returns 1 run)
parse_options (verbose ∷ args) run =
    parse_options args (record run { log = record run.log { verbose = true } })
parse_options (version ∷ args) run = done (returns 0 run)
parse_options (unknown ∷ args) run = done (errs run)
parse_options (log_level text memory ∷ args) run = to_lower memory text >>= λ lower.
    parse_options args (record run { log = set_log_level lower run.log })
parse_options (config name copy ∷ args) run = parse_options args (use_file name copy run)
parse_options (check_config name copy ∷ args) run =
    parse_options args (record (use_file name copy run) { just_check_config = true })

-- What the files hold: the events that libyaml reads of a file that can be opened.
abbrev pub Files : Type 0
Files = List ℕ → Option (List Read)

-- What connect_server reads of the configuration of a protocol.
abbrev pub connecting_of : ProtoConfig → Connecting → Connecting
connecting_of c answers = record answers { backends = length c.ring; bind = c.bind }

-- What the system answers after the options: strdup for the default name, the start of parse_config, the
-- files, the descriptor that fopen opens, the objects that parse_config allocates for the configuration that
-- it returns, and the calls of connect_server for both protocols.
pub record System : Type 0 where
  pub default_copy : Option ℕ
  pub strtol : Strtol
  pub start : Start
  pub files : Files
  pub file_sd : ℕ
  pub config_objects : List ℕ
  pub carbon : Connecting
  pub statsd : Connecting

-- The objects of a configuration, or of NULL.
abbrev pub objects_of : System → Option Config → List ℕ
objects_of sys none = []
objects_of sys (some cfg) = sys.config_objects

-- fopen, parse_config and fclose, for the process.
abbrev pub read_file : System → Option Config → Process → Process
read_file sys cfg p = record {
  live = objects_of sys cfg ++ p.live;
  system = close sys.file_sd (open_descriptor sys.file_sd p.system);
}

-- load_config. fopen reads the copy of the name.
unfoldable pub load_config : System → Run → Outcome (Option Config × Run)
unfolding parse_config
load_config sys run = elim run.servers.config_file [
  | none ↦ undefined
  | some copy ↦ elim (sys.files run.file) [
    | none ↦ done (none, run)
    | some reads ↦ parse_config sys.strtol sys.start reads >>= λ cfg.
        done (cfg, record run { process = read_file sys cfg run.process })
  ]
]

-- destroy_config of the configuration with these objects; none are there for NULL.
unfoldable pub destroy_config : List ℕ → Process → Outcome Process
unfolding release_all
destroy_config objects p = release_all objects p

-- The label `success` or `err`: the servers and the configuration are destroyed, and the result is `code`.
unfoldable pub finish : ℕ → List ℕ → Run → Outcome (ℕ × Run)
unfolding destroy_server_collection destroy_config stats_log_end
finish code objects run = destroy_server_collection run.servers run.process >>= λ r.
    destroy_config objects r.1 >>= λ p.
    done (code, record run { servers = r.0; process = p; log = stats_log_end run.log })

-- graceful_shutdown
unfoldable pub graceful_shutdown : Run → Outcome Run
unfolding destroy_server_collection
graceful_shutdown run = destroy_server_collection run.servers run.process >>= λ r.
    done (record run { servers = r.0; process = r.1 })

-- main from the event loop on, which a signal ends. `work` is what the servers do in the loop.
unfoldable pub run_loop : List ℕ → (Run → Outcome Run) → Run → Outcome (ℕ × Run)
unfolding graceful_shutdown finish
run_loop objects work run = work run >>= graceful_shutdown >>= finish 0 objects

-- main behind load_config.
unfoldable pub serve : System → (Run → Outcome Run) → Option Config → Run → Outcome (ℕ × Run)
unfolding run_loop finish connect_server_collection
serve sys work none run = finish 1 [] run
serve sys work (some cfg) run =
    if run.just_check_config
    then finish 0 sys.config_objects run
    else (connect_server_collection (connecting_of cfg.carbon_config sys.carbon)
          (connecting_of cfg.statsd_config sys.statsd) run.servers run.process
        >>= λ r.
            (let run' = record run { servers = r.server; process = r.process } in
              if r.success
              then run_loop sys.config_objects work run'
              else finish 1 sys.config_objects run'))

-- main behind the loop over the options.
unfoldable pub after_options : System → (Run → Outcome Run) → Run → Outcome (ℕ × Run)
unfolding load_config serve use_file
after_options sys work run =
    let run' =
      if run.servers.initialized then run else use_file default_config sys.default_copy run in
    load_config sys run' >>= λ l. serve sys work l.0 l.1

-- What main sets before the loop.
abbrev pub begin_run : Run → Run
begin_run run = record run {
  servers = record run.servers { initialized = false };
  log = record run.log { level = log_info };
  just_check_config = false;
}

unfoldable pub main : System → (Run → Outcome Run) → List Arg → Run → Outcome (ℕ × Run)
unfolding parse_options after_options finish
main sys work args run = parse_options args (begin_run run) >>= λ p. elim p [
  | returns code run' ↦ done (code, run')
  | errs run' ↦ finish 1 [] run'
  | parsed run' ↦ after_options sys work run'
]
