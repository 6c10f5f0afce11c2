-- ===== src/Main/Runs.antt =====
-- Runs of main that only check the configuration.
use statsrelay.Prelude.{
  ℕ, ◌+◌, ◌-◌, ◌≤◌, ◌≡◌, refl, ap, ◌∙◌, sym, subst, Bool, true, false, Option, none, some, List, [],
  ◌∷◌, if◌then◌else◌, arith,
}
use statsrelay.Outcome.{Outcome, done, Holds, ◌>>=◌}
use statsrelay.Config.{Config, default_config}
use statsrelay.Log.{Logger}
use statsrelay.Listener
use statsrelay.Listener.Bind.{contains}
use statsrelay.ServerCollection.{ServerCollection, init_server_collection}
use statsrelay.ServerCollection.Ownership.{held, held_all, held_server, held_collection, alive}
use statsrelay.ServerCollection.Owning.{alive-append}
use statsrelay.ServerCollection.Lifecycle.{IsConnected, initial, collection_sockets}
use statsrelay.Main.{
  Arg, help, verbose, version, unknown, log_level, config, check_config, Run, to_lower, use_file,
  Parsed, returns, errs, parsed, parse_options, objects_of, load_config, System, finish, serve,
  after_options, begin_run, main,
}
use statsrelay.Main.Ending.{
  has_check, IsFlagged, parse_options-IsFlagged, IsLoaded, load_config-IsLoaded, serving,
  finish-Ends,
}

-- A run before anything is connected.
record IsIdle (start run : Run) : Type 0 where
  system : run.process.system ≡ start.process.system
  checks : run.just_check_config ≡ true → run.servers.initialized ≡ true
  holds :
      run.servers.initialized ≡ true
      → (x : ℕ) → held run.servers.config_file x ≤ alive run.process x
  unconnected : run.servers.initialized ≡ true → run.servers ≡ initial run.servers.config_file

begin_run-IsIdle : (run : Run) → IsIdle run (begin_run run)
begin_run-IsIdle run = record {
  system = refl;
  checks = λ h. absurd (cc h);
  holds = λ h. absurd (cc h);
  unconnected = λ h. absurd (cc h);
}

use_file-IsIdle :
    (start : Run) (name : List ℕ) (copy : Option ℕ) (check : Bool) (run : Run)
    → IsIdle start run
    → IsIdle start (record (use_file name copy run) { just_check_config = check })
unfolding use_file init_server_collection
use_file-IsIdle start name none check run idle = record {
  system = idle.system;
  checks = λ h. refl;
  holds = λ h x. omega arith;
  unconnected = λ h. refl;
}
use_file-IsIdle start name (some copy) check run idle = record {
  system = idle.system;
  checks = λ h. refl;
  holds = λ h x. ground arith;
  unconnected = λ h. refl;
}

-- The log has no part in it.
logged :
    (start : Run) (log : Logger) (run : Run)
    → IsIdle start run
    → IsIdle start (record run { log = log })
logged start log run idle = record {
  system = idle.system;
  checks = idle.checks;
  holds = idle.holds;
  unconnected = idle.unconnected;
}

abbrev run_of : Parsed → Run
run_of (returns code run) = run
run_of (errs run) = run
run_of (parsed run) = run

parse_options-IsIdle :
    (start : Run) (args : List Arg) (run : Run)
    → IsIdle start run
    → Holds (λ p. IsIdle start (run_of p)) (parse_options args run)
unfolding parse_options to_lower
parse_options-IsIdle start [] run idle = idle
parse_options-IsIdle start (help ∷ args) run idle = idle
parse_options-IsIdle start (verbose ∷ args) run idle =
    parse_options-IsIdle start args _ (logged start _ run idle)
parse_options-IsIdle start (version ∷ args) run idle = idle
parse_options-IsIdle start (unknown ∷ args) run idle = idle
parse_options-IsIdle start (log_level text true ∷ args) run idle =
    parse_options-IsIdle start args _ (logged start _ run idle)
parse_options-IsIdle start (log_level text false ∷ args) run idle = tt
parse_options-IsIdle start (config name copy ∷ args) run idle =
    parse_options-IsIdle start args _
      (use_file-IsIdle start name copy run.just_check_config run idle)
parse_options-IsIdle start (check_config name copy ∷ args) run idle =
    parse_options-IsIdle start args _ (use_file-IsIdle start name copy true run idle)

pub after_options_initialized :
    (sys : System) (work : Run → Outcome Run) (run : Run)
    → run.servers.initialized ≡ true
    → after_options sys work run ≡ (load_config sys run >>= λ l. serve sys work l.0 l.1)
unfolding after_options
after_options_initialized sys work run initialized =
    ap (λ r. load_config sys r >>= λ l. serve sys work l.0 l.1)
      {x = if run.servers.initialized then run else use_file default_config sys.default_copy run}
      (ap (λ b. if b then run else use_file default_config sys.default_copy run) initialized)

-- The flag that the options leave.
pub parsed_flag :
    (args : List Arg) (run r : Run)
    → parse_options args (begin_run run) ≡ done (parsed r)
    → r.just_check_config ≡ has_check args
parsed_flag args run r options =
    subst (Holds (IsFlagged (if has_check args then true else false))) options
      (parse_options-IsFlagged args (begin_run run))
    ∙ same (has_check args)
  where
    same : (b : Bool) → (if b then true else false) ≡ b
    same true = refl
    same false = refl

-- main from load_config on, where the options were read.
pub main-loaded :
    (sys : System) (work : Run → Outcome Run) (args : List Arg) (run r r' : Run)
    (cfg : Option Config)
    → parse_options args (begin_run run) ≡ done (parsed r)
    → r.servers.initialized ≡ true
    → load_config sys r ≡ done (cfg, r')
    → main sys work args run ≡ serve sys work cfg r'
unfolding main
main-loaded sys work args run r r' cfg options initialized loads = rw options (
    after_options_initialized sys work r initialized
    ∙ ap (λ o. o >>= λ l. serve sys work l.0 l.1) loads)

-- The result of a run that only checks the configuration.
abbrev pub verdict : Option Config → ℕ
verdict none = 1
verdict (some cfg) = 0

serve_check :
    (sys : System) (work : Run → Outcome Run) (cfg : Option Config) (run : Run)
    → run.just_check_config ≡ true
    → serve sys work cfg run ≡ finish (verdict cfg) (objects_of sys cfg) run
unfolding serve
serve_check sys work none run only = refl
serve_check sys work (some cfg) run only = rw (only, serve) refl

objects_of-le :
    (sys : System) (cfg : Option Config) (x : ℕ)
    → held_all (objects_of sys cfg) x ≤ held_all sys.config_objects x
objects_of-le sys none x = omega arith
objects_of-le sys (some cfg) x = omega arith

-- A run that is idle and has loaded a configuration.
loaded-IsConnected :
    (sys : System) (start r r' : Run) (cfg : Option Config)
    → IsIdle start r
    → r.servers.initialized ≡ true
    → IsLoaded sys r (cfg, r')
    → ((x : ℕ) → held_all sys.config_objects x + alive r.process x ≤ 1)
    → IsConnected
        (λ x. held_all (objects_of sys cfg) x + (alive r.process x - held r.servers.config_file x))
        (serving r')
loaded-IsConnected sys start r r' cfg idle initialized l fresh =
    let servers : r'.servers ≡ initial r.servers.config_file =
      l.servers ∙ idle.unconnected initialized in
    record {
      started = ap (λ (s : ServerCollection). s.initialized) servers;
      balanced = λ x. omega (
        arith,
        ap (λ s. held_collection s x) servers,
        idle.holds initialized x,
        alive-append (objects_of sys cfg) x r.process r'.process l.live
            (omega (arith, fresh x, objects_of-le sys cfg x)),
      );
      carbon_empty = λ h x. ap (λ (s : ServerCollection). held_server s.carbon_server x) servers;
      statsd_empty = λ h x. ap (λ (s : ServerCollection). held_server s.statsd_server x) servers;
    }

-- If one of main's options is check-config and they are read to their end, load_config returns,
-- fopen's descriptor was not open, and malloc gives the configuration addresses that are not alive,
-- then main returns, with 0 if load_config gave a configuration and with 1 if it did not; the
-- descriptors that are open are those that were before main; and the objects that are alive are
-- those that were when the options were read, without the copy of the file's name.
pub main-check_config :
    (sys : System) (work : Run → Outcome Run) (args : List Arg) (run r r' : Run)
    (cfg : Option Config)
    → has_check args ≡ true
    → parse_options args (begin_run run) ≡ done (parsed r)
    → load_config sys r ≡ done (cfg, r')
    → contains sys.file_sd run.process.system.opened ≡ false
    → ((x : ℕ) → held_all sys.config_objects x + alive r.process x ≤ 1)
    → (q : Run) × (main sys work args run ≡ done (verdict cfg, q))
      × ((sd : ℕ) → contains sd q.process.system.opened ≡ contains sd run.process.system.opened)
      × ((x : ℕ) → alive q.process x + held r.servers.config_file x ≡ alive r.process x)
main-check_config sys work args run r r' cfg asks options loads absent fresh =
    let idle : IsIdle run r =
      subst (Holds (λ p. IsIdle run (run_of p))) options
        (parse_options-IsIdle run args (begin_run run) (begin_run-IsIdle run)) in
    let only = parsed_flag args run r options ∙ asks in
    let initialized = idle.checks only in
    let l : IsLoaded sys r (cfg, r') = subst (Holds (IsLoaded sys r)) loads (
      load_config-IsLoaded sys r (
        subst (λ (s : Listener.System). contains sys.file_sd s.opened ≡ false) (sym idle.system)
          absent)) in
    let ends =
      finish-Ends (λ x. alive r.process x - held r.servers.config_file x) (verdict cfg)
        (objects_of sys cfg) r' (loaded-IsConnected sys run r r' cfg idle initialized l fresh) in
    let no_sockets = ap collection_sockets (l.servers ∙ idle.unconnected initialized) in
    (
      ends.run,
      main-loaded sys work args run r r' cfg options initialized loads
          ∙ serve_check sys work cfg r' (l.checks ∙ only)
          ∙ ends.returns,
      λ sd.
          ends.closed sd
          ∙ ap (λ s. if contains sd s then false else contains sd r'.process.system.opened)
              no_sockets
          ∙ ap (contains sd) (l.opened ∙ ap (λ (s : Listener.System). s.opened) idle.system),
      λ x. omega (arith, ends.remain x, idle.holds initialized x),
    )
