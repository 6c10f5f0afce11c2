-- ===== src/Main/Ending.antt =====
-- How main loads its configuration and how it ends.
use statsrelay.Prelude.{
  ℕ, ◌+◌, ◌≡◌, refl, ap, subst, ◌∙◌, Bool, true, false, Option, none, some, List, [], ◌∷◌, ◌++◌,
  if◌then◌else◌, arith,
}
use statsrelay.Outcome.{Outcome, done, undefined, Holds, ◌>>=◌}
use statsrelay.Config.{Config}
use statsrelay.Config.Parser.{Read, parse_config}
use statsrelay.Log.{stats_log_end}
use statsrelay.Listener.{remove}
use statsrelay.Listener.Bind.{contains}
use statsrelay.ServerCollection.{ServerCollection, Connected, destroy_server_collection}
use statsrelay.ServerCollection.Ownership.{
  held_all, alive, contains-remove_all, release_all-IsDestroyed,
}
use statsrelay.ServerCollection.Lifecycle.{IsConnected, IsConnected-destroyed, collection_sockets}
use statsrelay.Main.{
  Arg, help, verbose, version, unknown, log_level, config, check_config, Run, to_lower, use_file,
  Parsed, returns, errs, parsed, parse_options, load_config, destroy_config, objects_of, read_file,
  System, finish, graceful_shutdown, run_loop,
}

-- One of the options is check-config.
abbrev pub has_check : List Arg → Bool
has_check [] = false
has_check (check_config name copy ∷ args) = true
has_check (help ∷ args) = has_check args
has_check (verbose ∷ args) = has_check args
has_check (version ∷ args) = has_check args
has_check (unknown ∷ args) = has_check args
has_check (log_level text memory ∷ args) = has_check args
has_check (config name copy ∷ args) = has_check args

-- The flag behind the loop over the options, where it is read to its end.
abbrev pub IsFlagged : Bool → Parsed → Type 0
IsFlagged b (returns code run) = Unit {0}
IsFlagged b (errs run) = Unit {0}
IsFlagged b (parsed run) = run.just_check_config ≡ b

either : (b : Bool) → (if b then true else true) ≡ true
either true = refl
either false = refl

pub parse_options-IsFlagged :
    (args : List Arg) (run : Run)
    → Holds
        (IsFlagged (if has_check args then true else run.just_check_config))
        (parse_options args run)
unfolding parse_options to_lower use_file
parse_options-IsFlagged [] run = refl
parse_options-IsFlagged (help ∷ args) run = tt
parse_options-IsFlagged (verbose ∷ args) run = parse_options-IsFlagged args _
parse_options-IsFlagged (version ∷ args) run = tt
parse_options-IsFlagged (unknown ∷ args) run = tt
parse_options-IsFlagged (log_level text true ∷ args) run = parse_options-IsFlagged args _
parse_options-IsFlagged (log_level text false ∷ args) run = tt
parse_options-IsFlagged (config name copy ∷ args) run =
    parse_options-IsFlagged args (use_file name copy run)
parse_options-IsFlagged (check_config name copy ∷ args) run =
    let run' = record (use_file name copy run) { just_check_config = true } in
    subst (λ b. Holds (IsFlagged b) (parse_options args run')) (either (has_check args))
      (parse_options-IsFlagged args run')

-- What load_config leaves.
pub record IsLoaded (sys : System) (run : Run) (l : Option Config × Run) : Type 0 where
  pub servers : l.1.servers ≡ run.servers
  pub checks : l.1.just_check_config ≡ run.just_check_config
  pub live : l.1.process.live ≡ objects_of sys l.0 ++ run.process.live
  pub opened : l.1.process.system.opened ≡ run.process.system.opened

remove-absent : (sd : ℕ) (l : List ℕ) → contains sd l ≡ false → remove sd l ≡ l
remove-absent sd [] h = refl
remove-absent sd (x ∷ xs) h = ground (arith, h, remove-absent sd xs)

closed_again : (sd : ℕ) (l : List ℕ) → contains sd l ≡ false → remove sd (sd ∷ l) ≡ l
closed_again sd l h = ground (arith, remove-absent sd l h)

pub load_config-IsLoaded :
    (sys : System) (run : Run)
    → contains sys.file_sd run.process.system.opened ≡ false
    → Holds (IsLoaded sys run) (load_config sys run)
unfolding load_config
load_config-IsLoaded sys run absent = by_name run.servers.config_file (sys.files run.file)
  where
    by_result :
        (o : Outcome (Option Config))
        → Holds
            (IsLoaded sys run)
            (o >>= λ cfg. done (cfg, record run { process = read_file sys cfg run.process }))
    by_result undefined = tt
    by_result (done cfg) = record {
      servers = refl;
      checks = refl;
      live = refl;
      opened = closed_again sys.file_sd run.process.system.opened absent;
    }

    by_name :
        (name : Option ℕ) (file : Option (List Read))
        → Holds (IsLoaded sys run) (elim name [
          | none ↦ undefined
          | some copy ↦ elim file [
            | none ↦ done (none, run)
            | some reads ↦ parse_config sys.strtol sys.start reads >>= λ cfg.
                done (cfg, record run { process = read_file sys cfg run.process })
          ]
        ])
    by_name none file = tt
    by_name (some copy) none = record { servers = refl; checks = refl; live = refl; opened = refl }
    by_name (some copy) (some reads) = by_result (parse_config sys.strtol sys.start reads)

-- main returns `code`, the objects `base` are alive, and of the descriptors `opened` those of `sockets`
-- are closed.
pub record Ends (o : Outcome (ℕ × Run)) (code : ℕ) (base : ℕ → ℕ) (sockets opened : List ℕ)
    : Type 0 where
  pub run : Run
  pub returns : o ≡ done (code, run)
  pub finished : run.servers.initialized ≡ false
  pub remain : (x : ℕ) → alive run.process x ≡ base x
  pub closed :
      (sd : ℕ)
      → contains sd run.process.system.opened
        ≡ (if contains sd sockets then false else contains sd opened)

-- The servers of a run, as connect_server_collection leaves them.
abbrev pub serving : Run → Connected ServerCollection
serving run = record { success = true; server = run.servers; process = run.process }

pub finish-Ends :
    (base : ℕ → ℕ) (code : ℕ) (objects : List ℕ) (run : Run)
    → IsConnected (λ x. held_all objects x + base x) (serving run)
    → Ends
        (finish code objects run)
        code
        base
        (collection_sockets run.servers)
        run.process.system.opened
unfolding finish destroy_config
finish-Ends base code objects run v =
    let (p, destroyed, left, opened) =
      IsConnected-destroyed (λ x. held_all objects x + base x) (serving run) v in
    let d = release_all-IsDestroyed objects base p left in
    record {
      run = record run {
        servers = record run.servers { initialized = false };
        process = d.process;
        log = stats_log_end run.log;
      };
      returns = rw (destroyed, d.returns, finish, destroy_config) refl;
      finished = refl;
      remain = d.remain;
      closed = λ sd.
          ap (contains sd) (d.opened ∙ opened)
          ∙ contains-remove_all sd (collection_sockets run.servers) run.process.system.opened;
    }

pub run_loop-Ends :
    (base : ℕ → ℕ) (objects : List ℕ) (work : Run → Outcome Run) (run end : Run)
    → work run ≡ done end
    → IsConnected (λ x. held_all objects x + base x) (serving end)
    → Ends
        (run_loop objects work run)
        0
        base
        (collection_sockets end.servers)
        end.process.system.opened
unfolding run_loop graceful_shutdown finish destroy_server_collection destroy_config
run_loop-Ends base objects work run end works v =
    let (p, destroyed, left, opened) =
      IsConnected-destroyed (λ x. held_all objects x + base x) (serving end) v in
    let d = release_all-IsDestroyed objects base p left in
    record {
      run = record end {
        servers = record end.servers { initialized = false };
        process = d.process;
        log = stats_log_end end.log;
      };
      returns =
          rw (works, destroyed, run_loop, graceful_shutdown, finish, destroy_config)
            (ap
              (λ o. o >>= λ q. done (
                0,
                record end {
                  servers = record end.servers { initialized = false };
                  process = q;
                  log = stats_log_end end.log;
                },
              ))
              d.returns);
      finished = refl;
      remain = d.remain;
      closed = λ sd.
          ap (contains sd) (d.opened ∙ opened)
          ∙ contains-remove_all sd (collection_sockets end.servers) end.process.system.opened;
    }
