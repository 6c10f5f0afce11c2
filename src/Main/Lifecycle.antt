-- ===== src/Main/Lifecycle.antt =====
-- A run of main from its options to the end of the servers.
use statsrelay.Prelude.{ℕ, ◌+◌, ◌≡◌, Bool, false, if◌then◌else◌}
use statsrelay.Outcome.{Outcome, done}
use statsrelay.Config.{Config}
use statsrelay.ServerCollection.{Process, ServerCollection, Connected, connect_server_collection}
use statsrelay.ServerCollection.Ownership.{held_collection, alive}
use statsrelay.Main.{Run, connecting_of, System}

-- The servers end in the loop. They free what they took there, but for what the collection holds then:
-- the backends may have other sockets and other objects. A server that is not enabled stays as it is.
pub record IsWorking (work : Run → Outcome Run) (start : Run) : Type 0 where
  pub end : Run
  pub returns : work start ≡ done end
  pub initialized : end.servers.initialized ≡ start.servers.initialized
  pub idle_carbon :
      end.servers.carbon_server.enabled ≡ false
      → end.servers.carbon_server ≡ start.servers.carbon_server
  pub idle_statsd :
      end.servers.statsd_server.enabled ≡ false
      → end.servers.statsd_server ≡ start.servers.statsd_server
  pub balanced :
      (x : ℕ)
      → alive end.process x + held_collection start.servers x
        ≡ alive start.process x + held_collection end.servers x

-- The run in which the servers are destroyed.
abbrev pub last : (success : Bool) → Run → Run → Run
last success start end = if success then end else start

-- The configuration is used for connect_server_collection.
abbrev connects_to :
    System → Config → ServerCollection → Process → Outcome (Connected ServerCollection)
connects_to sys cfg =
    connect_server_collection (connecting_of cfg.carbon_config sys.carbon)
      (connecting_of cfg.statsd_config sys.statsd)
