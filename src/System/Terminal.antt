-- ===== src/System/Terminal.antt =====
-- FROZEN and CLEANUP_COMPLETE are final in the whole system.
use migration_orchestrator_k.Prelude.{String, ◌≡◌, some, List}
use migration_orchestrator_k.States.{ServerState, value}
use migration_orchestrator_k.Db.{find_server}
use migration_orchestrator_k.StateManager.Change.{life}
use migration_orchestrator_k.StateManager.Frozen.{IsTerminal, Change-IsTerminal}
use migration_orchestrator_k.Services.{Services}
use migration_orchestrator_k.World.{World}
use migration_orchestrator_k.System.Run.{Event, run, run-Holds}

module _ {S : Type 0} (aws : Services S) where
  -- A server that is FROZEN or CLEANUP_COMPLETE is still in that state after any requests and
  -- worker turns, whatever AWS and the broker answer, whatever stands in the queues and whatever
  -- times the clock shows.
  pub run-IsTerminal :
      (s : ServerState) (id : String) (events : List (Event S)) (w : World S)
      → IsTerminal s
      → life (find_server id w.db.servers) ≡ some (value s)
      → life (find_server id (run aws events w).db.servers) ≡ some (value s)
  run-IsTerminal s id events w terminal =
      run-Holds aws (λ db. life (find_server id db.servers) ≡ some (value s))
        (λ db db' change h. Change-IsTerminal s id terminal change h) events w
