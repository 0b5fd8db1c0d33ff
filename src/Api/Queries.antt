-- ===== src/Api/Queries.antt =====
-- The reads of src/api/routes/servers.py, batches.py and history.py that pass their filters on.
use migration_orchestrator_k.Prelude.{ℕ, String, Option, Bool, List}
use migration_orchestrator_k.Exec.{Result, Exec}
use migration_orchestrator_k.Db.{Server, Transition, Batch}
use migration_orchestrator_k.StateManager.Queries
use migration_orchestrator_k.StateManager.Batches
use migration_orchestrator_k.World.{World, on_db}
use migration_orchestrator_k.Api.Batches.{get_batch_or_404}

module _ {S : Type 0} where
  unfoldable pub list_servers :
      (String → String → Bool)
      → Option String
      → Option String
      → Option String
      → Option String
      → Exec (World S) (List Server)
  list_servers ilike state batch_id assigned_engineer hostname =
      on_db (Queries.list_servers ilike state batch_id assigned_engineer hostname)

  unfoldable pub list_transitions :
      (String → Result ℕ)
      → Option String
      → Option String
      → Option String
      → Option String
      → Option String
      → Option String
      → Option String
      → Option String
      → Exec (World S) (List Transition)
  list_transitions timestamptz server_id batch_id from_state to_state by job_type since until =
      on_db (
        Queries.list_transitions timestamptz server_id batch_id from_state to_state by job_type
          since until)

  unfoldable pub list_batches : Exec (World S) (List (Batch × ℕ))
  list_batches = on_db Batches.list_batches

  unfoldable pub get_batch : String → Exec (World S) (Batch × ℕ)
  get_batch batch_id = get_batch_or_404 batch_id
