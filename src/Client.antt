-- ===== src/Client.antt =====
-- src/workers/state_manager_client.py: the workers' interface to the StateManager.
use migration_orchestrator_k.Prelude.{String, Option, none, some, Bool, false, ◌==◌}
use migration_orchestrator_k.Exec.{Exec, pure, ◌>>=◌}
use migration_orchestrator_k.Jobs.{
  JobType, JsonObject, poll_replication_status, poll_test_instance_status, poll_cutover_sync_status,
  poll_cutover_instance_status, poll_disconnect_status,
}
use migration_orchestrator_k.Db.{Server}
use migration_orchestrator_k.StateManager.Moves
use migration_orchestrator_k.StateManager.Servers
use migration_orchestrator_k.World.{World, on_db}

-- VALID_STATES_FOR_POLL; a job type that is no key has `none`.
unfoldable pub valid_states_for_poll : JobType → Option String
valid_states_for_poll poll_replication_status = some "REPLICATION_STARTED"
valid_states_for_poll poll_test_instance_status = some "TEST_INSTANCE_LAUNCHING"
valid_states_for_poll poll_cutover_sync_status = some "CUTOVER_SYNC_IN_PROGRESS"
valid_states_for_poll poll_cutover_instance_status = some "CUTOVER_INSTANCE_LAUNCHING"
valid_states_for_poll poll_disconnect_status = some "DISCONNECTING"
valid_states_for_poll _ = none

module _ {S : Type 0} where
  unfoldable pub get_server_state : String → Exec (World S) String
  get_server_state server_id = on_db (Servers.get_server_state server_id)

  unfoldable pub get_server : String → Exec (World S) Server
  get_server server_id = on_db (Servers.get_server server_id)

  abbrev pub state_is : String → Option String → Exec (World S) Bool
  state_is server_id none = pure false
  state_is server_id (some expected_state) = do
    current_state ← get_server_state server_id
    pure (current_state == expected_state)

  unfoldable pub is_poll_valid : String → JobType → Exec (World S) Bool
  unfolding valid_states_for_poll
  is_poll_valid server_id job_type = state_is server_id (valid_states_for_poll job_type)

  unfoldable pub set_aws_source_server_id : String → String → Exec (World S) (Unit {0})
  set_aws_source_server_id server_id aws_source_server_id =
      on_db (Moves.set_aws_source_server_id server_id aws_source_server_id)

  -- The workers always write triggered_by = 'system'.
  unfoldable pub advance_state :
      String
      → String
      → Option String
      → Option String
      → Option JsonObject
      → Exec (World S) (Unit {0})
  advance_state server_id new_state job_id job_type metadata =
      on_db (Moves.advance_state server_id new_state "system" job_id job_type metadata)
