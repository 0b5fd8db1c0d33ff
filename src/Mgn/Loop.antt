-- ===== src/Mgn/Loop.antt =====
-- VALID_STATES_FOR_JOB, the table of handlers and the message loop of the MGN worker.
use migration_orchestrator_k.Prelude.{String, Option, none, some, Bool, true, ◌==◌, if◌then◌else◌}
use migration_orchestrator_k.Exec.{Exec, pure, lift, try_except, ◌>>=◌, ◌>>◌}
use migration_orchestrator_k.Jobs.{
  entry, JobType, add_server, configure_replication_settings, start_replication,
  configure_test_launch_template, launch_test_instance, finalize_test,
  configure_cutover_launch_template, start_cutover, launch_cutover_instance, finalize_cutover,
  disconnect_source_server, archive_source_server, delete_replication_components, JsonObject,
  Message, job_value, load, required, job_id_of, job_type_of, get_item, as_text,
}
use migration_orchestrator_k.Services.{Services}
use migration_orchestrator_k.World.{World}
use migration_orchestrator_k.Client
use migration_orchestrator_k.Mgn.Results.{MgnResult, success, failure, Verdict, ack, nack}
use migration_orchestrator_k.Mgn.Onboarding.{
  handle_add_server, handle_configure_replication, handle_start_replication,
  handle_configure_test_launch_template, handle_launch_test_instance, handle_finalize_test,
}
use migration_orchestrator_k.Mgn.Cutover.{
  handle_configure_cutover_launch_template, handle_start_cutover, handle_launch_cutover_instance,
  handle_finalize_cutover, handle_disconnect_source_server, handle_archive_source_server,
  handle_delete_replication_components,
}

-- VALID_STATES_FOR_JOB; a job type that is no key has `none`.
unfoldable pub valid_states_for_job : JobType → Option String
valid_states_for_job add_server = some "PENDING"
valid_states_for_job configure_replication_settings = some "AGENT_INSTALLED"
valid_states_for_job start_replication = some "REPLICATION_STARTED"
valid_states_for_job configure_test_launch_template = some "READY_FOR_TESTING"
valid_states_for_job launch_test_instance = some "TEST_INSTANCE_LAUNCHING"
valid_states_for_job finalize_test = some "TEST_FINALIZED"
valid_states_for_job configure_cutover_launch_template = some "CUTOVER_LAUNCH_TEMPLATE_CONFIGURED"
valid_states_for_job start_cutover = some "CUTOVER_STARTED"
valid_states_for_job launch_cutover_instance = some "READY_FOR_CUTOVER_LAUNCH"
valid_states_for_job finalize_cutover = some "CUTOVER_FINALIZED"
valid_states_for_job disconnect_source_server = some "DISCONNECTING"
valid_states_for_job archive_source_server = some "ARCHIVED"
valid_states_for_job delete_replication_components = some "CLEANUP_COMPLETE"
valid_states_for_job _ = none

module _ {S : Type 0} (aws : Services S) where
  -- `self._handlers`
  unfoldable pub handler : JobType → Option (JsonObject → Exec (World S) MgnResult)
  handler add_server = some (handle_add_server aws)
  handler configure_replication_settings = some (handle_configure_replication aws)
  handler start_replication = some (handle_start_replication aws)
  handler configure_test_launch_template = some (handle_configure_test_launch_template aws)
  handler launch_test_instance = some (handle_launch_test_instance aws)
  handler finalize_test = some (handle_finalize_test aws)
  handler configure_cutover_launch_template = some (handle_configure_cutover_launch_template aws)
  handler start_cutover = some (handle_start_cutover aws)
  handler launch_cutover_instance = some (handle_launch_cutover_instance aws)
  handler finalize_cutover = some (handle_finalize_cutover aws)
  handler disconnect_source_server = some (handle_disconnect_source_server aws)
  handler archive_source_server = some (handle_archive_source_server aws)
  handler delete_replication_components = some (handle_delete_replication_components aws)
  handler _ = none

  -- The stale message check: a job type with no expected state passes.
  abbrev pub is_current : String → Option String → Exec (World S) Bool
  is_current server_id none = pure true
  is_current server_id (some expected_state) = do
    current_state ← Client.get_server_state server_id
    pure (current_state == expected_state)

  -- The branches on the result.
  abbrev pub act : String → String → JobType → MgnResult → Exec (World S) Verdict
  act server_id job_id job_type failure = pure nack
  act server_id job_id job_type (success none metadata) = pure ack
  act server_id job_id job_type (success (some next_state) metadata) = do
    Client.advance_state server_id next_state (some job_id) (some (job_value job_type)) metadata
    pure ack

  abbrev pub run_handler :
      String
      → String
      → JobType
      → JsonObject
      → Option (JsonObject → Exec (World S) MgnResult)
      → Exec (World S) Verdict
  run_handler server_id job_id job_type payload none = pure nack
  run_handler server_id job_id job_type payload (some h) = do
    result ← h payload
    act server_id job_id job_type result

  -- The body of `try` once the message is read.
  unfoldable pub execute : String → String → JobType → JsonObject → Exec (World S) Verdict
  execute server_id job_id job_type payload = do
    current ← is_current server_id (valid_states_for_job job_type)
    if current then run_handler server_id job_id job_type payload (handler job_type) else pure ack

  unfoldable pub process : Message → Exec (World S) Verdict
  process message = do
    body ← lift (load message)
    text ← lift (required "job_type" (entry body.texts "job_type"))
    job_type ← lift (job_type_of text)
    payload ← lift (required "payload" (entry body.objects "payload"))
    server_id ← lift (get_item payload "server_id")
    id ← lift (as_text server_id)
    execute id (job_id_of message body) job_type payload

  -- MgnWorker._on_message
  unfoldable pub on_message : Message → Exec (World S) Verdict
  on_message message = try_except (process message) (λ e. pure nack)
