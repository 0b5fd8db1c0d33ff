-- ===== src/Mgn/Cutover.antt =====
-- The handlers of stages 4 and 5: the cutover and the cleanup after it.
use migration_orchestrator_k.Prelude.{
  String, Option, none, some, List, [], ◌∷◌, ◌==◌, if◌then◌else◌,
}
use migration_orchestrator_k.Exec.{Exec, pure, lift, ◌>>=◌, ◌>>◌}
use migration_orchestrator_k.Jobs.{
  JsonObject, Value, of_option, get_item, truthy, poll_cutover_sync_status,
  poll_cutover_instance_status, poll_disconnect_status, disconnect_source_server,
}
use migration_orchestrator_k.Services
use migration_orchestrator_k.Services.{Services, SourceServer, Participant, MgnJob}
use migration_orchestrator_k.World.{World, call, read}
use migration_orchestrator_k.Dispatcher.{dispatch_follow_up}
use migration_orchestrator_k.Mgn.Results.{
  MgnResult, success, failure, aws_metadata, server_payload, value_eq, guarded, advance,
  get_lifecycle_state,
}
use migration_orchestrator_k.Mgn.Onboarding.{launch_configuration}

-- The inner loop: the first participant with the id, or what was found before.
unfoldable pub launched_in : Value → List Participant → Option String → Option String
unfolding value_eq
launched_in aws_id [] found = found
launched_in aws_id (p ∷ rest) found =
    if value_eq p.source_server_id aws_id
    then p.launched_instance
    else launched_in aws_id rest found

-- The loop over the jobs; its `break` leaves the inner loop only, so the last job counts.
unfoldable pub launched_instance_of : Value → List MgnJob → Option String → Option String
unfolding launched_in
launched_instance_of aws_id [] found = found
launched_instance_of aws_id (job ∷ rest) found =
    launched_instance_of aws_id rest (launched_in aws_id job.participating_servers found)

module _ {S : Type 0} (aws : Services S) where
  unfoldable pub handle_configure_cutover_launch_template : JsonObject → Exec (World S) MgnResult
  unfolding call
  handle_configure_cutover_launch_template payload = do
    server_id ← lift (get_item payload "server_id")
    aws_id ← lift (get_item payload "aws_source_server_id")
    guarded (do
      call aws
          (Services.update_launch_configuration (launch_configuration aws_id "CUTOVER" payload))
      pure (success (some "AWAITING_CUTOVER_LAUNCH_APPROVAL") (some (aws_metadata aws_id))))

  -- What follows the pre-flight check of _handle_start_cutover.
  unfoldable pub begin_cutover : Value → Value → Exec (World S) MgnResult
  unfolding call dispatch_follow_up
  begin_cutover server_id aws_id = do
    job_id ← call aws (Services.start_cutover aws_id)
    advance server_id "CUTOVER_SYNC_IN_PROGRESS" "start_cutover" (aws_metadata aws_id)
    dispatch_follow_up aws poll_cutover_sync_status (
        ("server_id", server_id)
        ∷ ("aws_source_server_id", aws_id)
        ∷ ("mgn_job_id", of_option job_id)
        ∷ [])
    pure (success none (some (("mgn_job_id", of_option job_id) ∷ [])))

  unfoldable pub handle_start_cutover : JsonObject → Exec (World S) MgnResult
  unfolding get_lifecycle_state begin_cutover
  handle_start_cutover payload = do
    server_id ← lift (get_item payload "server_id")
    aws_id ← lift (get_item payload "aws_source_server_id")
    guarded (do
      lifecycle_state ← get_lifecycle_state aws aws_id
      if lifecycle_state == "READY_FOR_CUTOVER"
          then begin_cutover server_id aws_id
          else pure failure)

  -- `describe_jobs(…) if instance_id else {}`
  abbrev pub jobs_of : Value → Exec (World S) (List MgnJob)
  jobs_of instance_id =
      if truthy instance_id then read aws (aws.describe_jobs instance_id) else pure []

  -- What follows the describe call of _handle_launch_cutover_instance.
  abbrev pub confirm_cutover : Value → Value → List SourceServer → Exec (World S) MgnResult
  confirm_cutover server_id aws_id [] = pure failure
  confirm_cutover server_id aws_id (item ∷ rest) = do
    jobs ← jobs_of (of_option item.last_cutover_job)
    let instance_id = of_option (launched_instance_of aws_id jobs none)
    advance server_id "CUTOVER_INSTANCE_LAUNCHING" "launch_cutover_instance"
        (("aws_source_server_id", aws_id) ∷ ("cutover_instance_id", instance_id) ∷ [])
    dispatch_follow_up aws poll_cutover_instance_status (server_payload server_id aws_id)
    pure (success none (some (("cutover_instance_id", instance_id) ∷ [])))

  unfoldable pub handle_launch_cutover_instance : JsonObject → Exec (World S) MgnResult
  unfolding read dispatch_follow_up launched_instance_of
  handle_launch_cutover_instance payload = do
    server_id ← lift (get_item payload "server_id")
    aws_id ← lift (get_item payload "aws_source_server_id")
    guarded (do
      items ← read aws (aws.describe_source_servers aws_id)
      confirm_cutover server_id aws_id items)

  unfoldable pub handle_finalize_cutover : JsonObject → Exec (World S) MgnResult
  unfolding call dispatch_follow_up
  handle_finalize_cutover payload = do
    server_id ← lift (get_item payload "server_id")
    aws_id ← lift (get_item payload "aws_source_server_id")
    guarded (do
      call aws (Services.finalize_cutover aws_id)
      advance server_id "DISCONNECTING" "finalize_cutover" (aws_metadata aws_id)
      dispatch_follow_up aws disconnect_source_server (server_payload server_id aws_id)
      pure (success none none))

  unfoldable pub handle_disconnect_source_server : JsonObject → Exec (World S) MgnResult
  unfolding call dispatch_follow_up
  handle_disconnect_source_server payload = do
    server_id ← lift (get_item payload "server_id")
    aws_id ← lift (get_item payload "aws_source_server_id")
    guarded (do
      call aws (Services.disconnect_from_service aws_id)
      dispatch_follow_up aws poll_disconnect_status (server_payload server_id aws_id)
      pure (success none none))

  unfoldable pub handle_archive_source_server : JsonObject → Exec (World S) MgnResult
  unfolding call
  handle_archive_source_server payload = do
    server_id ← lift (get_item payload "server_id")
    aws_id ← lift (get_item payload "aws_source_server_id")
    guarded (do
      call aws (Services.mark_as_archived aws_id)
      pure (success (some "AWAITING_CLEANUP_APPROVAL") (some (aws_metadata aws_id))))

  unfoldable pub handle_delete_replication_components : JsonObject → Exec (World S) MgnResult
  unfolding call
  handle_delete_replication_components payload = do
    server_id ← lift (get_item payload "server_id")
    aws_id ← lift (get_item payload "aws_source_server_id")
    guarded (do call aws (Services.delete_source_server aws_id); pure (success none none))
