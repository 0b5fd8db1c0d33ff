-- ===== src/Poller/Handlers.antt =====
-- PollResult and the five poll handlers. The texts of errors only reach the log, and are left out.
use migration_orchestrator_k.Prelude.{
  String, none, some, List, [], ◌∷◌, ◌&&◌, ◌||◌, get_or, ◌==◌, if◌then◌else◌,
}
use migration_orchestrator_k.Exec.{Exec, pure, lift, try_except, ◌>>=◌, ◌>>◌}
use migration_orchestrator_k.Jobs
use migration_orchestrator_k.Jobs.{
  JobType, JsonObject, Value, null, of_option, job_value, get_item, get_default, truthy, as_text,
}
use migration_orchestrator_k.Services.{Services, SourceServer, MgnJob, InstanceStatus}
use migration_orchestrator_k.World.{World, read}
use migration_orchestrator_k.Dispatcher.{dispatch_poll}
use migration_orchestrator_k.Client
use migration_orchestrator_k.Mgn.Cutover.{launched_in}

pub data PollResult : Type 0 where
  complete : String → PollResult
  in_progress failed dispatched : PollResult

-- `launchedInstance.ec2InstanceID` of the first item; without an item, what was found before.
abbrev pub first_instance : Value → List SourceServer → Value
first_instance found [] = found
first_instance found (item ∷ rest) = of_option item.launched_instance

-- What `describe_instance_status` says of the instance: phase 2 of both two-phase polls.
abbrev pub reachability : String → List InstanceStatus → PollResult
reachability new_state [] = in_progress
reachability new_state (item ∷ rest) =
    let state : String = get_or "" item.instance_state in
    if state == "terminated" || state == "stopped"
    then failed
    else if get_or "" item.system_status == "ok" && get_or "" item.instance_status == "ok"
    then complete new_state
    else in_progress

-- The payload of a phase 2 poll.
abbrev pub phase_two_payload : Value → Value → Value → JsonObject
phase_two_payload server_id aws_id ec2_id =
    ("server_id", server_id) ∷ ("aws_source_server_id", aws_id) ∷ ("ec2_instance_id", ec2_id) ∷ []

module _ {S : Type 0} (aws : Services S) where
  abbrev pub guarded : Exec (World S) PollResult → Exec (World S) PollResult
  guarded m = try_except m (λ e. pure failed)

  abbrev pub replication_result : List SourceServer → PollResult
  replication_result [] = failed
  replication_result (item ∷ rest) =
      let state : String = get_or "" item.lifecycle_state in
      if state == "READY_FOR_TEST"
      then complete "READY_FOR_TESTING"
      else if state == "DISCONNECTED"
      then failed
      else in_progress

  unfoldable pub poll_replication_status : JsonObject → Exec (World S) PollResult
  unfolding read
  poll_replication_status payload = do
    server_id ← lift (get_item payload "server_id")
    aws_id ← lift (get_item payload "aws_source_server_id")
    guarded
        (do items ← read aws (aws.describe_source_servers aws_id); pure (replication_result items))

  -- Phase 2 of both two-phase polls.
  unfoldable pub check_reachability : String → Value → Exec (World S) PollResult
  unfolding read
  check_reachability new_state ec2_id = guarded (do
    statuses ← read aws (aws.describe_instance_status ec2_id)
    pure (reachability new_state statuses))

  -- The end of phase 1 of both: mark the instance as running, and dispatch phase 2.
  unfoldable pub enter_phase_two :
      String → JobType → Value → Value → Value → Exec (World S) PollResult
  unfolding dispatch_poll
  enter_phase_two new_state job_type server_id aws_id ec2_id = do
    id ← lift (as_text server_id)
    Client.advance_state id new_state none (some (job_value job_type))
        (some (("ec2_instance_id", ec2_id) ∷ []))
    dispatch_poll aws job_type (phase_two_payload server_id aws_id ec2_id)
    pure dispatched

  -- The fallback of phase 1, with its own `try … except: pass`.
  abbrev pub instance_or_fallback : Value → Value → Exec (World S) Value
  instance_or_fallback aws_id ec2_id =
      if truthy ec2_id
      then pure ec2_id
      else if truthy aws_id
      then try_except
          (do
            items ← read aws (aws.describe_source_servers aws_id)
            pure (first_instance ec2_id items))
          (λ e. pure ec2_id)
      else pure ec2_id

  abbrev pub after_test_launch : Value → Value → Value → Exec (World S) PollResult
  after_test_launch server_id aws_id found = do
    ec2_id ← instance_or_fallback aws_id found
    if truthy ec2_id
        then enter_phase_two "TEST_INSTANCE_RUNNING" Jobs.poll_test_instance_status server_id aws_id
            ec2_id
        else pure failed

  -- What follows describe_jobs in phase 1 of the test instance poll.
  abbrev pub test_job_result : Value → Value → List MgnJob → Exec (World S) PollResult
  test_job_result server_id aws_id [] = pure failed
  test_job_result server_id aws_id (job ∷ rest) =
      let status : String = get_or "" job.status in
      if status == "COMPLETED"
      then after_test_launch server_id aws_id
          (of_option (launched_in aws_id job.participating_servers none))
      else if status == "FAILED" || status == "PARTIALLY_COMPLETED"
      then pure failed
      else pure in_progress

  unfoldable pub poll_test_instance_status : JsonObject → Exec (World S) PollResult
  unfolding read check_reachability launched_in enter_phase_two
  poll_test_instance_status payload = do
    server_id ← lift (get_item payload "server_id")
    let ec2_id = get_default payload "ec2_instance_id" null
    let aws_id = get_default payload "aws_source_server_id" null
    let mgn_job_id = get_default payload "mgn_job_id" null
    if truthy ec2_id
        then check_reachability "AWAITING_TEST_VALIDATION" ec2_id
        else if truthy mgn_job_id
        then guarded (do
          jobs ← read aws (aws.describe_jobs mgn_job_id)
          test_job_result server_id aws_id jobs)
        else pure failed

  abbrev pub sync_result : List MgnJob → PollResult
  sync_result [] = failed
  sync_result (job ∷ rest) =
      let status : String = get_or "" job.status in
      if status == "COMPLETED"
      then complete "READY_FOR_CUTOVER_LAUNCH"
      else if status == "FAILED" || status == "PARTIALLY_COMPLETED"
      then failed
      else in_progress

  unfoldable pub poll_cutover_sync_status : JsonObject → Exec (World S) PollResult
  unfolding read
  poll_cutover_sync_status payload = do
    server_id ← lift (get_item payload "server_id")
    let mgn_job_id = get_default payload "mgn_job_id" null
    if truthy mgn_job_id
        then guarded (do jobs ← read aws (aws.describe_jobs mgn_job_id); pure (sync_result jobs))
        else pure failed

  -- What follows describe_source_servers in phase 1 of the cutover instance poll.
  abbrev pub cutover_result : Value → Value → List SourceServer → Exec (World S) PollResult
  cutover_result server_id aws_id [] = pure failed
  cutover_result server_id aws_id (item ∷ rest) =
      let state : String = get_or "" item.lifecycle_state in
      let ec2_id : Value = of_option item.launched_instance in
      if state == "CUTOVER"
      then if truthy ec2_id
        then enter_phase_two "CUTOVER_INSTANCE_RUNNING" Jobs.poll_cutover_instance_status server_id
            aws_id ec2_id
        else pure failed
      else if state == "DISCONNECTED"
      then pure failed
      else pure in_progress

  unfoldable pub poll_cutover_instance_status : JsonObject → Exec (World S) PollResult
  unfolding read check_reachability enter_phase_two
  poll_cutover_instance_status payload = do
    server_id ← lift (get_item payload "server_id")
    aws_id ← lift (get_item payload "aws_source_server_id")
    let ec2_id = get_default payload "ec2_instance_id" null
    if truthy ec2_id
        then check_reachability "AWAITING_CUTOVER_VALIDATION" ec2_id
        else guarded (do
          items ← read aws (aws.describe_source_servers aws_id)
          cutover_result server_id aws_id items)

  unfoldable pub confirm_disconnected : Value → Exec (World S) PollResult
  confirm_disconnected server_id = do
    id ← lift (as_text server_id)
    Client.advance_state id "DISCONNECTED" none (some "poll_disconnect_status") none
    pure (complete "AWAITING_ARCHIVE_APPROVAL")

  -- A server that MGN no longer lists counts as disconnected.
  abbrev pub disconnect_result : Value → List SourceServer → Exec (World S) PollResult
  disconnect_result server_id [] = confirm_disconnected server_id
  disconnect_result server_id (item ∷ rest) =
      if get_or "" item.lifecycle_state == "DISCONNECTED"
      then confirm_disconnected server_id
      else pure in_progress

  unfoldable pub poll_disconnect_status : JsonObject → Exec (World S) PollResult
  unfolding read confirm_disconnected
  poll_disconnect_status payload = do
    server_id ← lift (get_item payload "server_id")
    aws_id ← lift (get_item payload "aws_source_server_id")
    guarded (do
      items ← read aws (aws.describe_source_servers aws_id)
      disconnect_result server_id items)
