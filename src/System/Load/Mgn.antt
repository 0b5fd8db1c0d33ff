-- ===== src/System/Load/Mgn.antt =====
-- What a turn of the MGN worker adds to the load: the messages that its handlers publish.
use migration_orchestrator_k.Prelude.{ℕ, String, Option, none, some, List, [], ◌∷◌}
use migration_orchestrator_k.Exec.{Exec}
use migration_orchestrator_k.Exec.Adds.{
  Adds, Adds-read, Adds-then, Adds-last, Adds-lift, adds_rules,
}
use migration_orchestrator_k.Jobs
use migration_orchestrator_k.Jobs.{
  JobType, JsonObject, Value, Message, job_value, parse_job_type, job_type_of, required,
  get_default, queue_routing,
}
use migration_orchestrator_k.Services.{Services, SourceServer}
use migration_orchestrator_k.World.{World}
use migration_orchestrator_k.Mgn.Results.{
  MgnResult, success, failure, get_lifecycle_state, first_lifecycle,
}
use migration_orchestrator_k.Mgn.Onboarding
use migration_orchestrator_k.Mgn.Cutover
use migration_orchestrator_k.Mgn.Loop
use migration_orchestrator_k.System.Load.{
  load, message_cost, mgn_cost, call-Adds, read-Adds, advance-Adds, set_aws-Adds,
  get_server_state-Adds,
}
use migration_orchestrator_k.System.Load.FollowUps.{
  poll_replication-Costs, poll_sync-Costs, poll_disconnect-Costs, poll_cutover-Costs,
  poll_test-Costs, disconnect-Costs,
}

ruleset quiet_rules = (adds_rules, call-Adds, read-Adds, advance-Adds, set_aws-Adds)

module _ {S : Type 0} (aws : Services S) where
  abbrev Costs : {A : Type 0} → ℕ → Exec (World S) A → Type 0
  Costs n m = Adds load n m

  first_lifecycle-Costs : {n : ℕ} (items : List SourceServer) → Costs n (first_lifecycle items)
  first_lifecycle-Costs [] = search adds_rules
  first_lifecycle-Costs (item ∷ rest) = search adds_rules

  lifecycle-Costs : {n : ℕ} (aws_id : Value) → Costs n (get_lifecycle_state aws aws_id)
  unfolding get_lifecycle_state
  lifecycle-Costs aws_id = search (adds_rules, read-Adds, first_lifecycle-Costs)

  confirm_agent-Costs :
      (server_id aws_id : Value) (items : List SourceServer)
      → Costs 0 (Onboarding.confirm_agent aws server_id aws_id items)
  confirm_agent-Costs server_id aws_id [] = search adds_rules
  confirm_agent-Costs server_id aws_id (item ∷ rest) = search quiet_rules depth 12

  launch_test-Costs :
      (server_id aws_id : Value) → Costs 1862 (Onboarding.launch_test aws server_id aws_id)
  unfolding Onboarding.launch_test
  launch_test-Costs server_id aws_id = search (quiet_rules, poll_test-Costs) depth 12

  begin_cutover-Costs :
      (server_id aws_id : Value) → Costs 60 (Cutover.begin_cutover aws server_id aws_id)
  unfolding Cutover.begin_cutover
  begin_cutover-Costs server_id aws_id = search (quiet_rules, poll_sync-Costs) depth 12

  confirm_cutover-Costs :
      (server_id aws_id : Value) (items : List SourceServer)
      → Costs 1862 (Cutover.confirm_cutover aws server_id aws_id items)
  confirm_cutover-Costs server_id aws_id [] = search adds_rules
  confirm_cutover-Costs server_id aws_id (item ∷ rest) =
      search (quiet_rules, poll_cutover-Costs) depth 14

  add_server-Costs : (payload : JsonObject) → Costs 0 (Onboarding.handle_add_server aws payload)
  unfolding Onboarding.handle_add_server
  add_server-Costs payload = search (quiet_rules, confirm_agent-Costs) depth 20

  configure_replication-Costs :
      (payload : JsonObject) → Costs 0 (Onboarding.handle_configure_replication aws payload)
  unfolding Onboarding.handle_configure_replication
  configure_replication-Costs payload = search quiet_rules depth 20

  start_replication-Costs :
      (payload : JsonObject) → Costs 60 (Onboarding.handle_start_replication aws payload)
  unfolding Onboarding.handle_start_replication
  start_replication-Costs payload = search (quiet_rules, poll_replication-Costs) depth 20

  configure_test_launch_template-Costs :
      (payload : JsonObject)
      → Costs 0 (Onboarding.handle_configure_test_launch_template aws payload)
  unfolding Onboarding.handle_configure_test_launch_template
  configure_test_launch_template-Costs payload = search quiet_rules depth 20

  launch_test_instance-Costs :
      (payload : JsonObject) → Costs 1862 (Onboarding.handle_launch_test_instance aws payload)
  unfolding Onboarding.handle_launch_test_instance
  launch_test_instance-Costs payload =
      search (quiet_rules, lifecycle-Costs, launch_test-Costs) depth 20

  finalize_test-Costs :
      (payload : JsonObject) → Costs 0 (Onboarding.handle_finalize_test aws payload)
  unfolding Onboarding.handle_finalize_test
  finalize_test-Costs payload = search quiet_rules depth 20

  configure_cutover_launch_template-Costs :
      (payload : JsonObject)
      → Costs 0 (Cutover.handle_configure_cutover_launch_template aws payload)
  unfolding Cutover.handle_configure_cutover_launch_template
  configure_cutover_launch_template-Costs payload = search quiet_rules depth 20

  start_cutover-Costs : (payload : JsonObject) → Costs 60 (Cutover.handle_start_cutover aws payload)
  unfolding Cutover.handle_start_cutover
  start_cutover-Costs payload = search (quiet_rules, lifecycle-Costs, begin_cutover-Costs) depth 20

  launch_cutover_instance-Costs :
      (payload : JsonObject) → Costs 1862 (Cutover.handle_launch_cutover_instance aws payload)
  unfolding Cutover.handle_launch_cutover_instance
  launch_cutover_instance-Costs payload = search (quiet_rules, confirm_cutover-Costs) depth 20

  finalize_cutover-Costs :
      (payload : JsonObject) → Costs 62 (Cutover.handle_finalize_cutover aws payload)
  unfolding Cutover.handle_finalize_cutover
  finalize_cutover-Costs payload = search (quiet_rules, disconnect-Costs) depth 20

  disconnect_source_server-Costs :
      (payload : JsonObject) → Costs 60 (Cutover.handle_disconnect_source_server aws payload)
  unfolding Cutover.handle_disconnect_source_server
  disconnect_source_server-Costs payload = search (quiet_rules, poll_disconnect-Costs) depth 20

  archive_source_server-Costs :
      (payload : JsonObject) → Costs 0 (Cutover.handle_archive_source_server aws payload)
  unfolding Cutover.handle_archive_source_server
  archive_source_server-Costs payload = search quiet_rules depth 20

  delete_replication_components-Costs :
      (payload : JsonObject) → Costs 0 (Cutover.handle_delete_replication_components aws payload)
  unfolding Cutover.handle_delete_replication_components
  delete_replication_components-Costs payload = search quiet_rules depth 20

  act-Costs :
      (id job_id : String) (j : JobType) (result : MgnResult)
      → Costs 0 (Loop.act aws id job_id j result)
  act-Costs id job_id j failure = search quiet_rules
  act-Costs id job_id j (success none metadata) = search quiet_rules
  act-Costs id job_id j (success (some next) metadata) = search quiet_rules

  handled :
      {n : ℕ} (id job_id : String) (j : JobType) (payload : JsonObject)
      (handle : JsonObject → Exec (World S) MgnResult)
      → Costs n (handle payload)
      → Costs n (Loop.run_handler aws id job_id j payload (some handle))
  handled id job_id j payload handle c =
      Adds-last (handle payload) (Loop.act aws id job_id j) c (act-Costs id job_id j)

  run_handler-Costs :
      (id job_id : String) (j : JobType) (payload : JsonObject) (attempt : ℕ)
      → Costs
          (mgn_cost j payload attempt)
          (Loop.run_handler aws id job_id j payload (Loop.handler aws j))
  unfolding Loop.handler
  run_handler-Costs id job_id Jobs.add_server payload attempt =
      handled id job_id Jobs.add_server payload (Onboarding.handle_add_server aws)
        (add_server-Costs payload)
  run_handler-Costs id job_id Jobs.configure_replication_settings payload attempt =
      handled id job_id Jobs.configure_replication_settings payload
        (Onboarding.handle_configure_replication aws) (configure_replication-Costs payload)
  run_handler-Costs id job_id Jobs.start_replication payload attempt =
      handled id job_id Jobs.start_replication payload (Onboarding.handle_start_replication aws)
        (start_replication-Costs payload)
  run_handler-Costs id job_id Jobs.configure_test_launch_template payload attempt =
      handled id job_id Jobs.configure_test_launch_template payload
        (Onboarding.handle_configure_test_launch_template aws)
        (configure_test_launch_template-Costs payload)
  run_handler-Costs id job_id Jobs.launch_test_instance payload attempt =
      handled id job_id Jobs.launch_test_instance payload
        (Onboarding.handle_launch_test_instance aws) (launch_test_instance-Costs payload)
  run_handler-Costs id job_id Jobs.finalize_test payload attempt =
      handled id job_id Jobs.finalize_test payload (Onboarding.handle_finalize_test aws)
        (finalize_test-Costs payload)
  run_handler-Costs id job_id Jobs.configure_cutover_launch_template payload attempt =
      handled id job_id Jobs.configure_cutover_launch_template payload
        (Cutover.handle_configure_cutover_launch_template aws)
        (configure_cutover_launch_template-Costs payload)
  run_handler-Costs id job_id Jobs.start_cutover payload attempt =
      handled id job_id Jobs.start_cutover payload (Cutover.handle_start_cutover aws)
        (start_cutover-Costs payload)
  run_handler-Costs id job_id Jobs.launch_cutover_instance payload attempt =
      handled id job_id Jobs.launch_cutover_instance payload
        (Cutover.handle_launch_cutover_instance aws) (launch_cutover_instance-Costs payload)
  run_handler-Costs id job_id Jobs.finalize_cutover payload attempt =
      handled id job_id Jobs.finalize_cutover payload (Cutover.handle_finalize_cutover aws)
        (finalize_cutover-Costs payload)
  run_handler-Costs id job_id Jobs.disconnect_source_server payload attempt =
      handled id job_id Jobs.disconnect_source_server payload
        (Cutover.handle_disconnect_source_server aws) (disconnect_source_server-Costs payload)
  run_handler-Costs id job_id Jobs.archive_source_server payload attempt =
      handled id job_id Jobs.archive_source_server payload
        (Cutover.handle_archive_source_server aws) (archive_source_server-Costs payload)
  run_handler-Costs id job_id Jobs.delete_replication_components payload attempt =
      handled id job_id Jobs.delete_replication_components payload
        (Cutover.handle_delete_replication_components aws)
        (delete_replication_components-Costs payload)
  run_handler-Costs id job_id _ payload attempt = search adds_rules

  is_current-Costs :
      (id : String) (expected : Option String) → Costs 0 (Loop.is_current aws id expected)
  is_current-Costs id none = search adds_rules
  is_current-Costs id (some state) = search (adds_rules, get_server_state-Adds)

  execute-Costs :
      (id job_id : String) (j : JobType) (payload : JsonObject) (attempt : ℕ)
      → Costs (mgn_cost j payload attempt) (Loop.execute aws id job_id j payload)
  unfolding Loop.execute
  execute-Costs id job_id j payload attempt =
      search (adds_rules, is_current-Costs, run_handler-Costs)

  process-Costs : (m : Message) → Costs (message_cost mgn_cost m) (Loop.process aws m)
  unfolding Loop.process message_cost
  process-Costs m = search (Adds-read, Adds-then, Adds-lift, execute-Costs) depth 20

  -- Any message, and any answers of the outside world.
  pub on_message-Costs : (m : Message) → Costs (message_cost mgn_cost m) (Loop.on_message aws m)
  unfolding Loop.on_message
  on_message-Costs m = search (adds_rules, process-Costs)
