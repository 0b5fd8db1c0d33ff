-- ===== src/System/Mgn.antt =====
-- Whatever the changes of the tables keep, a message to the MGN worker keeps.
use migration_orchestrator_k.Prelude.{String, Option, none, some, List, [], ◌∷◌}
use migration_orchestrator_k.Exec.{Exec}
use migration_orchestrator_k.Exec.Keeps.{Keeps, keeps_rules}
use migration_orchestrator_k.Exec.Yields.{Yields, Keeps-after, yields_rules}
use migration_orchestrator_k.Jobs
use migration_orchestrator_k.Jobs.{JobType, JsonObject, Value, Message}
use migration_orchestrator_k.Db.{Db}
use migration_orchestrator_k.StateManager.Unattended.{Unattended, IsFree, free_states}
use migration_orchestrator_k.Services.{Services, SourceServer}
use migration_orchestrator_k.World.{World}
use migration_orchestrator_k.Mgn.Results.{
  MgnResult, success, failure, first_lifecycle, get_lifecycle_state,
}
use migration_orchestrator_k.Mgn.Onboarding
use migration_orchestrator_k.Mgn.Cutover
use migration_orchestrator_k.Mgn.Loop
use migration_orchestrator_k.System.Changes.{
  Holds, get_server_state-Keeps, call-Keeps, read-Keeps, follow_up-Keeps, advance-Keeps,
  set_aws-Keeps,
}

module _ {S : Type 0} (aws : Services S) (P : Db → Type 0)
    (closed : (db db' : Db) → Unattended db db' → P db → P db') where
  abbrev Kept : {A : Type 0} → Exec (World S) A → Type 0
  Kept m = Keeps (Holds P) m

  -- What a handler returns asks for no move behind a gate.
  abbrev IsFreeResult : MgnResult → Type 0
  IsFreeResult failure = Unit
  IsFreeResult (success none metadata) = Unit
  IsFreeResult (success (some next) metadata) = IsFree next

  abbrev Gives : Exec (World S) MgnResult → Type 0
  Gives m = Yields (Holds P) IsFreeResult m

  first_lifecycle-Keeps : (items : List SourceServer) → Kept (first_lifecycle items)
  first_lifecycle-Keeps [] = search keeps_rules
  first_lifecycle-Keeps (item ∷ rest) = search keeps_rules

  lifecycle-Keeps : (aws_id : Value) → Kept (get_lifecycle_state aws aws_id)
  unfolding get_lifecycle_state
  lifecycle-Keeps aws_id = search (keeps_rules, read-Keeps aws P, first_lifecycle-Keeps)

  confirm_agent-Yields :
      (server_id aws_id : Value) (items : List SourceServer)
      → Gives (Onboarding.confirm_agent aws server_id aws_id items)
  confirm_agent-Yields server_id aws_id [] = search (yields_rules, keeps_rules, tt, free_states)
  confirm_agent-Yields server_id aws_id (item ∷ rest) =
      search (yields_rules, keeps_rules, tt, free_states, set_aws-Keeps P closed) depth 12

  launch_test-Yields :
      (server_id aws_id : Value) → Gives (Onboarding.launch_test aws server_id aws_id)
  unfolding Onboarding.launch_test
  launch_test-Yields server_id aws_id =
      search (yields_rules, keeps_rules, free_states, call-Keeps aws P, follow_up-Keeps aws P) depth
        12

  begin_cutover-Yields :
      (server_id aws_id : Value) → Gives (Cutover.begin_cutover aws server_id aws_id)
  unfolding Cutover.begin_cutover
  begin_cutover-Yields server_id aws_id =
      search
        (
          yields_rules,
          keeps_rules,
          free_states,
          call-Keeps aws P,
          advance-Keeps P closed,
          follow_up-Keeps aws P,
        )
        depth 12

  confirm_cutover-Yields :
      (server_id aws_id : Value) (items : List SourceServer)
      → Gives (Cutover.confirm_cutover aws server_id aws_id items)
  confirm_cutover-Yields server_id aws_id [] = search (yields_rules, keeps_rules, tt, free_states)
  confirm_cutover-Yields server_id aws_id (item ∷ rest) =
      search
        (
          yields_rules,
          keeps_rules,
          free_states,
          read-Keeps aws P,
          advance-Keeps P closed,
          follow_up-Keeps aws P,
        )
        depth 12

  add_server-Yields : (payload : JsonObject) → Gives (Onboarding.handle_add_server aws payload)
  unfolding Onboarding.handle_add_server
  add_server-Yields payload =
      search (yields_rules, keeps_rules, tt, free_states, read-Keeps aws P, confirm_agent-Yields)
        depth 20

  configure_replication-Yields :
      (payload : JsonObject) → Gives (Onboarding.handle_configure_replication aws payload)
  unfolding Onboarding.handle_configure_replication
  configure_replication-Yields payload =
      search (yields_rules, keeps_rules, tt, free_states, call-Keeps aws P, advance-Keeps P closed)
        depth 20

  start_replication-Yields :
      (payload : JsonObject) → Gives (Onboarding.handle_start_replication aws payload)
  unfolding Onboarding.handle_start_replication
  start_replication-Yields payload =
      search (yields_rules, keeps_rules, tt, free_states, call-Keeps aws P, follow_up-Keeps aws P)
        depth 20

  configure_test_launch_template-Yields :
      (payload : JsonObject) → Gives (Onboarding.handle_configure_test_launch_template aws payload)
  unfolding Onboarding.handle_configure_test_launch_template
  configure_test_launch_template-Yields payload =
      search (yields_rules, keeps_rules, tt, free_states, call-Keeps aws P, advance-Keeps P closed)
        depth 20

  launch_test_instance-Yields :
      (payload : JsonObject) → Gives (Onboarding.handle_launch_test_instance aws payload)
  unfolding Onboarding.handle_launch_test_instance
  launch_test_instance-Yields payload =
      search (yields_rules, keeps_rules, tt, free_states, lifecycle-Keeps, launch_test-Yields) depth
        20

  finalize_test-Yields :
      (payload : JsonObject) → Gives (Onboarding.handle_finalize_test aws payload)
  unfolding Onboarding.handle_finalize_test
  finalize_test-Yields payload =
      search (yields_rules, keeps_rules, tt, free_states, call-Keeps aws P) depth 20

  configure_cutover_launch_template-Yields :
      (payload : JsonObject) → Gives (Cutover.handle_configure_cutover_launch_template aws payload)
  unfolding Cutover.handle_configure_cutover_launch_template
  configure_cutover_launch_template-Yields payload =
      search (yields_rules, keeps_rules, tt, free_states, call-Keeps aws P) depth 20

  start_cutover-Yields : (payload : JsonObject) → Gives (Cutover.handle_start_cutover aws payload)
  unfolding Cutover.handle_start_cutover
  start_cutover-Yields payload =
      search (yields_rules, keeps_rules, tt, free_states, lifecycle-Keeps, begin_cutover-Yields)
        depth 20

  launch_cutover_instance-Yields :
      (payload : JsonObject) → Gives (Cutover.handle_launch_cutover_instance aws payload)
  unfolding Cutover.handle_launch_cutover_instance
  launch_cutover_instance-Yields payload =
      search (yields_rules, keeps_rules, tt, free_states, read-Keeps aws P, confirm_cutover-Yields)
        depth 20

  finalize_cutover-Yields :
      (payload : JsonObject) → Gives (Cutover.handle_finalize_cutover aws payload)
  unfolding Cutover.handle_finalize_cutover
  finalize_cutover-Yields payload =
      search
        (
          yields_rules,
          keeps_rules,
          tt,
          free_states,
          call-Keeps aws P,
          advance-Keeps P closed,
          follow_up-Keeps aws P,
        )
        depth 20

  disconnect_source_server-Yields :
      (payload : JsonObject) → Gives (Cutover.handle_disconnect_source_server aws payload)
  unfolding Cutover.handle_disconnect_source_server
  disconnect_source_server-Yields payload =
      search (yields_rules, keeps_rules, tt, free_states, call-Keeps aws P, follow_up-Keeps aws P)
        depth 20

  archive_source_server-Yields :
      (payload : JsonObject) → Gives (Cutover.handle_archive_source_server aws payload)
  unfolding Cutover.handle_archive_source_server
  archive_source_server-Yields payload =
      search (yields_rules, keeps_rules, tt, free_states, call-Keeps aws P) depth 20

  delete_replication_components-Yields :
      (payload : JsonObject) → Gives (Cutover.handle_delete_replication_components aws payload)
  unfolding Cutover.handle_delete_replication_components
  delete_replication_components-Yields payload =
      search (yields_rules, keeps_rules, tt, free_states, call-Keeps aws P) depth 20

  act-Keeps :
      (id job_id : String) (j : JobType) (result : MgnResult)
      → IsFreeResult result
      → Kept (Loop.act aws id job_id j result)
  act-Keeps id job_id j failure free = search keeps_rules
  act-Keeps id job_id j (success none metadata) free = search keeps_rules
  act-Keeps id job_id j (success (some next) metadata) free =
      search (keeps_rules, advance-Keeps P closed)

  handled :
      (id job_id : String) (j : JobType) (payload : JsonObject)
      (handle : JsonObject → Exec (World S) MgnResult)
      → Gives (handle payload)
      → Kept (Loop.run_handler aws id job_id j payload (some handle))
  handled id job_id j payload handle y =
      Keeps-after (handle payload) (Loop.act aws id job_id j) y (act-Keeps id job_id j)

  run_handler-Keeps :
      (id job_id : String) (j : JobType) (payload : JsonObject)
      → Kept (Loop.run_handler aws id job_id j payload (Loop.handler aws j))
  unfolding Loop.handler
  run_handler-Keeps id job_id Jobs.add_server payload =
      handled id job_id Jobs.add_server payload (Onboarding.handle_add_server aws)
        (add_server-Yields payload)
  run_handler-Keeps id job_id Jobs.configure_replication_settings payload =
      handled id job_id Jobs.configure_replication_settings payload
        (Onboarding.handle_configure_replication aws) (configure_replication-Yields payload)
  run_handler-Keeps id job_id Jobs.start_replication payload =
      handled id job_id Jobs.start_replication payload (Onboarding.handle_start_replication aws)
        (start_replication-Yields payload)
  run_handler-Keeps id job_id Jobs.configure_test_launch_template payload =
      handled id job_id Jobs.configure_test_launch_template payload
        (Onboarding.handle_configure_test_launch_template aws)
        (configure_test_launch_template-Yields payload)
  run_handler-Keeps id job_id Jobs.launch_test_instance payload =
      handled id job_id Jobs.launch_test_instance payload
        (Onboarding.handle_launch_test_instance aws) (launch_test_instance-Yields payload)
  run_handler-Keeps id job_id Jobs.finalize_test payload =
      handled id job_id Jobs.finalize_test payload (Onboarding.handle_finalize_test aws)
        (finalize_test-Yields payload)
  run_handler-Keeps id job_id Jobs.configure_cutover_launch_template payload =
      handled id job_id Jobs.configure_cutover_launch_template payload
        (Cutover.handle_configure_cutover_launch_template aws)
        (configure_cutover_launch_template-Yields payload)
  run_handler-Keeps id job_id Jobs.start_cutover payload =
      handled id job_id Jobs.start_cutover payload (Cutover.handle_start_cutover aws)
        (start_cutover-Yields payload)
  run_handler-Keeps id job_id Jobs.launch_cutover_instance payload =
      handled id job_id Jobs.launch_cutover_instance payload
        (Cutover.handle_launch_cutover_instance aws) (launch_cutover_instance-Yields payload)
  run_handler-Keeps id job_id Jobs.finalize_cutover payload =
      handled id job_id Jobs.finalize_cutover payload (Cutover.handle_finalize_cutover aws)
        (finalize_cutover-Yields payload)
  run_handler-Keeps id job_id Jobs.disconnect_source_server payload =
      handled id job_id Jobs.disconnect_source_server payload
        (Cutover.handle_disconnect_source_server aws) (disconnect_source_server-Yields payload)
  run_handler-Keeps id job_id Jobs.archive_source_server payload =
      handled id job_id Jobs.archive_source_server payload
        (Cutover.handle_archive_source_server aws) (archive_source_server-Yields payload)
  run_handler-Keeps id job_id Jobs.delete_replication_components payload =
      handled id job_id Jobs.delete_replication_components payload
        (Cutover.handle_delete_replication_components aws)
        (delete_replication_components-Yields payload)
  run_handler-Keeps id job_id _ payload = search keeps_rules

  is_current-Keeps :
      (id : String) (expected : Option String) → Kept (Loop.is_current aws id expected)
  is_current-Keeps id none = search keeps_rules
  is_current-Keeps id (some state) = search (keeps_rules, get_server_state-Keeps P)

  execute-Keeps :
      (id job_id : String) (j : JobType) (payload : JsonObject)
      → Kept (Loop.execute aws id job_id j payload)
  unfolding Loop.execute
  execute-Keeps id job_id j payload = search (keeps_rules, is_current-Keeps, run_handler-Keeps)

  process-Keeps : (m : Message) → Kept (Loop.process aws m)
  unfolding Loop.process
  process-Keeps m = search (keeps_rules, execute-Keeps) depth 20

  -- Any message, and any answers of the outside world.
  pub on_message-Keeps : (m : Message) → Kept (Loop.on_message aws m)
  unfolding Loop.on_message
  on_message-Keeps m = search (keeps_rules, process-Keeps)
