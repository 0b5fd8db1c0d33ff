-- ===== src/System/Outage/Mgn.antt =====
-- The MGN worker while AWS is down.
use migration_orchestrator_k.Prelude.{String, ◌≡◌, Option, none, some}
use migration_orchestrator_k.Exec.{Exec}
use migration_orchestrator_k.Exec.Keeps.{Keeps, keeps_rules}
use migration_orchestrator_k.Exec.Yields.{Yields, Keeps-after, yields_rules}
use migration_orchestrator_k.Jobs
use migration_orchestrator_k.Jobs.{JobType, JsonObject, Value, Body, Message}
use migration_orchestrator_k.Services.{Services}
use migration_orchestrator_k.World.{World}
use migration_orchestrator_k.Mgn.Results.{MgnResult, failure}
use migration_orchestrator_k.Mgn.Onboarding
use migration_orchestrator_k.Mgn.Cutover
use migration_orchestrator_k.Mgn.Loop as MgnLoop
use migration_orchestrator_k.System.Outage.{
  IsDown, call_down, sources_down, lifecycle_down, get_state-Keeps,
}

module _ {S : Type 0} (aws : Services S) (down : IsDown aws) (Inv : World S → Type 0)
    (outer : (w : World S) (s : S) → Inv w → Inv (record w { outside = s })) where
  abbrev Kept : {A : Type 0} → Exec (World S) A → Type 0
  Kept m = Keeps Inv m

  abbrev IsFailure : MgnResult → Type 0
  IsFailure r = r ≡ failure

  abbrev Fails : Exec (World S) MgnResult → Type 0
  Fails m = Yields Inv IsFailure m

  add_server-Fails : (payload : JsonObject) → Fails (Onboarding.handle_add_server aws payload)
  unfolding Onboarding.handle_add_server
  add_server-Fails payload =
      search (sources_down aws down Inv outer, yields_rules, keeps_rules) depth 20

  configure_replication-Fails :
      (payload : JsonObject) → Fails (Onboarding.handle_configure_replication aws payload)
  unfolding Onboarding.handle_configure_replication
  configure_replication-Fails payload =
      search (call_down aws down Inv outer, yields_rules, keeps_rules) depth 20

  start_replication-Fails :
      (payload : JsonObject) → Fails (Onboarding.handle_start_replication aws payload)
  unfolding Onboarding.handle_start_replication
  start_replication-Fails payload =
      search (call_down aws down Inv outer, yields_rules, keeps_rules) depth 20

  configure_test_launch_template-Fails :
      (payload : JsonObject) → Fails (Onboarding.handle_configure_test_launch_template aws payload)
  unfolding Onboarding.handle_configure_test_launch_template
  configure_test_launch_template-Fails payload =
      search (call_down aws down Inv outer, yields_rules, keeps_rules) depth 20

  launch_test_instance-Fails :
      (payload : JsonObject) → Fails (Onboarding.handle_launch_test_instance aws payload)
  unfolding Onboarding.handle_launch_test_instance
  launch_test_instance-Fails payload =
      search (lifecycle_down aws down Inv outer, yields_rules, keeps_rules) depth 20

  finalize_test-Fails : (payload : JsonObject) → Fails (Onboarding.handle_finalize_test aws payload)
  unfolding Onboarding.handle_finalize_test
  finalize_test-Fails payload =
      search (call_down aws down Inv outer, yields_rules, keeps_rules) depth 20

  configure_cutover_launch_template-Fails :
      (payload : JsonObject) → Fails (Cutover.handle_configure_cutover_launch_template aws payload)
  unfolding Cutover.handle_configure_cutover_launch_template
  configure_cutover_launch_template-Fails payload =
      search (call_down aws down Inv outer, yields_rules, keeps_rules) depth 20

  start_cutover-Fails : (payload : JsonObject) → Fails (Cutover.handle_start_cutover aws payload)
  unfolding Cutover.handle_start_cutover
  start_cutover-Fails payload =
      search (lifecycle_down aws down Inv outer, yields_rules, keeps_rules) depth 20

  launch_cutover_instance-Fails :
      (payload : JsonObject) → Fails (Cutover.handle_launch_cutover_instance aws payload)
  unfolding Cutover.handle_launch_cutover_instance
  launch_cutover_instance-Fails payload =
      search (sources_down aws down Inv outer, yields_rules, keeps_rules) depth 20

  finalize_cutover-Fails :
      (payload : JsonObject) → Fails (Cutover.handle_finalize_cutover aws payload)
  unfolding Cutover.handle_finalize_cutover
  finalize_cutover-Fails payload =
      search (call_down aws down Inv outer, yields_rules, keeps_rules) depth 20

  disconnect_source_server-Fails :
      (payload : JsonObject) → Fails (Cutover.handle_disconnect_source_server aws payload)
  unfolding Cutover.handle_disconnect_source_server
  disconnect_source_server-Fails payload =
      search (call_down aws down Inv outer, yields_rules, keeps_rules) depth 20

  archive_source_server-Fails :
      (payload : JsonObject) → Fails (Cutover.handle_archive_source_server aws payload)
  unfolding Cutover.handle_archive_source_server
  archive_source_server-Fails payload =
      search (call_down aws down Inv outer, yields_rules, keeps_rules) depth 20

  delete_replication_components-Fails :
      (payload : JsonObject) → Fails (Cutover.handle_delete_replication_components aws payload)
  unfolding Cutover.handle_delete_replication_components
  delete_replication_components-Fails payload =
      search (call_down aws down Inv outer, yields_rules, keeps_rules) depth 20

  handled :
      (id job_id : String) (j : JobType) (payload : JsonObject)
      (handle : JsonObject → Exec (World S) MgnResult)
      → Fails (handle payload)
      → Kept (MgnLoop.run_handler aws id job_id j payload (some handle))
  handled id job_id j payload handle y =
      Keeps-after (handle payload) (MgnLoop.act aws id job_id j) y
        (λ r e. rw e (search keeps_rules))

  run_handler-Keeps :
      (id job_id : String) (j : JobType) (payload : JsonObject)
      → Kept (MgnLoop.run_handler aws id job_id j payload (MgnLoop.handler aws j))
  unfolding MgnLoop.handler
  run_handler-Keeps id job_id Jobs.add_server payload =
      handled id job_id Jobs.add_server payload (Onboarding.handle_add_server aws)
        (add_server-Fails payload)
  run_handler-Keeps id job_id Jobs.configure_replication_settings payload =
      handled id job_id Jobs.configure_replication_settings payload
        (Onboarding.handle_configure_replication aws) (configure_replication-Fails payload)
  run_handler-Keeps id job_id Jobs.start_replication payload =
      handled id job_id Jobs.start_replication payload (Onboarding.handle_start_replication aws)
        (start_replication-Fails payload)
  run_handler-Keeps id job_id Jobs.configure_test_launch_template payload =
      handled id job_id Jobs.configure_test_launch_template payload
        (Onboarding.handle_configure_test_launch_template aws)
        (configure_test_launch_template-Fails payload)
  run_handler-Keeps id job_id Jobs.launch_test_instance payload =
      handled id job_id Jobs.launch_test_instance payload
        (Onboarding.handle_launch_test_instance aws) (launch_test_instance-Fails payload)
  run_handler-Keeps id job_id Jobs.finalize_test payload =
      handled id job_id Jobs.finalize_test payload (Onboarding.handle_finalize_test aws)
        (finalize_test-Fails payload)
  run_handler-Keeps id job_id Jobs.configure_cutover_launch_template payload =
      handled id job_id Jobs.configure_cutover_launch_template payload
        (Cutover.handle_configure_cutover_launch_template aws)
        (configure_cutover_launch_template-Fails payload)
  run_handler-Keeps id job_id Jobs.start_cutover payload =
      handled id job_id Jobs.start_cutover payload (Cutover.handle_start_cutover aws)
        (start_cutover-Fails payload)
  run_handler-Keeps id job_id Jobs.launch_cutover_instance payload =
      handled id job_id Jobs.launch_cutover_instance payload
        (Cutover.handle_launch_cutover_instance aws) (launch_cutover_instance-Fails payload)
  run_handler-Keeps id job_id Jobs.finalize_cutover payload =
      handled id job_id Jobs.finalize_cutover payload (Cutover.handle_finalize_cutover aws)
        (finalize_cutover-Fails payload)
  run_handler-Keeps id job_id Jobs.disconnect_source_server payload =
      handled id job_id Jobs.disconnect_source_server payload
        (Cutover.handle_disconnect_source_server aws) (disconnect_source_server-Fails payload)
  run_handler-Keeps id job_id Jobs.archive_source_server payload =
      handled id job_id Jobs.archive_source_server payload
        (Cutover.handle_archive_source_server aws) (archive_source_server-Fails payload)
  run_handler-Keeps id job_id Jobs.delete_replication_components payload =
      handled id job_id Jobs.delete_replication_components payload
        (Cutover.handle_delete_replication_components aws)
        (delete_replication_components-Fails payload)
  run_handler-Keeps id job_id _ payload = search keeps_rules

  is_current-Keeps :
      (id : String) (expected : Option String) → Kept (MgnLoop.is_current aws id expected)
  is_current-Keeps id none = search keeps_rules
  is_current-Keeps id (some state) = search (keeps_rules, get_state-Keeps Inv)

  execute-Keeps :
      (id job_id : String) (j : JobType) (payload : JsonObject)
      → Kept (MgnLoop.execute aws id job_id j payload)
  unfolding MgnLoop.execute
  execute-Keeps id job_id j payload = search (keeps_rules, is_current-Keeps, run_handler-Keeps)

  process-Keeps : (m : Message) → Kept (MgnLoop.process aws m)
  unfolding MgnLoop.process
  process-Keeps m = search (keeps_rules, execute-Keeps) depth 20

  pub on_message-Keeps : (m : Message) → Kept (MgnLoop.on_message aws m)
  unfolding MgnLoop.on_message
  on_message-Keeps m = search (keeps_rules, process-Keeps)
