-- ===== src/Mgn/Onboarding.antt =====
-- The handlers of stages 1 to 3: onboarding, replication and the test launch.
use migration_orchestrator_k.Prelude.{
  String, none, some, false, List, [], ◌∷◌, get_or, ◌==◌, if◌then◌else◌,
}
use migration_orchestrator_k.Exec.{Exec, pure, lift, ◌>>=◌, ◌>>◌}
use migration_orchestrator_k.Jobs.{
  JsonObject, Value, str, flag, of_option, get_item, get_default, as_text, poll_replication_status,
  poll_test_instance_status,
}
use migration_orchestrator_k.Services
use migration_orchestrator_k.Services.{Services, SourceServer}
use migration_orchestrator_k.World.{World, call, read}
use migration_orchestrator_k.Dispatcher.{dispatch_follow_up}
use migration_orchestrator_k.Client
use migration_orchestrator_k.Mgn.Results.{
  MgnResult, success, failure, aws_metadata, server_payload, guarded, advance, get_lifecycle_state,
}

-- The arguments of update_launch_configuration.
abbrev pub launch_configuration : Value → String → JsonObject → JsonObject
launch_configuration aws_id disposition payload =
    ("sourceServerID", aws_id)
    ∷ ("launchDisposition", str disposition)
    ∷ ("targetInstanceTypeRightSizingMethod", get_default payload "right_sizing" (str "NONE"))
    ∷ ("osByol", get_default payload "byol" (flag false))
    ∷ []

module _ {S : Type 0} (aws : Services S) where
  -- What follows the describe call of _handle_add_server.
  abbrev pub confirm_agent : Value → Value → List SourceServer → Exec (World S) MgnResult
  confirm_agent server_id aws_id [] = pure failure
  confirm_agent server_id aws_id (server ∷ rest) =
      let life_state : String = get_or "" server.lifecycle_state in
      if life_state == "DISCONNECTED" then pure failure else do
        id ← lift (as_text server_id)
        aws_text ← lift (as_text aws_id)
        Client.set_aws_source_server_id id aws_text
        pure (
            success (some "AGENT_INSTALLED")
              (some (("aws_source_server_id", aws_id) ∷ ("lifecycle_state", str life_state) ∷ [])))

  unfoldable pub handle_add_server : JsonObject → Exec (World S) MgnResult
  unfolding read
  handle_add_server payload = do
    server_id ← lift (get_item payload "server_id")
    aws_id ← lift (get_item payload "aws_source_server_id")
    guarded (do
      items ← read aws (aws.describe_source_servers aws_id)
      confirm_agent server_id aws_id items)

  unfoldable pub handle_configure_replication : JsonObject → Exec (World S) MgnResult
  unfolding call
  handle_configure_replication payload = do
    server_id ← lift (get_item payload "server_id")
    aws_id ← lift (get_item payload "aws_source_server_id")
    guarded (do
      subnet ← lift (get_item payload "staging_subnet_id")
      groups ← lift (get_item payload "replication_security_group_ids")
      call aws (
          Services.update_replication_configuration (
            ("sourceServerID", aws_id)
            ∷ ("stagingAreaSubnetId", subnet)
            ∷ (
              "replicationServerInstanceType",
              get_default payload "replication_instance_type" (str "t3.small"),
            )
            ∷ ("replicationServersSecurityGroupsIDs", groups)
            ∷ ("dataPlaneRouting", get_default payload "data_plane_routing" (str "PRIVATE_IP"))
            ∷ ("defaultLargeStagingDiskType", get_default payload "staging_disk_type" (str "GP2"))
            ∷ []))
      advance server_id "REPLICATION_CONFIGURED" "configure_replication_settings"
          (aws_metadata aws_id)
      pure (success (some "AWAITING_REPLICATION_APPROVAL") (some (aws_metadata aws_id))))

  unfoldable pub handle_start_replication : JsonObject → Exec (World S) MgnResult
  unfolding call dispatch_follow_up
  handle_start_replication payload = do
    server_id ← lift (get_item payload "server_id")
    aws_id ← lift (get_item payload "aws_source_server_id")
    guarded (do
      call aws (Services.start_replication aws_id)
      dispatch_follow_up aws poll_replication_status (server_payload server_id aws_id)
      pure (success none none))

  unfoldable pub handle_configure_test_launch_template : JsonObject → Exec (World S) MgnResult
  unfolding call
  handle_configure_test_launch_template payload = do
    server_id ← lift (get_item payload "server_id")
    aws_id ← lift (get_item payload "aws_source_server_id")
    guarded (do
      call aws (Services.update_launch_configuration (launch_configuration aws_id "TEST" payload))
      advance server_id "TEST_LAUNCH_TEMPLATE_CONFIGURED" "configure_test_launch_template"
          (aws_metadata aws_id)
      pure (success (some "AWAITING_TEST_LAUNCH_APPROVAL") (some (aws_metadata aws_id))))

  -- What follows the pre-flight check of _handle_launch_test_instance.
  unfoldable pub launch_test : Value → Value → Exec (World S) MgnResult
  unfolding call dispatch_follow_up
  launch_test server_id aws_id = do
    job_id ← call aws (Services.start_test aws_id)
    dispatch_follow_up aws poll_test_instance_status (
        ("server_id", server_id)
        ∷ ("aws_source_server_id", aws_id)
        ∷ ("mgn_job_id", of_option job_id)
        ∷ [])
    pure (success none (some (("mgn_job_id", of_option job_id) ∷ [])))

  unfoldable pub handle_launch_test_instance : JsonObject → Exec (World S) MgnResult
  unfolding get_lifecycle_state launch_test
  handle_launch_test_instance payload = do
    server_id ← lift (get_item payload "server_id")
    aws_id ← lift (get_item payload "aws_source_server_id")
    guarded (do
      lifecycle_state ← get_lifecycle_state aws aws_id
      if lifecycle_state == "READY_FOR_TEST" then launch_test server_id aws_id else pure failure)

  unfoldable pub handle_finalize_test : JsonObject → Exec (World S) MgnResult
  unfolding call
  handle_finalize_test payload = do
    server_id ← lift (get_item payload "server_id")
    aws_id ← lift (get_item payload "aws_source_server_id")
    guarded (do
      call aws (Services.terminate_target_instances aws_id)
      pure (success (some "CUTOVER_LAUNCH_TEMPLATE_CONFIGURED") (some (aws_metadata aws_id))))
