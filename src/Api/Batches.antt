-- ===== src/Api/Batches.antt =====
-- src/api/routes/batches.py: batches, and the actions on all servers of a batch.
use migration_orchestrator_k.Prelude.{
  ℕ, String, ◌<>◌, Option, some, List, [], ◌∷◌, ◌==◌, if◌then◌else◌,
}
use migration_orchestrator_k.Exec.{Result, ok, err, Exec, try_except, ◌>>=◌, ◌>>◌}
use migration_orchestrator_k.Jobs
use migration_orchestrator_k.Jobs.{JobType, JsonObject, str, flag, strs}
use migration_orchestrator_k.Db.{Server, Batch, Transition}
use migration_orchestrator_k.StateManager.Batches
use migration_orchestrator_k.StateManager.Batches.{Assignment}
use migration_orchestrator_k.Services.{Services}
use migration_orchestrator_k.World.{World, on_db}
use migration_orchestrator_k.Dispatcher.{dispatch}
use migration_orchestrator_k.Api.Text.{lower}
use migration_orchestrator_k.Api.Gates.{
  ApproveRequest, RejectRequest, to_404, notes_metadata, server_job, decide,
}
use migration_orchestrator_k.Api.Servers.{
  ConfigureReplicationRequest, ConfigureLaunchRequest, to_409_or_500, replication_job, launch_job,
}

-- BatchActionResponse, without the batch id.
pub record BatchActionResponse : Type 0 where
  pub succeeded : List String
  pub skipped : List String
  pub failed : List String

abbrev pub skip : String → BatchActionResponse → BatchActionResponse
skip sid r = record r { skipped = sid ∷ r.skipped }

abbrev pub add_result : String → Result (Unit {0}) → BatchActionResponse → BatchActionResponse
add_result sid (ok a) r = record r { succeeded = sid ∷ r.succeeded }
add_result sid (err e) r = record r { failed = sid ∷ r.failed }

-- `body.model_dump()`
abbrev pub replication_config : ConfigureReplicationRequest → JsonObject
replication_config body =
    ("staging_subnet_id", str body.staging_subnet_id)
    ∷ ("replication_security_group_ids", strs body.replication_security_group_ids)
    ∷ ("replication_instance_type", str body.replication_instance_type)
    ∷ ("data_plane_routing", str body.data_plane_routing)
    ∷ ("staging_disk_type", str body.staging_disk_type)
    ∷ []

abbrev pub launch_config : ConfigureLaunchRequest → JsonObject
launch_config body = ("right_sizing", str body.right_sizing) ∷ ("byol", flag body.byol) ∷ []

module _ {S : Type 0} where
  unfoldable pub get_batch_or_404 : String → Exec (World S) (Batch × ℕ)
  get_batch_or_404 batch_id = try_except (on_db (Batches.get_batch batch_id)) to_404

  abbrev attempt :
      String → Result (Unit {0}) × World S → (BatchActionResponse → BatchActionResponse) × World S
  attempt sid (r, w) = (add_result sid r, w)

  -- One turn of the loop: a row in another state is skipped, else the action is run and its
  -- exceptions are caught.
  unfoldable pub turn :
      String
      → (Server → Exec (World S) (Unit {0}))
      → Server
      → World S
      → (BatchActionResponse → BatchActionResponse) × World S
  turn expected_state action server w =
      if server.current_state == expected_state
      then attempt server.server_id (action server w)
      else (skip server.server_id, w)

  -- The loop over the rows, which were read before it; each turn adds to the end of a list, so the
  -- lists stand in the order of the rows.
  unfoldable pub loop :
      String
      → (Server → Exec (World S) (Unit {0}))
      → List Server
      → World S
      → BatchActionResponse × World S
  loop expected_state action [] w = (record { succeeded = []; skipped = []; failed = [] }, w)
  loop expected_state action (server ∷ rest) w =
      let (add, w') = turn expected_state action server w in
      let (response, w'') = loop expected_state action rest w' in (add response, w'')

  abbrev pub run_loop :
      String
      → (Server → Exec (World S) (Unit {0}))
      → List Server
      → Exec (World S) BatchActionResponse
  run_loop expected_state action servers w =
      let (response, w') = loop expected_state action servers w in (ok response, w')

  unfoldable pub batch_action_loop :
      String → String → (Server → Exec (World S) (Unit {0})) → Exec (World S) BatchActionResponse
  unfolding loop get_batch_or_404
  batch_action_loop batch_id expected_state action = do
    get_batch_or_404 batch_id
    servers ← on_db (Batches.get_batch_servers batch_id)
    run_loop expected_state action servers

  unfoldable pub reject_one : RejectRequest → String → Server → Exec (World S) (Unit {0})
  unfolding lower
  reject_one body expected_state server =
      decide server.server_id "FAILED" body.engineer_id ("reject:" <> lower expected_state)
        (some (("reason", str body.reason) ∷ []))

  unfoldable pub batch_reject_gate :
      String → RejectRequest → String → Exec (World S) BatchActionResponse
  unfolding reject_one batch_action_loop
  batch_reject_gate batch_id body expected_state =
      batch_action_loop batch_id expected_state (reject_one body expected_state)

  unfoldable pub create_batch :
      String → String → String → Option String → Exec (World S) (Batch × ℕ)
  unfolding to_409_or_500
  create_batch batch_id name created_by description = do
    try_except (on_db (Batches.create_batch batch_id name created_by description)) to_409_or_500
    on_db (Batches.get_batch batch_id)

  unfoldable pub add_servers_to_batch : String → List String → Exec (World S) Assignment
  unfolding get_batch_or_404
  add_servers_to_batch batch_id server_ids = do
    get_batch_or_404 batch_id
    on_db (Batches.add_servers_to_batch batch_id server_ids)

  unfoldable pub get_batch_servers : String → Exec (World S) (List Server)
  unfolding get_batch_or_404
  get_batch_servers batch_id = do
    get_batch_or_404 batch_id
    on_db (Batches.get_batch_servers batch_id)

  unfoldable pub get_batch_history : String → Exec (World S) (List Transition)
  get_batch_history batch_id = try_except (on_db (Batches.get_batch_history batch_id)) to_404

module _ {S : Type 0} (aws : Services S) where
  -- The action of _batch_approve_gate on one row.
  unfoldable pub approve_one :
      ApproveRequest → String → String → JobType → Server → Exec (World S) (Unit {0})
  unfolding lower
  approve_one body expected_state next_state job_type server = do
    decide server.server_id next_state body.engineer_id ("approve:" <> lower expected_state)
        (notes_metadata body.notes)
    dispatch aws job_type (server_job server.server_id server.aws_source_server_id)

  unfoldable pub batch_approve_gate :
      String → ApproveRequest → String → String → JobType → Exec (World S) BatchActionResponse
  unfolding approve_one batch_action_loop
  batch_approve_gate batch_id body expected_state next_state job_type =
      batch_action_loop batch_id expected_state
        (approve_one body expected_state next_state job_type)

  unfoldable pub batch_configure_replication :
      String → ConfigureReplicationRequest → Exec (World S) BatchActionResponse
  unfolding get_batch_or_404 batch_action_loop
  batch_configure_replication batch_id body = do
    get_batch_or_404 batch_id
    on_db (Batches.update_batch_config batch_id "replication_config" (replication_config body))
    batch_action_loop batch_id "AGENT_INSTALLED" λ server.
        dispatch aws Jobs.configure_replication_settings
          (replication_job server.server_id server.aws_source_server_id body)

  unfoldable pub batch_configure_test_launch :
      String → ConfigureLaunchRequest → Exec (World S) BatchActionResponse
  unfolding get_batch_or_404 batch_action_loop
  batch_configure_test_launch batch_id body = do
    get_batch_or_404 batch_id
    on_db (Batches.update_batch_config batch_id "test_launch_config" (launch_config body))
    batch_action_loop batch_id "READY_FOR_TESTING" λ server.
        dispatch aws Jobs.configure_test_launch_template
          (launch_job server.server_id server.aws_source_server_id body)

  unfoldable pub batch_configure_cutover_launch :
      String → ConfigureLaunchRequest → Exec (World S) BatchActionResponse
  unfolding get_batch_or_404 batch_action_loop
  batch_configure_cutover_launch batch_id body = do
    get_batch_or_404 batch_id
    on_db (Batches.update_batch_config batch_id "cutover_launch_config" (launch_config body))
    batch_action_loop batch_id "CUTOVER_LAUNCH_TEMPLATE_CONFIGURED" λ server.
        dispatch aws Jobs.configure_cutover_launch_template
          (launch_job server.server_id server.aws_source_server_id body)
