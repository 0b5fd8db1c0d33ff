-- ===== src/System/Serve.antt =====
-- Whatever the changes of the tables keep, every request of the API keeps.
use migration_orchestrator_k.Prelude.{String, refl, Option, none, some, List}
use migration_orchestrator_k.Exec.{Exec}
use migration_orchestrator_k.Exec.Keeps.{Keeps, keeps_rules}
use migration_orchestrator_k.Jobs.{JobType}
use migration_orchestrator_k.Db.{Server, Batch, Db}
use migration_orchestrator_k.StateManager.Batches as Waves
use migration_orchestrator_k.StateManager.Change.{
  Change, IsReached, is_reached, create_batch-Change, update_batch_config-Change,
  write_batch-Change,
}
use migration_orchestrator_k.Services.{Services}
use migration_orchestrator_k.World.{World}
use migration_orchestrator_k.Api.Gates
use migration_orchestrator_k.Api.Gates.{ApproveRequest, RejectRequest}
use migration_orchestrator_k.Api.Servers
use migration_orchestrator_k.Api.Bulk
use migration_orchestrator_k.Api.Batches
use migration_orchestrator_k.Api.BatchGates
use migration_orchestrator_k.System.Requests
use migration_orchestrator_k.System.Requests.{Request, serve}
use migration_orchestrator_k.System.Changes.{Holds, on_db-Keeps, dispatch-Keeps, tables-Keeps}
use migration_orchestrator_k.System.Endpoints

module _ {S : Type 0} (aws : Services S) (P : Db → Type 0)
    (closed : (db db' : Db) → Change db db' → P db → P db') where
  abbrev Kept : {A : Type 0} → Exec (World S) A → Type 0
  Kept m = Keeps (Holds P) m

  require_batch-Keeps : (id : String) (o : Option Batch) → Keeps P (Waves.require_batch id o)
  require_batch-Keeps id none = search keeps_rules
  require_batch-Keeps id (some b) = search keeps_rules

  get_batch-Keeps : (id : String) → Keeps P (Waves.get_batch id)
  unfolding Waves.get_batch
  get_batch-Keeps id = search (keeps_rules, require_batch-Keeps) depth 8

  batch_or_404-Keeps : (id : String) → Kept (Batches.get_batch_or_404 id)
  unfolding Batches.get_batch_or_404
  batch_or_404-Keeps id =
      search (keeps_rules, on_db-Keeps P, get_batch-Keeps, Endpoints.to_404-Keeps aws P closed)
        depth 8

  get_batch_servers-Keeps : (id : String) → Keeps P (Waves.get_batch_servers id)
  unfolding Waves.get_batch_servers
  get_batch_servers-Keeps id = search keeps_rules

  run_loop-Keeps :
      (expected : String) (action : Server → Exec (World S) (Unit {0})) (rows : List Server)
      → ((r : Server) → Kept (action r))
      → Kept (Batches.run_loop expected action rows)
  run_loop-Keeps expected action rows k = record {
    holds = λ w h. Endpoints.loop-Keeps aws P closed expected action rows w k h;
  }

  action_loop-Keeps :
      (id expected : String) (action : Server → Exec (World S) (Unit {0}))
      → ((r : Server) → Kept (action r))
      → Kept (Batches.batch_action_loop id expected action)
  unfolding Batches.batch_action_loop
  action_loop-Keeps id expected action k =
      search
        (keeps_rules, batch_or_404-Keeps, on_db-Keeps P, get_batch_servers-Keeps, run_loop-Keeps)
        depth 10

  batch_reject-Keeps :
      (id : String) (body : RejectRequest) (expected : String)
      → Kept (Batches.batch_reject_gate id body expected)
  unfolding Batches.batch_reject_gate Batches.reject_one
  batch_reject-Keeps id body expected =
      action_loop-Keeps id expected _
        λ r. search (Endpoints.decide-Keeps aws P closed, Endpoints.failed-IsReached)

  batch_approve-Keeps :
      (id : String) (body : ApproveRequest) (expected next : String) (j : JobType)
      → IsReached next
      → Kept (Batches.batch_approve_gate aws id body expected next j)
  unfolding Batches.batch_approve_gate Batches.approve_one
  batch_approve-Keeps id body expected next j reached =
      action_loop-Keeps id expected _
        λ r. search (keeps_rules, Endpoints.decide-Keeps aws P closed, dispatch-Keeps aws P) depth 8

  batch_configure_replication-Keeps :
      (id : String) (body : Servers.ConfigureReplicationRequest)
      → Kept (Batches.batch_configure_replication aws id body)
  unfolding Batches.batch_configure_replication
  batch_configure_replication-Keeps id body =
      search
        (
          keeps_rules,
          batch_or_404-Keeps,
          Endpoints.by_tables aws P closed,
          update_batch_config-Change,
          action_loop-Keeps,
          dispatch-Keeps aws P,
        )
        depth 10

  batch_configure_test_launch-Keeps :
      (id : String) (body : Servers.ConfigureLaunchRequest)
      → Kept (Batches.batch_configure_test_launch aws id body)
  unfolding Batches.batch_configure_test_launch
  batch_configure_test_launch-Keeps id body =
      search
        (
          keeps_rules,
          batch_or_404-Keeps,
          Endpoints.by_tables aws P closed,
          update_batch_config-Change,
          action_loop-Keeps,
          dispatch-Keeps aws P,
        )
        depth 10

  batch_configure_cutover_launch-Keeps :
      (id : String) (body : Servers.ConfigureLaunchRequest)
      → Kept (Batches.batch_configure_cutover_launch aws id body)
  unfolding Batches.batch_configure_cutover_launch
  batch_configure_cutover_launch-Keeps id body =
      search
        (
          keeps_rules,
          batch_or_404-Keeps,
          Endpoints.by_tables aws P closed,
          update_batch_config-Change,
          action_loop-Keeps,
          dispatch-Keeps aws P,
        )
        depth 10

  create_batch-Keeps :
      (id name by : String) (description : Option String)
      → Kept (Batches.create_batch id name by description)
  unfolding Batches.create_batch
  create_batch-Keeps id name by description =
      search
        (
          keeps_rules,
          Endpoints.by_tables aws P closed,
          create_batch-Change,
          on_db-Keeps P,
          get_batch-Keeps,
        )
        depth 8

  assign-Keeps : (id : String) (ids : List String) → Keeps P (Waves.add_servers_to_batch id ids)
  unfolding Waves.add_servers_to_batch
  assign-Keeps id ids = search (keeps_rules, tables-Keeps P closed, write_batch-Change) depth 8

  add_servers_to_batch-Keeps :
      (id : String) (ids : List String) → Kept (Batches.add_servers_to_batch id ids)
  unfolding Batches.add_servers_to_batch
  add_servers_to_batch-Keeps id ids =
      search (keeps_rules, batch_or_404-Keeps, on_db-Keeps P, assign-Keeps) depth 8

  bulk_register-Keeps :
      (items : List Servers.RegisterServerRequest) (w : World S)
      → P w.db
      → P (Bulk.bulk_register items w).1.db
  unfolding Bulk.bulk_register
  bulk_register-Keeps items w =
      Endpoints.each-Keeps aws P closed _ _ items w (Endpoints.register-Keeps aws P closed)

  bulk_start-Keeps :
      (items : List Bulk.BulkStartItem) (w : World S)
      → P w.db
      → P (Bulk.bulk_start aws items w).1.db
  unfolding Bulk.bulk_start
  bulk_start-Keeps items w =
      Endpoints.each-Keeps aws P closed _ _ items w (Endpoints.start_one-Keeps aws P closed)

  -- Any request, whatever it answers.
  pub serve-Holds : (r : Request) (w : World S) → P w.db → P (serve aws r w).db
  unfolding serve Gates.approve_replication Gates.reject_replication
      BatchGates.batch_approve_replication BatchGates.batch_reject_replication
      Gates.approve_test_launch Gates.reject_test_launch BatchGates.batch_approve_test_launch
      BatchGates.batch_reject_test_launch Gates.approve_test_validation Gates.reject_test_validation
      BatchGates.batch_approve_test_validation BatchGates.batch_reject_test_validation
      Gates.approve_cutover_launch Gates.reject_cutover_launch
      BatchGates.batch_approve_cutover_launch BatchGates.batch_reject_cutover_launch
      Gates.approve_cutover_validation Gates.reject_cutover_validation
      BatchGates.batch_approve_cutover_validation BatchGates.batch_reject_cutover_validation
      Gates.approve_archive Gates.reject_archive BatchGates.batch_approve_archive
      BatchGates.batch_reject_archive Gates.approve_cleanup Gates.reject_cleanup
      BatchGates.batch_approve_cleanup BatchGates.batch_reject_cleanup is_reached
  serve-Holds (Requests.register_server body) w h =
      (Endpoints.register_server-Keeps aws P closed body).holds w h
  serve-Holds (Requests.start_server id aws_id) w h =
      (Endpoints.start_server-Keeps aws P closed id aws_id).holds w h
  serve-Holds (Requests.configure_replication id body) w h =
      (Endpoints.configure_replication-Keeps aws P closed id body).holds w h
  serve-Holds (Requests.batch_configure_replication id body) w h =
      (batch_configure_replication-Keeps id body).holds w h
  serve-Holds (Requests.configure_test_launch id body) w h =
      (Endpoints.configure_test_launch-Keeps aws P closed id body).holds w h
  serve-Holds (Requests.batch_configure_test_launch id body) w h =
      (batch_configure_test_launch-Keeps id body).holds w h
  serve-Holds (Requests.configure_cutover_launch id body) w h =
      (Endpoints.configure_cutover_launch-Keeps aws P closed id body).holds w h
  serve-Holds (Requests.batch_configure_cutover_launch id body) w h =
      (batch_configure_cutover_launch-Keeps id body).holds w h
  serve-Holds (Requests.reset_server id by reason) w h =
      (Endpoints.reset_server-Keeps aws P closed id by reason).holds w h
  serve-Holds (Requests.approve_replication id body) w h =
      (Endpoints.approve_gate-Keeps aws P closed id body _ _ _ refl).holds w h
  serve-Holds (Requests.reject_replication id body) w h =
      (Endpoints.reject_gate-Keeps aws P closed id body _).holds w h
  serve-Holds (Requests.batch_approve_replication id body) w h =
      (batch_approve-Keeps id body _ _ _ refl).holds w h
  serve-Holds (Requests.batch_reject_replication id body) w h =
      (batch_reject-Keeps id body _).holds w h
  serve-Holds (Requests.approve_test_launch id body) w h =
      (Endpoints.approve_gate-Keeps aws P closed id body _ _ _ refl).holds w h
  serve-Holds (Requests.reject_test_launch id body) w h =
      (Endpoints.reject_gate-Keeps aws P closed id body _).holds w h
  serve-Holds (Requests.batch_approve_test_launch id body) w h =
      (batch_approve-Keeps id body _ _ _ refl).holds w h
  serve-Holds (Requests.batch_reject_test_launch id body) w h =
      (batch_reject-Keeps id body _).holds w h
  serve-Holds (Requests.approve_test_validation id body) w h =
      (Endpoints.approve_gate-Keeps aws P closed id body _ _ _ refl).holds w h
  serve-Holds (Requests.reject_test_validation id body) w h =
      (Endpoints.reject_gate-Keeps aws P closed id body _).holds w h
  serve-Holds (Requests.batch_approve_test_validation id body) w h =
      (batch_approve-Keeps id body _ _ _ refl).holds w h
  serve-Holds (Requests.batch_reject_test_validation id body) w h =
      (batch_reject-Keeps id body _).holds w h
  serve-Holds (Requests.approve_cutover_launch id body) w h =
      (Endpoints.approve_gate-Keeps aws P closed id body _ _ _ refl).holds w h
  serve-Holds (Requests.reject_cutover_launch id body) w h =
      (Endpoints.reject_gate-Keeps aws P closed id body _).holds w h
  serve-Holds (Requests.batch_approve_cutover_launch id body) w h =
      (batch_approve-Keeps id body _ _ _ refl).holds w h
  serve-Holds (Requests.batch_reject_cutover_launch id body) w h =
      (batch_reject-Keeps id body _).holds w h
  serve-Holds (Requests.approve_cutover_validation id body) w h =
      (Endpoints.approve_gate-Keeps aws P closed id body _ _ _ refl).holds w h
  serve-Holds (Requests.reject_cutover_validation id body) w h =
      (Endpoints.reject_gate-Keeps aws P closed id body _).holds w h
  serve-Holds (Requests.batch_approve_cutover_validation id body) w h =
      (batch_approve-Keeps id body _ _ _ refl).holds w h
  serve-Holds (Requests.batch_reject_cutover_validation id body) w h =
      (batch_reject-Keeps id body _).holds w h
  serve-Holds (Requests.approve_archive id body) w h =
      (Endpoints.approve_gate-Keeps aws P closed id body _ _ _ refl).holds w h
  serve-Holds (Requests.reject_archive id body) w h =
      (Endpoints.reject_gate-Keeps aws P closed id body _).holds w h
  serve-Holds (Requests.batch_approve_archive id body) w h =
      (batch_approve-Keeps id body _ _ _ refl).holds w h
  serve-Holds (Requests.batch_reject_archive id body) w h = (batch_reject-Keeps id body _).holds w h
  serve-Holds (Requests.approve_cleanup id body) w h =
      (Endpoints.approve_gate-Keeps aws P closed id body _ _ _ refl).holds w h
  serve-Holds (Requests.reject_cleanup id body) w h =
      (Endpoints.reject_gate-Keeps aws P closed id body _).holds w h
  serve-Holds (Requests.batch_approve_cleanup id body) w h =
      (batch_approve-Keeps id body _ _ _ refl).holds w h
  serve-Holds (Requests.batch_reject_cleanup id body) w h = (batch_reject-Keeps id body _).holds w h
  serve-Holds (Requests.create_batch id name by description) w h =
      (create_batch-Keeps id name by description).holds w h
  serve-Holds (Requests.add_servers_to_batch id ids) w h =
      (add_servers_to_batch-Keeps id ids).holds w h
  serve-Holds (Requests.bulk_register items) w h = bulk_register-Keeps items w h
  serve-Holds (Requests.bulk_start items) w h = bulk_start-Keeps items w h
