-- ===== src/System/Endpoints.antt =====
-- Whatever the changes of the tables keep, every request of the API keeps.
use migration_orchestrator_k.Prelude.{
  String, refl, Option, none, some, Bool-cases, inl, inr, List, [], ◌∷◌, ◌==◌,
}
use migration_orchestrator_k.Exec.{Exec, Exc, value_error}
use migration_orchestrator_k.Exec.Keeps.{Keeps, keeps_rules}
use migration_orchestrator_k.Jobs.{JobType, JsonObject}
use migration_orchestrator_k.Db.{Server, Db}
use migration_orchestrator_k.StateManager.Change.{
  Change, IsReached, is_reached, advance_state-Change, reset_server-Change, register_server-Change,
}
use migration_orchestrator_k.Services.{Services}
use migration_orchestrator_k.World.{World, on_db}
use migration_orchestrator_k.Api.Gates
use migration_orchestrator_k.Api.Gates.{ApproveRequest, RejectRequest}
use migration_orchestrator_k.Api.Servers
use migration_orchestrator_k.Api.Bulk
use migration_orchestrator_k.Api.Batches
use migration_orchestrator_k.System.Changes.{
  Holds, on_db-Keeps, get_row-Keeps, get_server_state-Keeps, dispatch-Keeps, tables-Keeps,
}

pub failed-IsReached : IsReached "FAILED"
unfolding is_reached
failed-IsReached = refl

module _ {S : Type 0} (aws : Services S) (P : Db → Type 0)
    (closed : (db db' : Db) → Change db db' → P db → P db') where
  abbrev Kept : {A : Type 0} → Exec (World S) A → Type 0
  Kept m = Keeps (Holds P) m

  -- A method of StateManager that only changes the tables in the ways of `Change`.
  pub by_tables : {A : Type 0} (m : Exec Db A) → ((db : Db) → Change db (m db).1) → Kept (on_db m)
  by_tables m changes = on_db-Keeps P m (tables-Keeps P closed m changes)

  pub to_404-Keeps :
      {A : Type 0} (e : Exc) → Keeps {State = World S} {Out = A} (Holds P) (Gates.to_404 e)
  to_404-Keeps (value_error m) = search keeps_rules
  to_404-Keeps _ = search keeps_rules

  reset_status-Keeps :
      {A : Type 0} (e : Exc) → Keeps {State = World S} {Out = A} (Holds P) (Servers.to_404_or_409 e)
  reset_status-Keeps (value_error m) = search keeps_rules
  reset_status-Keeps _ = search keeps_rules

  pub row_or_404-Keeps : (id : String) → Kept (Gates.get_server_or_404 id)
  unfolding Gates.get_server_or_404
  row_or_404-Keeps id = search (keeps_rules, to_404-Keeps, on_db-Keeps P, get_row-Keeps P)

  require_state-Keeps : (id expected : String) → Kept (Gates.require_state id expected)
  unfolding Gates.require_state
  require_state-Keeps id expected = search (keeps_rules, row_or_404-Keeps) depth 10

  pub decide-Keeps :
      (id to by job_type : String) (metadata : Option JsonObject)
      → IsReached to
      → Kept (Gates.decide id to by job_type metadata)
  unfolding Gates.decide
  decide-Keeps id to by job_type metadata reached =
      by_tables _ (λ db. advance_state-Change id to by none (some job_type) metadata db reached)

  pub reject_gate-Keeps :
      (id : String) (body : RejectRequest) (expected : String)
      → Kept (Gates.reject_gate id body expected)
  unfolding Gates.reject_gate
  reject_gate-Keeps id body expected =
      search (keeps_rules, require_state-Keeps, decide-Keeps, failed-IsReached) depth 10

  pub approve_gate-Keeps :
      (id : String) (body : ApproveRequest) (expected next : String) (j : JobType)
      → IsReached next
      → Kept (Gates.approve_gate aws id body expected next j)
  unfolding Gates.approve_gate
  approve_gate-Keeps id body expected next j reached =
      search (keeps_rules, require_state-Keeps, decide-Keeps, dispatch-Keeps aws P) depth 10

  pub register-Keeps : (body : Servers.RegisterServerRequest) → Kept (Servers.register body)
  unfolding Servers.register
  register-Keeps body = by_tables _ (
      register_server-Change body.server_id body.hostname body.ip_address body.aws_account_id
        body.aws_region body.assigned_engineer body.batch_id)

  pub register_server-Keeps :
      (body : Servers.RegisterServerRequest) → Kept (Servers.register_server body)
  unfolding Servers.register_server
  register_server-Keeps body =
      search (keeps_rules, register-Keeps, on_db-Keeps P, get_row-Keeps P) depth 8

  pub reset_server-Keeps :
      (id engineer : String) (reason : Option String)
      → Kept (Servers.reset_server id engineer reason)
  unfolding Servers.reset_server
  reset_server-Keeps id engineer reason =
      search (keeps_rules, by_tables, reset_server-Change, reset_status-Keeps) depth 8

  pub start_server-Keeps : (id aws_id : String) → Kept (Servers.start_server aws id aws_id)
  unfolding Servers.start_server
  start_server-Keeps id aws_id =
      search (keeps_rules, require_state-Keeps, dispatch-Keeps aws P) depth 8

  pub configure_replication-Keeps :
      (id : String) (body : Servers.ConfigureReplicationRequest)
      → Kept (Servers.configure_replication aws id body)
  unfolding Servers.configure_replication
  configure_replication-Keeps id body =
      search (keeps_rules, require_state-Keeps, dispatch-Keeps aws P) depth 8

  pub configure_test_launch-Keeps :
      (id : String) (body : Servers.ConfigureLaunchRequest)
      → Kept (Servers.configure_test_launch aws id body)
  unfolding Servers.configure_test_launch
  configure_test_launch-Keeps id body =
      search (keeps_rules, require_state-Keeps, dispatch-Keeps aws P) depth 8

  pub configure_cutover_launch-Keeps :
      (id : String) (body : Servers.ConfigureLaunchRequest)
      → Kept (Servers.configure_cutover_launch aws id body)
  unfolding Servers.configure_cutover_launch
  configure_cutover_launch-Keeps id body =
      search (keeps_rules, require_state-Keeps, dispatch-Keeps aws P) depth 8

  -- The loops over many servers.
  pub each-Keeps :
      {A : Type 0} (id : A → String) (action : A → Exec (World S) (Unit {0})) (items : List A)
      (w : World S)
      → ((a : A) → Kept (action a))
      → P w.db
      → P (Bulk.each id action items w).1.db
  unfolding Bulk.each
  each-Keeps id action [] w k h = h
  each-Keeps id action (a ∷ rest) w k h =
      each-Keeps id action rest (action a w).1 k ((k a).holds w h)

  pub start_one-Keeps : (item : Bulk.BulkStartItem) → Kept (Bulk.start_one aws item)
  unfolding Bulk.start_one
  start_one-Keeps item =
      search (keeps_rules, get_server_state-Keeps P, dispatch-Keeps aws P) depth 8

  turn-Keeps :
      (expected : String) (action : Server → Exec (World S) (Unit {0})) (r : Server) (w : World S)
      → ((r : Server) → Kept (action r))
      → P w.db
      → P (Batches.turn expected action r w).1.db
  unfolding Batches.turn
  turn-Keeps expected action r w k h = elim (Bool-cases (r.current_state == expected)) [
    | inl e ↦ rw e ((k r).holds w h)
    | inr e ↦ rw e h
  ]

  pub loop-Keeps :
      (expected : String) (action : Server → Exec (World S) (Unit {0})) (rows : List Server)
      (w : World S)
      → ((r : Server) → Kept (action r))
      → P w.db
      → P (Batches.loop expected action rows w).1.db
  unfolding Batches.loop
  loop-Keeps expected action [] w k h = h
  loop-Keeps expected action (r ∷ rest) w k h =
      loop-Keeps expected action rest (Batches.turn expected action r w).1 k
        (turn-Keeps expected action r w k h)
