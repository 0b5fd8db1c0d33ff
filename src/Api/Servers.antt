-- ===== src/Api/Servers.antt =====
-- src/api/routes/servers.py: registration, the endpoints that start a job, and the reset.
use migration_orchestrator_k.Prelude.{
  String, Option, some, Bool, List, [], ◌∷◌, if◌then◌else◌, ◌||◌,
}
use migration_orchestrator_k.Exec.{
  Exc, value_error, exc_text, http, Exec, raise, try_except, ◌>>=◌, ◌>>◌,
}
use migration_orchestrator_k.Jobs
use migration_orchestrator_k.Jobs.{JsonObject, Value, str, flag, strs, of_option}
use migration_orchestrator_k.Db.{Server, Transition}
use migration_orchestrator_k.StateManager.Moves
use migration_orchestrator_k.StateManager.Servers
use migration_orchestrator_k.Services.{Services}
use migration_orchestrator_k.World.{World, on_db}
use migration_orchestrator_k.Dispatcher.{dispatch}
use migration_orchestrator_k.Api.Text.{lower, has_part}
use migration_orchestrator_k.Api.Gates.{to_404, get_server_or_404, require_state, server_job}

-- RegisterServerRequest; BulkRegisterItem has the same fields.
pub record RegisterServerRequest : Type 0 where
  pub server_id : String
  pub hostname : String
  pub ip_address : String
  pub aws_account_id : Option String
  pub aws_region : Option String
  pub assigned_engineer : Option String
  pub batch_id : Option String

pub record ConfigureReplicationRequest : Type 0 where
  pub staging_subnet_id : String
  pub replication_security_group_ids : List String
  pub replication_instance_type : String
  pub data_plane_routing : String
  pub staging_disk_type : String

-- ConfigureTestLaunchRequest and ConfigureCutoverLaunchRequest.
pub record ConfigureLaunchRequest : Type 0 where
  pub right_sizing : String
  pub byol : Bool

-- `"unique" in str(e).lower() or "duplicate" in str(e).lower()`
unfoldable pub says_taken : String → Bool
unfolding lower has_part
says_taken text = has_part (lower text) "unique" || has_part (lower text) "duplicate"

-- 409 where the exception's text says that a key is taken, else 500.
unfoldable pub to_409_or_500 {ℓ} : {S A : Type ℓ} → Exc → Exec S A
unfolding says_taken exc_text
to_409_or_500 e = raise (http (if says_taken (exc_text e) then 409 else 500))

-- The status is 404 where the message says "not found", else 409.
abbrev pub to_404_or_409 {ℓ} : {S A : Type ℓ} → Exc → Exec S A
to_404_or_409 (value_error message) =
    raise (http (if has_part (lower message) "not found" then 404 else 409))
to_404_or_409 e = raise e

abbrev pub replication_job : String → Option String → ConfigureReplicationRequest → JsonObject
replication_job server_id aws_id body =
    ("server_id", str server_id)
    ∷ ("aws_source_server_id", of_option aws_id)
    ∷ ("staging_subnet_id", str body.staging_subnet_id)
    ∷ ("replication_security_group_ids", strs body.replication_security_group_ids)
    ∷ ("replication_instance_type", str body.replication_instance_type)
    ∷ ("data_plane_routing", str body.data_plane_routing)
    ∷ ("staging_disk_type", str body.staging_disk_type)
    ∷ []

abbrev pub launch_job : String → Option String → ConfigureLaunchRequest → JsonObject
launch_job server_id aws_id body =
    ("server_id", str server_id)
    ∷ ("aws_source_server_id", of_option aws_id)
    ∷ ("right_sizing", str body.right_sizing)
    ∷ ("byol", flag body.byol)
    ∷ []

module _ {S : Type 0} where
  unfoldable pub register : RegisterServerRequest → Exec (World S) (Unit {0})
  register body = on_db (
      Servers.register_server body.server_id body.hostname body.ip_address body.aws_account_id
        body.aws_region body.assigned_engineer body.batch_id)

  unfoldable pub register_server : RegisterServerRequest → Exec (World S) Server
  unfolding register to_409_or_500
  register_server body = do
    try_except (register body) to_409_or_500
    on_db (Servers.get_server body.server_id)

  unfoldable pub get_server : String → Exec (World S) Server
  get_server server_id = get_server_or_404 server_id

  unfoldable pub get_server_history : String → Exec (World S) (List Transition)
  get_server_history server_id = try_except (on_db (Servers.get_server_history server_id)) to_404

  unfoldable pub reset_server : String → String → Option String → Exec (World S) (Unit {0})
  unfolding lower has_part
  reset_server server_id engineer_id reason =
      try_except (on_db (Moves.reset_server server_id engineer_id reason)) to_404_or_409

module _ {S : Type 0} (aws : Services S) where
  unfoldable pub start_server : String → String → Exec (World S) (Unit {0})
  start_server server_id aws_source_server_id = do
    require_state server_id "PENDING"
    dispatch aws Jobs.add_server (server_job server_id (some aws_source_server_id))

  unfoldable pub configure_replication :
      String → ConfigureReplicationRequest → Exec (World S) (Unit {0})
  configure_replication server_id body = do
    server ← require_state server_id "AGENT_INSTALLED"
    dispatch aws Jobs.configure_replication_settings
        (replication_job server_id server.aws_source_server_id body)

  unfoldable pub configure_test_launch : String → ConfigureLaunchRequest → Exec (World S) (Unit {0})
  configure_test_launch server_id body = do
    server ← require_state server_id "READY_FOR_TESTING"
    dispatch aws Jobs.configure_test_launch_template
        (launch_job server_id server.aws_source_server_id body)

  unfoldable pub configure_cutover_launch :
      String → ConfigureLaunchRequest → Exec (World S) (Unit {0})
  configure_cutover_launch server_id body = do
    server ← require_state server_id "CUTOVER_LAUNCH_TEMPLATE_CONFIGURED"
    dispatch aws Jobs.configure_cutover_launch_template
        (launch_job server_id server.aws_source_server_id body)
