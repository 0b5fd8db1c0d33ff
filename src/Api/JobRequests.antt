-- ===== src/Api/JobRequests.antt =====
-- The endpoints of src/api/routes/servers.py that start a job without a gate, up to the MGN worker
-- that carries it out.
use migration_orchestrator_k.Prelude.{String, ◌≡◌, ◌≢◌, false, some, none}
use migration_orchestrator_k.Exec.{Exec, Result, ok, err, http, ◌>>=◌}
use migration_orchestrator_k.Jobs
use migration_orchestrator_k.Jobs.{
  JobType, JsonObject, str, flag, strs, of_option, get_item, get_default,
}
use migration_orchestrator_k.Db.{Server, find_server}
use migration_orchestrator_k.Services.{Services}
use migration_orchestrator_k.World.{World}
use migration_orchestrator_k.Mgn.Delivery.{Delivered}
use migration_orchestrator_k.Api.Servers.{
  ConfigureReplicationRequest, ConfigureLaunchRequest, start_server, configure_replication,
  configure_test_launch, configure_cutover_launch,
}

-- A request, with its body.
pub data JobRequest : Type 0 where
  start : String → JobRequest
  replication : ConfigureReplicationRequest → JobRequest
  test_launch cutover_launch : ConfigureLaunchRequest → JobRequest

abbrev pub job_of : JobRequest → JobType
job_of (start aws_id) = Jobs.add_server
job_of (replication body) = Jobs.configure_replication_settings
job_of (test_launch body) = Jobs.configure_test_launch_template
job_of (cutover_launch body) = Jobs.configure_cutover_launch_template

abbrev LaunchValues : ConfigureLaunchRequest → JsonObject → Type 0
LaunchValues body payload =
    (get_default payload "right_sizing" (str "NONE") ≡ str body.right_sizing)
    × (get_default payload "byol" (flag false) ≡ flag body.byol)

-- What the worker reads of the request under its own keys, and with its own defaults.
abbrev pub Carries : JobRequest → Server → JsonObject → Type 0
Carries (start aws_id) r payload = get_item payload "aws_source_server_id" ≡ ok (str aws_id)
Carries (replication body) r payload =
    (get_item payload "aws_source_server_id" ≡ ok (of_option r.aws_source_server_id))
    × (get_item payload "staging_subnet_id" ≡ ok (str body.staging_subnet_id))
    × (get_item payload "replication_security_group_ids"
        ≡ ok (strs body.replication_security_group_ids))
    × (get_default payload "replication_instance_type" (str "t3.small")
        ≡ str body.replication_instance_type)
    × (get_default payload "data_plane_routing" (str "PRIVATE_IP") ≡ str body.data_plane_routing)
    × (get_default payload "staging_disk_type" (str "GP2") ≡ str body.staging_disk_type)
Carries (test_launch body) r payload =
    (get_item payload "aws_source_server_id" ≡ ok (of_option r.aws_source_server_id))
    × LaunchValues body payload
Carries (cutover_launch body) r payload =
    (get_item payload "aws_source_server_id" ≡ ok (of_option r.aws_source_server_id))
    × LaunchValues body payload

module _ {S : Type 0} (aws : Services S) (id : String) where
  abbrev pub post : JobRequest → Exec (World S) (Unit {0})
  post (start aws_id) = start_server aws id aws_id
  post (replication body) = configure_replication aws id body
  post (test_launch body) = configure_test_launch aws id body
  post (cutover_launch body) = configure_cutover_launch aws id body

  -- What a request may do, where the worker expects its job in `expected`.
  pub data Posted (q : JobRequest) (expected : String) (w : World S)
      (outcome : Result (Unit {0}) × World S) : Type 0 where
    missing :
        find_server id w.db.servers ≡ none
        → outcome ≡ (err (http 404), w)
        → Posted q expected w outcome
    refused :
        (r : Server)
        → find_server id w.db.servers ≡ some r
        → r.current_state ≢ expected
        → outcome ≡ (err (http 409), w)
        → Posted q expected w outcome
    sent :
        (r : Server) (payload : JsonObject) (asked : get_item payload "server_id" ≡ ok (str id))
        → find_server id w.db.servers ≡ some r
        → r.current_state ≡ expected
        → Carries q r payload
        → Delivered aws id payload (job_of q) asked w outcome
        → Posted q expected w outcome
