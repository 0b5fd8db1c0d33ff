-- ===== src/Services.antt =====
-- What the code asks of AWS and of the broker, which are not part of it: boto3's MGN and EC2
-- clients (src/workers/aws_clients.py), the publisher confirm of aio_pika and uuid4. `S` is the
-- state of that outside world; nothing is assumed of how it answers.
use migration_orchestrator_k.Prelude.{String, Option, Bool, List}
use migration_orchestrator_k.Exec.{Result}
use migration_orchestrator_k.Jobs.{Value, JsonObject}

-- The calls that change something in MGN, with the arguments that the code passes.
pub data Command : Type 0 where
  update_replication_configuration update_launch_configuration : JsonObject → Command
  start_replication stop_replication start_test start_cutover : Value → Command
  terminate_target_instances finalize_cutover disconnect_from_service : Value → Command
  mark_as_archived delete_source_server : Value → Command

-- The parts of a describe_source_servers item that the code reads; an absent key is `none`.
pub record SourceServer : Type 0 where
  pub lifecycle_state : Option String
  pub last_cutover_job : Option String
  pub launched_instance : Option String

pub record Participant : Type 0 where
  pub source_server_id : Value
  pub launched_instance : Option String

pub record MgnJob : Type 0 where
  pub status : Option String
  pub participating_servers : List Participant

pub record InstanceStatus : Type 0 where
  pub instance_state : Option String
  pub system_status : Option String
  pub instance_status : Option String

pub record Services (S : Type 0) : Type 0 where
  -- the reply is `response["job"]["jobID"]`, where the call has one
  pub command : Command → S → Result (Option String) × S
  pub describe_source_servers : Value → S → Result (List SourceServer)
  pub describe_jobs : Value → S → Result (List MgnJob)
  pub describe_instance_status : Value → S → Result (List InstanceStatus)
  -- whether the broker confirms a message that is published now
  pub confirms : S → Bool
  pub uuid4 : S → String × S
