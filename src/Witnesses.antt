-- ===== src/Witnesses.antt =====
-- A small world with one server, and an outside world that takes every call.
mod Runs
mod Workers
mod Answers
mod Rest
mod Reads
mod Links
use migration_orchestrator_k.Prelude.{
  String, ◌<>◌, ◌≡◌, ◌≢◌, ◌↔◌, inl, refl, true, false, none, some, List, [], ◌∷◌, map, arith,
  eq_iff, ◌==◌,
}
use migration_orchestrator_k.Exec.{ok}
use migration_orchestrator_k.StateManager.Pipeline.{Recorded}
use migration_orchestrator_k.StateManager.Moves
use migration_orchestrator_k.StateManager.Servers as Rows
use migration_orchestrator_k.Mgn.Loop as MgnLoop
use migration_orchestrator_k.Mgn.Onboarding.{handle_add_server}
use migration_orchestrator_k.Client
use migration_orchestrator_k.Api.Servers
use migration_orchestrator_k.Api.Gates
use migration_orchestrator_k.States
use migration_orchestrator_k.States.{value, server_state}
use migration_orchestrator_k.Transitions.Validate.{NamesEdge, validate_iff}
use migration_orchestrator_k.Transitions.{validate}
use migration_orchestrator_k.Jobs
use migration_orchestrator_k.Jobs.{
  Message, Body, get_item, str, JobType, job_value, parse_job_type, load, required, job_type_of,
  as_text, queue_routing,
}
use migration_orchestrator_k.Jobs.Reading.{Asks}
use migration_orchestrator_k.Db.{
  Server, Batch, Db, find_server, any_of, batch_exists, find_batch, insert_server,
  insert_transition, update_server,
}
use migration_orchestrator_k.StateManager.Advance.{Advanced, advance_state-Advanced}
use migration_orchestrator_k.StateManager.Reset.{Reset, reset_server-Reset}
use migration_orchestrator_k.StateManager.Audit.{IsAudited, registered}
use migration_orchestrator_k.StateManager.Change.{life}
use migration_orchestrator_k.StateManager.Moves.{advance_state, reset_server}
use migration_orchestrator_k.StateManager.Waves.{InBatch, add_servers_to_batch-InBatch}
use migration_orchestrator_k.Services.{Services, Command}
use migration_orchestrator_k.World.{World, on_db, read, publish, enqueue, new_id}
use migration_orchestrator_k.Dispatcher.{job_message, dispatch}
use migration_orchestrator_k.Mgn.Loop.{valid_states_for_job}
use migration_orchestrator_k.Mgn.Stale.{on_message_stale}
use migration_orchestrator_k.Client.{valid_states_for_poll}
use migration_orchestrator_k.Poller.Stale.{on_message_outdated, on_message_running}
use migration_orchestrator_k.Poller.Attempts.{Retried}
use migration_orchestrator_k.Rollback.Plans.{get_rollback_plan_lem, undo_commands, intended_state}
use migration_orchestrator_k.Rollback
use migration_orchestrator_k.Rollback.{get_rollback_plan}
use migration_orchestrator_k.Rollback.Outcome.{RolledBack}
use migration_orchestrator_k.Mgn.Results.{Verdict, ack}
use migration_orchestrator_k.Poller.Loop as PollerLoop
use migration_orchestrator_k.Poller.Handlers.{in_progress}
use migration_orchestrator_k.Rollback.Messages.{on_message-RolledBack, on_message_terminal}
use migration_orchestrator_k.Api.Gates.{
  server_job, decide, require_state, ApproveRequest, RejectRequest,
}
use migration_orchestrator_k.Api.Servers.{RegisterServerRequest, register}
use migration_orchestrator_k.Api.GateTable.{approve-Gated, reject-Gated}
use migration_orchestrator_k.Api.GateTable
use migration_orchestrator_k.Api.Batches.{reject_one, loop}
use migration_orchestrator_k.Api.Bulk
use migration_orchestrator_k.Api.GateOutcomes.{Gated, decided}
use migration_orchestrator_k.Api.Text.{lower}
use migration_orchestrator_k.StateManager.Batches.{add_servers_to_batch}
use migration_orchestrator_k.Api.BatchOutcomes.{Sorted, loop-Sorted}
use migration_orchestrator_k.System.Run
use migration_orchestrator_k.System.Run.{Event, run}
use migration_orchestrator_k.System.History.{Extends, run-IsAudited, run-Recorded, run-Extends}
use migration_orchestrator_k.System.Terminal.{run-IsTerminal}

-- An outside world without servers, where every command is taken and every message confirmed.
abbrev pub quiet : Services (Unit {0})
quiet = record {
  command = λ c s. (ok none, s);
  describe_source_servers = λ id s. ok [];
  describe_jobs = λ id s. ok [];
  describe_instance_status = λ id s. ok [];
  confirms = λ s. true;
  uuid4 = λ s. ("job-1", s);
}

abbrev pub row : String → Server
row state = record {
  server_id = "web-1";
  hostname = "web";
  ip_address = "10.0.0.1";
  aws_source_server_id = some "s-1";
  current_state = state;
  previous_state = none;
  assigned_engineer = none;
  aws_account_id = none;
  aws_region = none;
  batch_id = none;
  created_at = 1;
  updated_at = 1;
}

abbrev pub wave : Batch
wave = record {
  batch_id = "wave-1";
  name = "wave";
  description = none;
  created_by = "ann";
  created_at = 1;
  replication_config = none;
  test_launch_config = none;
  cutover_launch_config = none;
}

-- The texts of PostgreSQL's exceptions.
abbrev pub taken_text : String → String → String
taken_text table key = "duplicate key value violates unique constraint"

abbrev pub missing_text : String → String → String
missing_text table key = "violates foreign key constraint"

abbrev pub tables : List Server → Db
tables rows = record {
  servers = rows;
  history = [];
  batches = wave ∷ [];
  now = 2;
  taken_text = taken_text;
  missing_text = missing_text;
}

abbrev pub world : List Server → World (Unit {0})
world rows = record {
  db = tables rows;
  mgn_jobs = [];
  poll_jobs = [];
  rollback_jobs = [];
  mgn_jobs_failed = [];
  poll_jobs_failed = [];
  connected = true;
  outside = tt;
}

-- A message for job `j` on web-1.
abbrev pub message : JobType → Message
message j = job_message "job-1" j (server_job "web-1" (some "s-1"))

pub asks : (j : JobType) → Asks (message j) "web-1" j
unfolding get_item
asks j = record {
  body = _;
  payload = server_job "web-1" (some "s-1");
  has_body = refl;
  has_type = refl;
  has_payload = refl;
  has_server = refl;
}

abbrev pub registration : RegisterServerRequest
registration = record {
  server_id = "web-1";
  hostname = "web";
  ip_address = "10.0.0.1";
  aws_account_id = none;
  aws_region = none;
  assigned_engineer = none;
  batch_id = none;
}

pub apart : (s t : String) → (s == t) ≡ false → s ≢ t
apart s t h e = cc (h, (eq_iff s t).1 e)

pub named : ◌≢◌ {A = String} "web-1" ""
named = apart "web-1" "" refl

pub found :
    (state : String) → find_server "web-1" (world (row state ∷ [])).db.servers ≡ some (row state)
unfolding find_server
found state = refl
