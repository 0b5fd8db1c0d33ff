-- ===== src/Rollback.antt =====
-- src/workers/rollback_result.py and src/workers/rollback_worker.py: the rollback worker.
pub mod Plans
pub mod Outcome
pub mod Messages
use migration_orchestrator_k.Prelude.{
  String, ◌<>◌, Option, none, some, Bool, true, false, List, [], ◌∷◌, ◌++◌, ◌==◌, if◌then◌else◌,
}
use migration_orchestrator_k.Exec.{
  exc_text, Result, ok, err, Exec, pure, lift, try_except, ◌>>=◌, ◌>>◌,
}
use migration_orchestrator_k.Jobs.{
  entry, JsonObject, Value, null, str, of_option, truthy, Message, Body, load, get_default, as_text,
}
use migration_orchestrator_k.Db.{Server, any_of}
use migration_orchestrator_k.Services
use migration_orchestrator_k.Services.{Services, Command}
use migration_orchestrator_k.World.{World, call}
use migration_orchestrator_k.Client
use migration_orchestrator_k.Mgn.Results.{Verdict, ack}

pub data RollbackResult : Type 0 where
  rolled_back : RollbackResult
  frozen : String → RollbackResult

-- `result.status.value`
abbrev pub status_value : RollbackResult → String
status_value rolled_back = "rolled_back"
status_value (frozen error) = "frozen"

abbrev pub terminal_states : List String
terminal_states = "FAILED" ∷ "FROZEN" ∷ "CLEANUP_COMPLETE" ∷ []

abbrev pub always_frozen_states : List String
always_frozen_states =
    "CUTOVER_INSTANCE_RUNNING" ∷ "AWAITING_CUTOVER_VALIDATION" ∷ "CUTOVER_FINALIZED"
    ∷ "DISCONNECTING" ∷ "DISCONNECTED" ∷ "AWAITING_ARCHIVE_APPROVAL" ∷ "ARCHIVED"
    ∷ "AWAITING_CLEANUP_APPROVAL" ∷ []

-- The sets of states of the groups 1 to 5.
abbrev pub unprovisioned_states : List String
unprovisioned_states =
    "PENDING" ∷ "AGENT_INSTALLED" ∷ "REPLICATION_CONFIGURED" ∷ "AWAITING_REPLICATION_APPROVAL" ∷ []

abbrev pub replicating_states : List String
replicating_states =
    "REPLICATION_STARTED" ∷ "READY_FOR_TESTING" ∷ "TEST_LAUNCH_TEMPLATE_CONFIGURED"
    ∷ "AWAITING_TEST_LAUNCH_APPROVAL" ∷ []

abbrev pub testing_states : List String
testing_states =
    "TEST_INSTANCE_LAUNCHING" ∷ "TEST_INSTANCE_RUNNING" ∷ "AWAITING_TEST_VALIDATION" ∷ []

abbrev pub tested_states : List String
tested_states =
    "TEST_FINALIZED" ∷ "CUTOVER_LAUNCH_TEMPLATE_CONFIGURED" ∷ "AWAITING_CUTOVER_LAUNCH_APPROVAL"
    ∷ []

abbrev pub cutover_states : List String
cutover_states =
    "CUTOVER_STARTED" ∷ "CUTOVER_SYNC_IN_PROGRESS" ∷ "READY_FOR_CUTOVER_LAUNCH"
    ∷ "CUTOVER_INSTANCE_LAUNCHING" ∷ []

-- A plan: its undo steps, each a description and an AWS call, and the final state it intends.
abbrev pub Plan : Type 0
Plan = List (String × Command) × String

-- One undo step on the server's MGN id; without an id there is nothing to undo.
abbrev pub undo : String → (Value → Command) → Option String → List (String × Command)
undo description action none = []
undo description action (some aws_id) = (description, action (str aws_id)) ∷ []

-- RollbackWorker._get_rollback_plan; the last branch is the unrecognised state.
unfoldable pub get_rollback_plan : String → Option String → Plan
unfolding any_of
get_rollback_plan current_state aws_id =
    if any_of current_state unprovisioned_states
    then ([], "FAILED")
    else if any_of current_state replicating_states
    then (undo "Stop replication" Services.stop_replication aws_id, "FAILED")
    else if any_of current_state testing_states
    then (undo "Terminate test instance" Services.terminate_target_instances aws_id, "FAILED")
    else if any_of current_state tested_states
    then ([], "FAILED")
    else if any_of current_state cutover_states
    then (undo "Terminate cutover instance" Services.terminate_target_instances aws_id, "FROZEN")
    else if any_of current_state always_frozen_states
    then ([], "FROZEN")
    else ([], "FROZEN")

-- `final_state = "FROZEN" if result.status == FROZEN else intended_final_state`
abbrev pub final_state : RollbackResult → String → String
final_state rolled_back intended = intended
final_state (frozen error) intended = "FROZEN"

-- `if result.error:`
abbrev pub error_entry : RollbackResult → JsonObject
error_entry rolled_back = []
error_entry (frozen error) = if error == "" then [] else ("rollback_error", str error) ∷ []

abbrev pub rollback_metadata : String → String → RollbackResult → JsonObject
rollback_metadata job_type failed_state result =
    ("failed_job_type", str job_type)
    ∷ ("failed_at_state", str failed_state)
    ∷ ("rollback_status", str (status_value result))
    ∷ error_entry result

module _ {S : Type 0} where
  -- RollbackWorker._finalise
  unfoldable pub finalise :
      String → String → String → String → RollbackResult → Exec (World S) (Unit {0})
  finalise server_id final job_type failed_state result =
      Client.advance_state server_id final none (some ("rollback:" <> job_type))
        (some (rollback_metadata job_type failed_state result))

module _ {S : Type 0} (aws : Services S) where
  -- RollbackWorker._execute_plan stops at the first step that raises.
  abbrev pub next_step :
      String
      → Exec (World S) RollbackResult
      → Result (Option String)
      → Exec (World S) RollbackResult
  next_step description rest (ok reply) = rest
  next_step description rest (err e) =
      pure (frozen ("Undo step '" <> description <> "' failed: " <> exc_text e))

  unfoldable pub execute_plan : List (String × Command) → Exec (World S) RollbackResult
  unfolding call exc_text
  execute_plan [] w = (ok rolled_back, w)
  execute_plan ((description, action) ∷ rest) w =
      let (r, w') = call aws action w in next_step description (execute_plan rest) r w'

  -- The body of `try` once the server's row is read.
  unfoldable pub roll_back : String → String → Server → Exec (World S) Verdict
  unfolding any_of get_rollback_plan execute_plan finalise
  roll_back server_id job_type server =
      if any_of server.current_state terminal_states then pure ack else do
        let (plan, intended) = get_rollback_plan server.current_state server.aws_source_server_id
        result ← execute_plan plan
        finalise server_id (final_state result intended) job_type server.current_state result
        pure ack

  abbrev pub without_default : Option JsonObject → JsonObject
  without_default none = []
  without_default (some payload) = payload

  abbrev pub job_type_or_unknown : Option String → String
  job_type_or_unknown none = "unknown"
  job_type_or_unknown (some job_type) = job_type

  unfoldable pub process : Message → Exec (World S) Verdict
  unfolding roll_back
  process message = do
    body ← lift (load message)
    let server_id = get_default (without_default (entry body.objects "payload")) "server_id" null
    if truthy server_id
        then (do
          id ← lift (as_text server_id)
          server ← Client.get_server id
          roll_back id (job_type_or_unknown (entry body.texts "job_type")) server)
        else pure ack

  -- RollbackWorker._on_message: an exception is acknowledged too.
  unfoldable pub on_message : Message → Exec (World S) Verdict
  unfolding process
  on_message message = try_except (process message) (λ e. pure ack)
