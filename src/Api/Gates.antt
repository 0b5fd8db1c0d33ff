-- ===== src/Api/Gates.antt =====
-- src/api/routes/servers.py: the private helpers and the approval gates.
use migration_orchestrator_k.Prelude.{
  String, ◌<>◌, Option, none, some, [], ◌∷◌, ◌==◌, if◌then◌else◌,
}
use migration_orchestrator_k.Exec.{
  Exc, value_error, http, Exec, raise, try_except, guard, pure, ◌>>=◌, ◌>>◌,
}
use migration_orchestrator_k.Jobs
use migration_orchestrator_k.Jobs.{JobType, JsonObject, str, of_option}
use migration_orchestrator_k.Db.{Server}
use migration_orchestrator_k.StateManager.Moves
use migration_orchestrator_k.StateManager.Servers
use migration_orchestrator_k.Services.{Services}
use migration_orchestrator_k.World.{World, on_db}
use migration_orchestrator_k.Dispatcher.{dispatch}
use migration_orchestrator_k.Api.Text.{lower}

-- ApproveRequest and RejectRequest.
pub record ApproveRequest : Type 0 where
  pub engineer_id : String
  pub notes : Option String

pub record RejectRequest : Type 0 where
  pub engineer_id : String
  pub reason : String

-- `except ValueError: raise HTTPException(404)`
abbrev pub to_404 {ℓ} : {S A : Type ℓ} → Exc → Exec S A
to_404 (value_error message) = raise (http 404)
to_404 e = raise e

-- {"notes": body.notes} if body.notes else None
abbrev pub notes_metadata : Option String → Option JsonObject
notes_metadata none = none
notes_metadata (some notes) = if notes == "" then none else some (("notes", str notes) ∷ [])

-- The payload of a follow-up job.
abbrev pub server_job : String → Option String → JsonObject
server_job server_id aws_id =
    ("server_id", str server_id) ∷ ("aws_source_server_id", of_option aws_id) ∷ []

module _ {S : Type 0} where
  unfoldable pub get_server_or_404 : String → Exec (World S) Server
  get_server_or_404 server_id = try_except (on_db (Servers.get_server server_id)) to_404

  -- 409 where the server is not in the expected state.
  unfoldable pub require_state : String → String → Exec (World S) Server
  unfolding get_server_or_404
  require_state server_id expected = do
    server ← get_server_or_404 server_id
    guard (server.current_state == expected) (http 409)
    pure server

  -- A move in an engineer's name.
  unfoldable pub decide :
      String → String → String → String → Option JsonObject → Exec (World S) (Unit {0})
  decide server_id to_state engineer_id job_type metadata =
      on_db (Moves.advance_state server_id to_state engineer_id none (some job_type) metadata)

  unfoldable pub reject_gate : String → RejectRequest → String → Exec (World S) (Unit {0})
  unfolding lower
  reject_gate server_id body expected_state = do
    require_state server_id expected_state
    decide server_id "FAILED" body.engineer_id ("reject:" <> lower expected_state)
        (some (("reason", str body.reason) ∷ []))

  -- The seven rejection endpoints.
  unfoldable pub reject_replication : String → RejectRequest → Exec (World S) (Unit {0})
  reject_replication server_id body = reject_gate server_id body "AWAITING_REPLICATION_APPROVAL"

  unfoldable pub reject_test_launch : String → RejectRequest → Exec (World S) (Unit {0})
  reject_test_launch server_id body = reject_gate server_id body "AWAITING_TEST_LAUNCH_APPROVAL"

  unfoldable pub reject_test_validation : String → RejectRequest → Exec (World S) (Unit {0})
  reject_test_validation server_id body = reject_gate server_id body "AWAITING_TEST_VALIDATION"

  unfoldable pub reject_cutover_launch : String → RejectRequest → Exec (World S) (Unit {0})
  reject_cutover_launch server_id body =
      reject_gate server_id body "AWAITING_CUTOVER_LAUNCH_APPROVAL"

  unfoldable pub reject_cutover_validation : String → RejectRequest → Exec (World S) (Unit {0})
  reject_cutover_validation server_id body =
      reject_gate server_id body "AWAITING_CUTOVER_VALIDATION"

  unfoldable pub reject_archive : String → RejectRequest → Exec (World S) (Unit {0})
  reject_archive server_id body = reject_gate server_id body "AWAITING_ARCHIVE_APPROVAL"

  unfoldable pub reject_cleanup : String → RejectRequest → Exec (World S) (Unit {0})
  reject_cleanup server_id body = reject_gate server_id body "AWAITING_CLEANUP_APPROVAL"

module _ {S : Type 0} (aws : Services S) where
  unfoldable pub approve_gate :
      String → ApproveRequest → String → String → JobType → Exec (World S) (Unit {0})
  unfolding lower
  approve_gate server_id body expected_state next_state job_type = do
    server ← require_state server_id expected_state
    decide server_id next_state body.engineer_id ("approve:" <> lower expected_state)
        (notes_metadata body.notes)
    dispatch aws job_type (server_job server_id server.aws_source_server_id)

  -- The seven approval endpoints.
  unfoldable pub approve_replication : String → ApproveRequest → Exec (World S) (Unit {0})
  approve_replication server_id body =
      approve_gate server_id body "AWAITING_REPLICATION_APPROVAL" "REPLICATION_STARTED"
        Jobs.start_replication

  unfoldable pub approve_test_launch : String → ApproveRequest → Exec (World S) (Unit {0})
  approve_test_launch server_id body =
      approve_gate server_id body "AWAITING_TEST_LAUNCH_APPROVAL" "TEST_INSTANCE_LAUNCHING"
        Jobs.launch_test_instance

  unfoldable pub approve_test_validation : String → ApproveRequest → Exec (World S) (Unit {0})
  approve_test_validation server_id body =
      approve_gate server_id body "AWAITING_TEST_VALIDATION" "TEST_FINALIZED" Jobs.finalize_test

  unfoldable pub approve_cutover_launch : String → ApproveRequest → Exec (World S) (Unit {0})
  approve_cutover_launch server_id body =
      approve_gate server_id body "AWAITING_CUTOVER_LAUNCH_APPROVAL" "CUTOVER_STARTED"
        Jobs.start_cutover

  unfoldable pub approve_cutover_validation : String → ApproveRequest → Exec (World S) (Unit {0})
  approve_cutover_validation server_id body =
      approve_gate server_id body "AWAITING_CUTOVER_VALIDATION" "CUTOVER_FINALIZED"
        Jobs.finalize_cutover

  unfoldable pub approve_archive : String → ApproveRequest → Exec (World S) (Unit {0})
  approve_archive server_id body =
      approve_gate server_id body "AWAITING_ARCHIVE_APPROVAL" "ARCHIVED" Jobs.archive_source_server

  unfoldable pub approve_cleanup : String → ApproveRequest → Exec (World S) (Unit {0})
  approve_cleanup server_id body =
      approve_gate server_id body "AWAITING_CLEANUP_APPROVAL" "CLEANUP_COMPLETE"
        Jobs.delete_replication_components
