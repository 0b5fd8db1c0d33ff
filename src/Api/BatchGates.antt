-- ===== src/Api/BatchGates.antt =====
-- src/api/routes/batches.py: the approval gates of a batch.
use migration_orchestrator_k.Prelude.{String}
use migration_orchestrator_k.Exec.{Exec}
use migration_orchestrator_k.Jobs
use migration_orchestrator_k.Services.{Services}
use migration_orchestrator_k.World.{World}
use migration_orchestrator_k.Api.Gates.{ApproveRequest, RejectRequest}
use migration_orchestrator_k.Api.Batches.{
  BatchActionResponse, batch_approve_gate, batch_reject_gate,
}

module _ {S : Type 0} where
  unfoldable pub batch_reject_replication :
      String → RejectRequest → Exec (World S) BatchActionResponse
  unfolding batch_reject_gate
  batch_reject_replication batch_id body =
      batch_reject_gate batch_id body "AWAITING_REPLICATION_APPROVAL"

  unfoldable pub batch_reject_test_launch :
      String → RejectRequest → Exec (World S) BatchActionResponse
  unfolding batch_reject_gate
  batch_reject_test_launch batch_id body =
      batch_reject_gate batch_id body "AWAITING_TEST_LAUNCH_APPROVAL"

  unfoldable pub batch_reject_test_validation :
      String → RejectRequest → Exec (World S) BatchActionResponse
  unfolding batch_reject_gate
  batch_reject_test_validation batch_id body =
      batch_reject_gate batch_id body "AWAITING_TEST_VALIDATION"

  unfoldable pub batch_reject_cutover_launch :
      String → RejectRequest → Exec (World S) BatchActionResponse
  unfolding batch_reject_gate
  batch_reject_cutover_launch batch_id body =
      batch_reject_gate batch_id body "AWAITING_CUTOVER_LAUNCH_APPROVAL"

  unfoldable pub batch_reject_cutover_validation :
      String → RejectRequest → Exec (World S) BatchActionResponse
  unfolding batch_reject_gate
  batch_reject_cutover_validation batch_id body =
      batch_reject_gate batch_id body "AWAITING_CUTOVER_VALIDATION"

  unfoldable pub batch_reject_archive : String → RejectRequest → Exec (World S) BatchActionResponse
  unfolding batch_reject_gate
  batch_reject_archive batch_id body = batch_reject_gate batch_id body "AWAITING_ARCHIVE_APPROVAL"

  unfoldable pub batch_reject_cleanup : String → RejectRequest → Exec (World S) BatchActionResponse
  unfolding batch_reject_gate
  batch_reject_cleanup batch_id body = batch_reject_gate batch_id body "AWAITING_CLEANUP_APPROVAL"

module _ {S : Type 0} (aws : Services S) where
  unfoldable pub batch_approve_replication :
      String → ApproveRequest → Exec (World S) BatchActionResponse
  unfolding batch_approve_gate
  batch_approve_replication batch_id body =
      batch_approve_gate aws batch_id body "AWAITING_REPLICATION_APPROVAL" "REPLICATION_STARTED"
        Jobs.start_replication

  unfoldable pub batch_approve_test_launch :
      String → ApproveRequest → Exec (World S) BatchActionResponse
  unfolding batch_approve_gate
  batch_approve_test_launch batch_id body =
      batch_approve_gate aws batch_id body "AWAITING_TEST_LAUNCH_APPROVAL" "TEST_INSTANCE_LAUNCHING"
        Jobs.launch_test_instance

  unfoldable pub batch_approve_test_validation :
      String → ApproveRequest → Exec (World S) BatchActionResponse
  unfolding batch_approve_gate
  batch_approve_test_validation batch_id body =
      batch_approve_gate aws batch_id body "AWAITING_TEST_VALIDATION" "TEST_FINALIZED"
        Jobs.finalize_test

  unfoldable pub batch_approve_cutover_launch :
      String → ApproveRequest → Exec (World S) BatchActionResponse
  unfolding batch_approve_gate
  batch_approve_cutover_launch batch_id body =
      batch_approve_gate aws batch_id body "AWAITING_CUTOVER_LAUNCH_APPROVAL" "CUTOVER_STARTED"
        Jobs.start_cutover

  unfoldable pub batch_approve_cutover_validation :
      String → ApproveRequest → Exec (World S) BatchActionResponse
  unfolding batch_approve_gate
  batch_approve_cutover_validation batch_id body =
      batch_approve_gate aws batch_id body "AWAITING_CUTOVER_VALIDATION" "CUTOVER_FINALIZED"
        Jobs.finalize_cutover

  unfoldable pub batch_approve_archive :
      String → ApproveRequest → Exec (World S) BatchActionResponse
  unfolding batch_approve_gate
  batch_approve_archive batch_id body =
      batch_approve_gate aws batch_id body "AWAITING_ARCHIVE_APPROVAL" "ARCHIVED"
        Jobs.archive_source_server

  unfoldable pub batch_approve_cleanup :
      String → ApproveRequest → Exec (World S) BatchActionResponse
  unfolding batch_approve_gate
  batch_approve_cleanup batch_id body =
      batch_approve_gate aws batch_id body "AWAITING_CLEANUP_APPROVAL" "CLEANUP_COMPLETE"
        Jobs.delete_replication_components
