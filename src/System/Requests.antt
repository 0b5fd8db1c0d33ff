-- ===== src/System/Requests.antt =====
-- The requests of the Orchestrator API that change something, each with its endpoint.
use migration_orchestrator_k.Prelude.{String, Option, List}
use migration_orchestrator_k.Services.{Services}
use migration_orchestrator_k.World.{World}
use migration_orchestrator_k.Api.Gates
use migration_orchestrator_k.Api.Gates.{ApproveRequest, RejectRequest}
use migration_orchestrator_k.Api.Servers
use migration_orchestrator_k.Api.Servers.{
  RegisterServerRequest, ConfigureReplicationRequest, ConfigureLaunchRequest,
}
use migration_orchestrator_k.Api.Bulk
use migration_orchestrator_k.Api.Bulk.{BulkStartItem}
use migration_orchestrator_k.Api.Batches
use migration_orchestrator_k.Api.BatchGates

pub data Request : Type 0 where
  register_server : RegisterServerRequest → Request
  start_server : String → String → Request
  configure_replication batch_configure_replication : String → ConfigureReplicationRequest → Request
  configure_test_launch configure_cutover_launch : String → ConfigureLaunchRequest → Request
  batch_configure_test_launch batch_configure_cutover_launch :
      String → ConfigureLaunchRequest → Request
  reset_server : String → String → Option String → Request
  approve_replication approve_test_launch : String → ApproveRequest → Request
  approve_test_validation approve_cutover_launch : String → ApproveRequest → Request
  approve_cutover_validation approve_archive approve_cleanup : String → ApproveRequest → Request
  batch_approve_replication batch_approve_test_launch : String → ApproveRequest → Request
  batch_approve_test_validation batch_approve_cutover_launch : String → ApproveRequest → Request
  batch_approve_cutover_validation batch_approve_archive : String → ApproveRequest → Request
  batch_approve_cleanup : String → ApproveRequest → Request
  reject_replication reject_test_launch : String → RejectRequest → Request
  reject_test_validation reject_cutover_launch : String → RejectRequest → Request
  reject_cutover_validation reject_archive reject_cleanup : String → RejectRequest → Request
  batch_reject_replication batch_reject_test_launch : String → RejectRequest → Request
  batch_reject_test_validation batch_reject_cutover_launch : String → RejectRequest → Request
  batch_reject_cutover_validation batch_reject_archive : String → RejectRequest → Request
  batch_reject_cleanup : String → RejectRequest → Request
  create_batch : String → String → String → Option String → Request
  add_servers_to_batch : String → List String → Request
  bulk_register : List RegisterServerRequest → Request
  bulk_start : List BulkStartItem → Request

module _ {S : Type 0} (aws : Services S) where
  -- What a request leaves behind, whatever it answers.
  unfoldable pub serve : Request → World S → World S
  serve (register_server a) w = (Servers.register_server a w).1
  serve (start_server a b) w = (Servers.start_server aws a b w).1
  serve (configure_replication a b) w = (Servers.configure_replication aws a b w).1
  serve (configure_test_launch a b) w = (Servers.configure_test_launch aws a b w).1
  serve (configure_cutover_launch a b) w = (Servers.configure_cutover_launch aws a b w).1
  serve (reset_server a b c) w = (Servers.reset_server a b c w).1
  serve (approve_replication a b) w = (Gates.approve_replication aws a b w).1
  serve (reject_replication a b) w = (Gates.reject_replication a b w).1
  serve (approve_test_launch a b) w = (Gates.approve_test_launch aws a b w).1
  serve (reject_test_launch a b) w = (Gates.reject_test_launch a b w).1
  serve (approve_test_validation a b) w = (Gates.approve_test_validation aws a b w).1
  serve (reject_test_validation a b) w = (Gates.reject_test_validation a b w).1
  serve (approve_cutover_launch a b) w = (Gates.approve_cutover_launch aws a b w).1
  serve (reject_cutover_launch a b) w = (Gates.reject_cutover_launch a b w).1
  serve (approve_cutover_validation a b) w = (Gates.approve_cutover_validation aws a b w).1
  serve (reject_cutover_validation a b) w = (Gates.reject_cutover_validation a b w).1
  serve (approve_archive a b) w = (Gates.approve_archive aws a b w).1
  serve (reject_archive a b) w = (Gates.reject_archive a b w).1
  serve (approve_cleanup a b) w = (Gates.approve_cleanup aws a b w).1
  serve (reject_cleanup a b) w = (Gates.reject_cleanup a b w).1
  serve (create_batch a b c d) w = (Batches.create_batch a b c d w).1
  serve (add_servers_to_batch a b) w = (Batches.add_servers_to_batch a b w).1
  serve (batch_configure_replication a b) w = (Batches.batch_configure_replication aws a b w).1
  serve (batch_configure_test_launch a b) w = (Batches.batch_configure_test_launch aws a b w).1
  serve (batch_configure_cutover_launch a b) w =
      (Batches.batch_configure_cutover_launch aws a b w).1
  serve (batch_approve_replication a b) w = (BatchGates.batch_approve_replication aws a b w).1
  serve (batch_reject_replication a b) w = (BatchGates.batch_reject_replication a b w).1
  serve (batch_approve_test_launch a b) w = (BatchGates.batch_approve_test_launch aws a b w).1
  serve (batch_reject_test_launch a b) w = (BatchGates.batch_reject_test_launch a b w).1
  serve (batch_approve_test_validation a b) w =
      (BatchGates.batch_approve_test_validation aws a b w).1
  serve (batch_reject_test_validation a b) w = (BatchGates.batch_reject_test_validation a b w).1
  serve (batch_approve_cutover_launch a b) w = (BatchGates.batch_approve_cutover_launch aws a b w).1
  serve (batch_reject_cutover_launch a b) w = (BatchGates.batch_reject_cutover_launch a b w).1
  serve (batch_approve_cutover_validation a b) w =
      (BatchGates.batch_approve_cutover_validation aws a b w).1
  serve (batch_reject_cutover_validation a b) w =
      (BatchGates.batch_reject_cutover_validation a b w).1
  serve (batch_approve_archive a b) w = (BatchGates.batch_approve_archive aws a b w).1
  serve (batch_reject_archive a b) w = (BatchGates.batch_reject_archive a b w).1
  serve (batch_approve_cleanup a b) w = (BatchGates.batch_approve_cleanup aws a b w).1
  serve (batch_reject_cleanup a b) w = (BatchGates.batch_reject_cleanup a b w).1
  serve (bulk_register a) w = (Bulk.bulk_register a w).1
  serve (bulk_start a) w = (Bulk.bulk_start aws a w).1
