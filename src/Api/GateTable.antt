-- ===== src/Api/GateTable.antt =====
-- The seven gates as a table, and what their endpoints do.
use migration_orchestrator_k.Prelude.{String, ◌<>◌, inl, inr, refl, some, [], ◌∷◌, arith}
use migration_orchestrator_k.Exec.{Exec, ok}
use migration_orchestrator_k.States
use migration_orchestrator_k.States.{ServerState, value}
use migration_orchestrator_k.Transitions.Validate.{NamesEdge}
use migration_orchestrator_k.Jobs
use migration_orchestrator_k.Jobs.{JobType, str}
use migration_orchestrator_k.Services.{Services}
use migration_orchestrator_k.World.{World}
use migration_orchestrator_k.Dispatcher.{dispatch}
use migration_orchestrator_k.Api.Text.{lower}
use migration_orchestrator_k.Api.Gates.{ApproveRequest, RejectRequest, notes_metadata, server_job}
use migration_orchestrator_k.Api.Gates
use migration_orchestrator_k.Api.GateOutcomes.{
  Gated, decided, approve_gate-Gated, reject_gate-Gated,
}

pub data Gate : Type 0 where
  replication test_launch test_validation cutover_launch cutover_validation archive cleanup : Gate

-- The state in which a server waits for the gate, and the state after an approval.
abbrev pub waiting : Gate → ServerState
waiting replication = States.awaiting_replication_approval
waiting test_launch = States.awaiting_test_launch_approval
waiting test_validation = States.awaiting_test_validation
waiting cutover_launch = States.awaiting_cutover_launch_approval
waiting cutover_validation = States.awaiting_cutover_validation
waiting archive = States.awaiting_archive_approval
waiting cleanup = States.awaiting_cleanup_approval

abbrev pub approved : Gate → ServerState
approved replication = States.replication_started
approved test_launch = States.test_instance_launching
approved test_validation = States.test_finalized
approved cutover_launch = States.cutover_started
approved cutover_validation = States.cutover_finalized
approved archive = States.archived
approved cleanup = States.cleanup_complete

-- The job that an approval starts.
abbrev pub job : Gate → JobType
job replication = Jobs.start_replication
job test_launch = Jobs.launch_test_instance
job test_validation = Jobs.finalize_test
job cutover_launch = Jobs.start_cutover
job cutover_validation = Jobs.finalize_cutover
job archive = Jobs.archive_source_server
job cleanup = Jobs.delete_replication_components

approve_edge : (g : Gate) → NamesEdge (value (waiting g)) (value (approved g))
approve_edge replication = record {
  from = States.awaiting_replication_approval;
  to = States.replication_started;
  from_named = refl;
  to_named = refl;
  edge = (omega arith, inl refl);
}
approve_edge test_launch = record {
  from = States.awaiting_test_launch_approval;
  to = States.test_instance_launching;
  from_named = refl;
  to_named = refl;
  edge = (omega arith, inl refl);
}
approve_edge test_validation = record {
  from = States.awaiting_test_validation;
  to = States.test_finalized;
  from_named = refl;
  to_named = refl;
  edge = (omega arith, inl refl);
}
approve_edge cutover_launch = record {
  from = States.awaiting_cutover_launch_approval;
  to = States.cutover_started;
  from_named = refl;
  to_named = refl;
  edge = (omega arith, inl refl);
}
approve_edge cutover_validation = record {
  from = States.awaiting_cutover_validation;
  to = States.cutover_finalized;
  from_named = refl;
  to_named = refl;
  edge = (omega arith, inl refl);
}
approve_edge archive = record {
  from = States.awaiting_archive_approval;
  to = States.archived;
  from_named = refl;
  to_named = refl;
  edge = (omega arith, inl refl);
}
approve_edge cleanup = record {
  from = States.awaiting_cleanup_approval;
  to = States.cleanup_complete;
  from_named = refl;
  to_named = refl;
  edge = (omega arith, inl refl);
}

reject_edge : (g : Gate) → NamesEdge (value (waiting g)) "FAILED"
unfolding value
reject_edge replication = record {
  from = States.awaiting_replication_approval;
  to = States.failed;
  from_named = refl;
  to_named = refl;
  edge = (omega arith, inr (inl refl));
}
reject_edge test_launch = record {
  from = States.awaiting_test_launch_approval;
  to = States.failed;
  from_named = refl;
  to_named = refl;
  edge = (omega arith, inr (inl refl));
}
reject_edge test_validation = record {
  from = States.awaiting_test_validation;
  to = States.failed;
  from_named = refl;
  to_named = refl;
  edge = (omega arith, inr (inl refl));
}
reject_edge cutover_launch = record {
  from = States.awaiting_cutover_launch_approval;
  to = States.failed;
  from_named = refl;
  to_named = refl;
  edge = (omega arith, inr (inl refl));
}
reject_edge cutover_validation = record {
  from = States.awaiting_cutover_validation;
  to = States.failed;
  from_named = refl;
  to_named = refl;
  edge = (omega arith, inr (inl refl));
}
reject_edge archive = record {
  from = States.awaiting_archive_approval;
  to = States.failed;
  from_named = refl;
  to_named = refl;
  edge = (omega arith, inr (inl refl));
}
reject_edge cleanup = record {
  from = States.awaiting_cleanup_approval;
  to = States.failed;
  from_named = refl;
  to_named = refl;
  edge = (omega arith, inr (inl refl));
}

module _ {S : Type 0} (aws : Services S) where
  -- The endpoints of a gate.
  abbrev pub approve : Gate → String → ApproveRequest → Exec (World S) (Unit {0})
  approve replication = Gates.approve_replication aws
  approve test_launch = Gates.approve_test_launch aws
  approve test_validation = Gates.approve_test_validation aws
  approve cutover_launch = Gates.approve_cutover_launch aws
  approve cutover_validation = Gates.approve_cutover_validation aws
  approve archive = Gates.approve_archive aws
  approve cleanup = Gates.approve_cleanup aws

  -- Every approval endpoint: 404 for an unknown server and 409 for a server that does not wait at
  -- the gate, both with nothing changed; else the server makes the gate's move in the engineer's
  -- name, with one audit record, and after that the gate's job is dispatched for it.
  pub approve-Gated :
      (g : Gate) (id : String) (body : ApproveRequest) (w : World S)
      → Gated id w
          (value (waiting g))
          (Unit {0})
          (λ r. dispatch aws (job g) (server_job id r.aws_source_server_id) (
            decided id w
              (value (waiting g))
              (value (approved g))
              body.engineer_id
              ("approve:" <> lower (value (waiting g)))
              (notes_metadata body.notes)))
          (approve g id body w)
  unfolding value Gates.approve_replication Gates.approve_test_launch Gates.approve_test_validation
      Gates.approve_cutover_launch Gates.approve_cutover_validation Gates.approve_archive
      Gates.approve_cleanup
  approve-Gated replication id body w =
      approve_gate-Gated id w _ aws body _ _ (approve_edge replication)
  approve-Gated test_launch id body w =
      approve_gate-Gated id w _ aws body _ _ (approve_edge test_launch)
  approve-Gated test_validation id body w =
      approve_gate-Gated id w _ aws body _ _ (approve_edge test_validation)
  approve-Gated cutover_launch id body w =
      approve_gate-Gated id w _ aws body _ _ (approve_edge cutover_launch)
  approve-Gated cutover_validation id body w =
      approve_gate-Gated id w _ aws body _ _ (approve_edge cutover_validation)
  approve-Gated archive id body w = approve_gate-Gated id w _ aws body _ _ (approve_edge archive)
  approve-Gated cleanup id body w = approve_gate-Gated id w _ aws body _ _ (approve_edge cleanup)

module _ {S : Type 0} where
  abbrev pub reject : Gate → String → RejectRequest → Exec (World S) (Unit {0})
  reject replication = Gates.reject_replication
  reject test_launch = Gates.reject_test_launch
  reject test_validation = Gates.reject_test_validation
  reject cutover_launch = Gates.reject_cutover_launch
  reject cutover_validation = Gates.reject_cutover_validation
  reject archive = Gates.reject_archive
  reject cleanup = Gates.reject_cleanup

  -- Every rejection endpoint: 404 for an unknown server and 409 for a server that does not wait at
  -- the gate, both with nothing changed; else the server goes to FAILED in the engineer's name,
  -- with one audit record that holds the reason, and no message is sent.
  pub reject-Gated :
      (g : Gate) (id : String) (body : RejectRequest) (w : World S)
      → Gated id w
          (value (waiting g))
          (Unit {0})
          (λ r. (
            ok tt,
            decided id w
                (value (waiting g))
                "FAILED"
                body.engineer_id
                ("reject:" <> lower (value (waiting g)))
                (some (("reason", str body.reason) ∷ [])),
          ))
          (reject g id body w)
  unfolding value Gates.reject_replication Gates.reject_test_launch Gates.reject_test_validation
      Gates.reject_cutover_launch Gates.reject_cutover_validation Gates.reject_archive
      Gates.reject_cleanup
  reject-Gated replication id body w = reject_gate-Gated id w _ body (reject_edge replication)
  reject-Gated test_launch id body w = reject_gate-Gated id w _ body (reject_edge test_launch)
  reject-Gated test_validation id body w =
      reject_gate-Gated id w _ body (reject_edge test_validation)
  reject-Gated cutover_launch id body w = reject_gate-Gated id w _ body (reject_edge cutover_launch)
  reject-Gated cutover_validation id body w =
      reject_gate-Gated id w _ body (reject_edge cutover_validation)
  reject-Gated archive id body w = reject_gate-Gated id w _ body (reject_edge archive)
  reject-Gated cleanup id body w = reject_gate-Gated id w _ body (reject_edge cleanup)
