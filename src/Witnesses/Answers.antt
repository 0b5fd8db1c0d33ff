-- ===== src/Witnesses/Answers.antt =====
-- The properties of the API at a concrete input.
use migration_orchestrator_k.Prelude.{String, inr, ◌≡◌, ◌<>◌, refl, none, some, [], ◌∷◌}
use migration_orchestrator_k.Exec.{ok}
use migration_orchestrator_k.States
use migration_orchestrator_k.States.{value, server_state}
use migration_orchestrator_k.Jobs
use migration_orchestrator_k.Jobs.{
  Message, Body, get_item, str, JobType, job_value, parse_job_type, load, required, job_type_of,
  as_text, queue_routing,
}
use migration_orchestrator_k.Db.{find_server, any_of, batch_exists, find_batch}
use migration_orchestrator_k.StateManager.Waves.{InBatch, add_servers_to_batch-InBatch}
use migration_orchestrator_k.World.{World}
use migration_orchestrator_k.Dispatcher.{dispatch}
use migration_orchestrator_k.Api.Gates.{server_job, ApproveRequest, RejectRequest}
use migration_orchestrator_k.Api.Servers.{RegisterServerRequest, register, register_server}
use migration_orchestrator_k.Api.Registration.{SaysTaken, Registered, register_server-Registered}
use migration_orchestrator_k.Services.{Services}
use migration_orchestrator_k.Api.JobRequests
use migration_orchestrator_k.Api.GateTable.{approve-Gated, reject-Gated}
use migration_orchestrator_k.Api.GateTable
use migration_orchestrator_k.Api.Batches.{reject_one, loop}
use migration_orchestrator_k.Api.Bulk
use migration_orchestrator_k.Api.GateOutcomes.{Gated, decided}
use migration_orchestrator_k.Api.Text.{lower, has_part}
use migration_orchestrator_k.StateManager.Batches.{add_servers_to_batch}
use migration_orchestrator_k.Api.BatchOutcomes.{
  Sorted, results, after, done_ids, raised_ids, loop-Sorted, each-results,
}
use migration_orchestrator_k.Witnesses.{quiet, row, tables, world, registration, found, taken_text}

abbrev approval : ApproveRequest
approval = record { engineer_id = "ann"; notes = none }

abbrev rejection : RejectRequest
rejection = record { engineer_id = "ann"; reason = "too early" }

abbrev waiting_world : World (Unit {0})
waiting_world = world (row "AWAITING_REPLICATION_APPROVAL" ∷ [])

approve-Gated_example :
    Gated "web-1" waiting_world
      (value States.awaiting_replication_approval)
      (Unit {0})
      (λ r. dispatch quiet Jobs.start_replication (server_job "web-1" r.aws_source_server_id) (
        decided "web-1" waiting_world
          (value States.awaiting_replication_approval)
          (value States.replication_started)
          "ann"
          ("approve:" <> lower (value States.awaiting_replication_approval))
          none))
      (GateTable.approve quiet GateTable.replication "web-1" approval waiting_world)
approve-Gated_example = approve-Gated quiet GateTable.replication "web-1" approval waiting_world

reject-Gated_example :
    Gated "web-1" waiting_world
      (value States.awaiting_replication_approval)
      (Unit {0})
      (λ r. (
        ok tt,
        decided "web-1" waiting_world
            (value States.awaiting_replication_approval)
            "FAILED"
            "ann"
            ("reject:" <> lower (value States.awaiting_replication_approval))
            (some (("reason", str "too early") ∷ [])),
      ))
      (GateTable.reject GateTable.replication "web-1" rejection waiting_world)
reject-Gated_example = reject-Gated GateTable.replication "web-1" rejection waiting_world

loop-Sorted_example :
    Sorted "PENDING"
      (reject_one rejection "PENDING")
      (row "PENDING" ∷ row "FAILED" ∷ [])
      (world (row "PENDING" ∷ []))
      (loop "PENDING"
        (reject_one rejection "PENDING")
        (row "PENDING" ∷ row "FAILED" ∷ [])
        (world (row "PENDING" ∷ [])))
loop-Sorted_example =
    loop-Sorted "PENDING" (reject_one rejection "PENDING") (row "PENDING" ∷ row "FAILED" ∷ [])
      (world (row "PENDING" ∷ []))

each-results_example :
    let (answer, w) =
      Bulk.each
        (λ (body : RegisterServerRequest). body.server_id)
        register
        (registration ∷ registration ∷ [])
        (world []) in
    (answer.succeeded
      ≡ done_ids
          (λ (body : RegisterServerRequest). body.server_id)
          (results register (registration ∷ registration ∷ []) (world [])))
    × (answer.failed
        ≡ raised_ids
            (λ (body : RegisterServerRequest). body.server_id)
            (results register (registration ∷ registration ∷ []) (world [])))
    × (w ≡ after register (registration ∷ registration ∷ []) (world []))
each-results_example =
    each-results (λ (body : RegisterServerRequest). body.server_id) register
      (registration ∷ registration ∷ []) (world [])

add_servers_to_batch-InBatch_example :
    InBatch "wave-1" "web-1" (row "PENDING") (tables (row "PENDING" ∷ [])) (
      find_server "web-1"
        (add_servers_to_batch "wave-1" ("web-1" ∷ []) (tables (row "PENDING" ∷ []))).1.servers)
unfolding batch_exists find_batch any_of
add_servers_to_batch-InBatch_example =
    add_servers_to_batch-InBatch "wave-1" "web-1" (row "PENDING") (tables (row "PENDING" ∷ []))
      ("web-1" ∷ []) refl (found "PENDING") refl

documented : (table key : String) → SaysTaken (taken_text table key)
unfolding lower has_part
documented table key = inr refl

register_server-Registered_example :
    Registered registration
      (world (row "PENDING" ∷ []))
      (register_server registration (world (row "PENDING" ∷ [])))
register_server-Registered_example =
    register_server-Registered registration (world (row "PENDING" ∷ [])) documented

-- An outside world whose ids are not empty.
abbrev numbering : Services (Unit {0})
numbering = record quiet { uuid4 = λ s. ("job-1", s) }
