-- ===== src/Witnesses/Workers.antt =====
-- The properties of the workers at a concrete input.
use migration_orchestrator_k.Prelude.{
  String, ◌≡◌, ◌≢◌, inl, refl, sym, ap, none, some, List, [], ◌∷◌, map, get_or, arith,
}
use migration_orchestrator_k.Exec.{ok, Result}
use migration_orchestrator_k.Mgn.Loop as MgnLoop
use migration_orchestrator_k.States
use migration_orchestrator_k.States.{value, server_state}
use migration_orchestrator_k.Jobs
use migration_orchestrator_k.Jobs.{
  Message, Body, get_item, str, JobType, job_value, parse_job_type, load, required, job_type_of,
  as_text, queue_routing,
}
use migration_orchestrator_k.Services.{Command}
use migration_orchestrator_k.Mgn.Loop.{valid_states_for_job}
use migration_orchestrator_k.Mgn.Stale.{on_message_stale}
use migration_orchestrator_k.Mgn.Preflight.{launch_test_instance_unready, start_cutover_unready}
use migration_orchestrator_k.Jobs.{get_item, str}
use migration_orchestrator_k.Services.{Services, SourceServer}
use migration_orchestrator_k.Mgn.Results.{nack}
use migration_orchestrator_k.Poller.Delivery.{Followed, dispatch_follow_up-Followed}
use migration_orchestrator_k.Dispatcher.{dispatch_follow_up}
use migration_orchestrator_k.Client.{valid_states_for_poll}
use migration_orchestrator_k.Poller.Stale.{on_message_outdated, on_message_running}
use migration_orchestrator_k.Rollback.Plans.{get_rollback_plan_lem, undo_commands, intended_state}
use migration_orchestrator_k.Rollback
use migration_orchestrator_k.Rollback.{get_rollback_plan}
use migration_orchestrator_k.Rollback.Outcome.{RolledBack}
use migration_orchestrator_k.Mgn.Results.{ack}
use migration_orchestrator_k.Poller.Loop as PollerLoop
use migration_orchestrator_k.Rollback.Messages.{on_message-RolledBack, on_message_terminal}
use migration_orchestrator_k.Api.Gates.{server_job}
use migration_orchestrator_k.Witnesses.{quiet, row, world, message, asks, found, named, apart}

at_replication : "REPLICATION_STARTED" ≡ value States.replication_started
unfolding value
at_replication = refl

at_frozen : "FROZEN" ≡ value States.frozen
unfolding value
at_frozen = refl

at_running : "TEST_INSTANCE_RUNNING" ≡ value States.test_instance_running
unfolding value
at_running = refl

failed-not-pending : ◌≢◌ {A = String} "FAILED" "PENDING"
failed-not-pending = apart "FAILED" "PENDING" refl

replication-not-failed : valid_states_for_poll Jobs.poll_replication_status ≢ some "FAILED"
unfolding valid_states_for_poll
replication-not-failed e = cc

on_message-RolledBack_example :
    RolledBack quiet "web-1" States.replication_started
      (row "REPLICATION_STARTED")
      (world (row "REPLICATION_STARTED" ∷ []))
      (found "REPLICATION_STARTED")
      at_replication
      (omega arith)
      (job_value Jobs.start_replication)
      (Rollback.on_message quiet
        (message Jobs.start_replication)
        (world (row "REPLICATION_STARTED" ∷ [])))
on_message-RolledBack_example =
    on_message-RolledBack quiet (message Jobs.start_replication) "web-1" Jobs.start_replication
      (asks Jobs.start_replication) named (row "REPLICATION_STARTED")
      (world (row "REPLICATION_STARTED" ∷ [])) (found "REPLICATION_STARTED")
      States.replication_started at_replication (omega arith)

on_message_terminal_example :
    Rollback.on_message quiet (message Jobs.start_replication) (world (row "FROZEN" ∷ []))
    ≡ (ok ack, world (row "FROZEN" ∷ []))
on_message_terminal_example =
    on_message_terminal quiet (message Jobs.start_replication) "web-1" Jobs.start_replication
      (asks Jobs.start_replication) named (row "FROZEN") (world (row "FROZEN" ∷ []))
      (found "FROZEN") States.frozen at_frozen (omega arith)

on_message_stale_example :
    MgnLoop.on_message quiet (message Jobs.add_server) (world (row "FAILED" ∷ []))
    ≡ (ok ack, world (row "FAILED" ∷ []))
unfolding valid_states_for_job
on_message_stale_example =
    on_message_stale quiet (message Jobs.add_server) "web-1" Jobs.add_server (asks Jobs.add_server)
      "PENDING" (row "FAILED") (world (row "FAILED" ∷ [])) refl (found "FAILED") failed-not-pending

names_web-1 : get_item (server_job "web-1" (some "s-1")) "server_id" ≡ ok (str "web-1")
unfolding get_item
names_web-1 = refl

-- An outside world whose ids are not empty.
abbrev numbering : Services (Unit {0})
numbering = record quiet { uuid4 = λ s. ("job-1", s) }

polled-replication : valid_states_for_poll Jobs.poll_replication_status ≡ some "REPLICATION_STARTED"
unfolding valid_states_for_poll
polled-replication = refl

dispatch_follow_up-Followed_example :
    Followed quiet "web-1"
      (server_job "web-1" (some "s-1"))
      Jobs.poll_replication_status
      names_web-1
      (world [])
      (dispatch_follow_up quiet Jobs.poll_replication_status
        (server_job "web-1" (some "s-1"))
        (world []))
dispatch_follow_up-Followed_example =
    dispatch_follow_up-Followed quiet "web-1" (server_job "web-1" (some "s-1"))
      Jobs.poll_replication_status names_web-1 (world []) "REPLICATION_STARTED" polled-replication

on_message_outdated_example :
    PollerLoop.on_message quiet (message Jobs.poll_replication_status) (world (row "FAILED" ∷ []))
    ≡ (ok ack, world (row "FAILED" ∷ []))
on_message_outdated_example =
    on_message_outdated quiet (message Jobs.poll_replication_status) "web-1"
      Jobs.poll_replication_status (asks Jobs.poll_replication_status) (row "FAILED")
      (world (row "FAILED" ∷ [])) (found "FAILED") replication-not-failed

on_message_running_example :
    PollerLoop.on_message quiet
      (message Jobs.poll_test_instance_status)
      (world (row "TEST_INSTANCE_RUNNING" ∷ []))
    ≡ (ok ack, world (row "TEST_INSTANCE_RUNNING" ∷ []))
on_message_running_example =
    on_message_running quiet (message Jobs.poll_test_instance_status) "web-1"
      Jobs.poll_test_instance_status (asks Jobs.poll_test_instance_status)
      States.test_instance_running (row "TEST_INSTANCE_RUNNING")
      (world (row "TEST_INSTANCE_RUNNING" ∷ [])) (inl refl) (found "TEST_INSTANCE_RUNNING")
      at_running

abbrev poll : Body
poll = record {
  texts = ("job_type", "poll_replication_status") ∷ [];
  objects = ("payload", server_job "web-1" (some "s-1")) ∷ [];
  numbers = ("attempt", 29) ∷ [];
}

get_rollback_plan_lem_example :
    (map
        (λ (step : String × Command). step.1)
        (get_rollback_plan (value States.cutover_started) (some "s-1")).0
      ≡ undo_commands 14 (some "s-1"))
    × ((get_rollback_plan (value States.cutover_started) (some "s-1")).1 ≡ intended_state 14)
get_rollback_plan_lem_example = get_rollback_plan_lem States.cutover_started (some "s-1")

-- What an outside world reports of a server whose replication has stalled.
abbrev stalled_item : SourceServer
stalled_item = record {
  lifecycle_state = some "STALLED";
  last_cutover_job = none;
  launched_instance = none;
}

abbrev stalled : Services (Unit {0})
stalled = record quiet { describe_source_servers = λ id s. ok (stalled_item ∷ []) }

stalled_not-ready :
    (expected : String)
    → ◌≢◌ {A = String} "STALLED" expected
    → (item : SourceServer) (rest : List SourceServer)
    → stalled.describe_source_servers (str "s-1") tt ≡ ok (item ∷ rest)
    → get_or "UNKNOWN" item.lifecycle_state ≢ expected
stalled_not-ready expected n item rest e = rw (sym (ap first_state e)) n
  where
    first_state : Result (List SourceServer) → String
    first_state (ok (item ∷ rest)) = get_or "UNKNOWN" item.lifecycle_state
    first_state _ = "UNKNOWN"

-- quiet lists no server.
unlisted :
    (expected : String) (item : SourceServer) (rest : List SourceServer)
    → quiet.describe_source_servers (str "s-1") tt ≡ ok (item ∷ rest)
    → get_or "UNKNOWN" item.lifecycle_state ≢ expected
unlisted expected item rest e = cc

launch_test_instance_unready_example :
    MgnLoop.on_message stalled
      (message Jobs.launch_test_instance)
      (world (row "TEST_INSTANCE_LAUNCHING" ∷ []))
    ≡ (ok nack, world (row "TEST_INSTANCE_LAUNCHING" ∷ []))
unfolding asks get_item
launch_test_instance_unready_example =
    launch_test_instance_unready stalled (message Jobs.launch_test_instance) "web-1" (str "s-1")
      (row "TEST_INSTANCE_LAUNCHING") (world (row "TEST_INSTANCE_LAUNCHING" ∷ []))
      (found "TEST_INSTANCE_LAUNCHING") (asks Jobs.launch_test_instance) refl
      (stalled_not-ready "READY_FOR_TEST" (apart "STALLED" "READY_FOR_TEST" refl)) refl

start_cutover_unready_example :
    MgnLoop.on_message quiet (message Jobs.start_cutover) (world (row "CUTOVER_STARTED" ∷ []))
    ≡ (ok nack, world (row "CUTOVER_STARTED" ∷ []))
unfolding asks get_item
start_cutover_unready_example =
    start_cutover_unready quiet (message Jobs.start_cutover) "web-1" (str "s-1")
      (row "CUTOVER_STARTED") (world (row "CUTOVER_STARTED" ∷ [])) (found "CUTOVER_STARTED")
      (asks Jobs.start_cutover) refl (unlisted "READY_FOR_CUTOVER") refl
