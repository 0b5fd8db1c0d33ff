-- ===== src/Witnesses/Rest.antt =====
-- The properties of where the workers stop at a concrete input.
use migration_orchestrator_k.Prelude.{
  ◌≡◌, ◌≤◌, ◌*◌, inl, refl, sym, ap, some, some_inj, none, Bool, true, false, ◌==◌, if◌then◌else◌,
  List, [], ◌∷◌, arith,
}
use mathlib.Core.List.{Memᴰ, flatten}
use migration_orchestrator_k.Exec.Adds.{or_zero}
use migration_orchestrator_k.Jobs
use migration_orchestrator_k.Jobs.{job_value, parse_job_type, job_type_of, required}
use migration_orchestrator_k.States
use migration_orchestrator_k.States.{ServerState, value}
use migration_orchestrator_k.Transitions.Diagram.{stage}
use migration_orchestrator_k.StateManager.Frozen.{value_injective}
use migration_orchestrator_k.System.Requests
use migration_orchestrator_k.System.Unreached.{IsEarly, AllEarly, run-AllEarly}
use migration_orchestrator_k.Db.{find_server}
use migration_orchestrator_k.StateManager.Change.{life}
use migration_orchestrator_k.Services.{Services}
use migration_orchestrator_k.World.{World}
use migration_orchestrator_k.Mgn.Loop as MgnLoop
use migration_orchestrator_k.Poller.Loop as PollerLoop
use migration_orchestrator_k.System.Outage.{IsDown}
use migration_orchestrator_k.System.Outage.Quiet.{Untouched, on_message-Untouched}
use migration_orchestrator_k.Exec.{err, aws_error}
use migration_orchestrator_k.Api.GateTable
use migration_orchestrator_k.Api.GateTable.{waiting}
use migration_orchestrator_k.System.Run
use migration_orchestrator_k.System.Run.{Event, run}
use migration_orchestrator_k.System.Approval.{Waits, run-Waits, run-Stalls}
use migration_orchestrator_k.System.Load.{load, message_cost}
use migration_orchestrator_k.System.Load.Rest.{turns_taken}
use migration_orchestrator_k.System.Load.Rounds.{Round, IsDrained, run-IsDrained}
use migration_orchestrator_k.System.Load.Limit.{waiting_messages, run_limited}
use migration_orchestrator_k.Witnesses.{quiet, row, world, message}

-- Every worker once.
abbrev turns : List (Event (Unit {0}))
turns = Run.mgn_turn ∷ Run.poll_turn ∷ Run.rollback_mgn_turn ∷ Run.rollback_poll_turn ∷ []

-- A job to start the replication of a server that waits for the approval of it.
abbrev early : World (Unit {0})
early = record (world (row "AWAITING_REPLICATION_APPROVAL" ∷ [])) {
  mgn_jobs = message Jobs.start_replication ∷ [];
}

run-Waits_example :
    Waits
      (waiting GateTable.replication)
      (life (find_server "web-1" (run quiet turns early).db.servers))
unfolding value find_server
run-Waits_example =
    run-Waits quiet GateTable.replication "web-1" turns early (tt, (tt, (tt, (tt, tt)))) refl

run_limited_example : turns_taken quiet turns early ≤ 1924 * waiting_messages early
run_limited_example = run_limited quiet turns early (tt, (tt, (tt, (tt, tt))))

-- A job to archive a server, which the MGN worker asks of MGN.
abbrev archiving : World (Unit {0})
archiving = record (world (row "ARCHIVED" ∷ [])) {
  mgn_jobs = message Jobs.archive_source_server ∷ [];
}

abbrev round : Round turns
round = record {
  automatic = (tt, (tt, (tt, (tt, tt))));
  mgn = Memᴰ.head refl;
  poll = Memᴰ.tail (Memᴰ.head refl);
  rollback_mgn = Memᴰ.tail (Memᴰ.tail (Memᴰ.head refl));
  rollback_poll = Memᴰ.tail (Memᴰ.tail (Memᴰ.tail (Memᴰ.head refl)));
}

run-IsDrained_example : IsDrained (run quiet (flatten (turns ∷ turns ∷ [])) archiving)
unfolding load message_cost or_zero Jobs.load required job_type_of parse_job_type job_value
run-IsDrained_example =
    run-IsDrained quiet (turns ∷ turns ∷ []) archiving (round, (round, tt)) (omega arith)

-- A poll for phase 2 of a server whose test instance runs.
abbrev validating : World (Unit {0})
validating = record (world (row "TEST_INSTANCE_RUNNING" ∷ [])) {
  poll_jobs = message Jobs.poll_test_instance_status ∷ [];
}

run-Stalls_example :
    Waits States.test_instance_running
      (life (find_server "web-1" (run quiet turns validating).db.servers))
unfolding value find_server
run-Stalls_example =
    run-Stalls quiet States.test_instance_running "web-1" turns validating (inl refl)
      (tt, (tt, (tt, (tt, tt)))) refl

running_row :
    (test : Bool) (s : ServerState)
    → life (if test then some (row "TEST_INSTANCE_RUNNING") else none) ≡ some (value s)
    → IsEarly s
unfolding value
running_row true s e =
    inl (
      omega (arith, ap stage (value_injective s States.test_instance_running (sym (some_inj.0 e)))))
running_row false s e = cc

running-AllEarly : AllEarly validating.db
unfolding find_server
running-AllEarly id s e = running_row ("web-1" == id) s e

-- An engineer asks to approve the validation, after the poll.
run-AllEarly_example :
    AllEarly
      (run quiet
        (Run.poll_turn
          ∷ Run.request (
              Requests.approve_test_validation "web-1"
                (record { engineer_id = "ann"; notes = none }))
          ∷ [])
        validating).db
run-AllEarly_example =
    run-AllEarly quiet
      (Run.poll_turn
        ∷ Run.request (
            Requests.approve_test_validation "web-1" (record { engineer_id = "ann"; notes = none }))
        ∷ [])
      validating running-AllEarly

-- An outside world in which AWS answers nothing.
abbrev broken : Services (Unit {0})
broken = record quiet {
  command = λ c s. (err (aws_error "timeout"), s);
  describe_source_servers = λ id s. err (aws_error "timeout");
  describe_jobs = λ id s. err (aws_error "timeout");
  describe_instance_status = λ id s. err (aws_error "timeout");
}

abbrev broken-IsDown : IsDown broken
broken-IsDown = record {
  command = λ c s. (aws_error "timeout", refl);
  sources = λ v s. (aws_error "timeout", refl);
  jobs = λ v s. (aws_error "timeout", refl);
  statuses = λ v s. (aws_error "timeout", refl);
}

on_message-Untouched_example :
    Untouched archiving (MgnLoop.on_message broken (message Jobs.archive_source_server) archiving).1
    × Untouched archiving
        (PollerLoop.on_message broken (message Jobs.archive_source_server) archiving).1
on_message-Untouched_example =
    on_message-Untouched broken broken-IsDown (message Jobs.archive_source_server) archiving
