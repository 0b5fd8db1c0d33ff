-- ===== src/Witnesses/Runs.antt =====
-- The properties of runs, of StateManager and of the enumerations at a concrete input.
use migration_orchestrator_k.Prelude.{◌≡◌, ap, ◌↔◌, inl, refl, none, some, List, [], ◌∷◌, arith}
use migration_orchestrator_k.Exec.{ok}
use migration_orchestrator_k.StateManager.Pipeline.{Recorded}
use migration_orchestrator_k.StateManager.Moves
use migration_orchestrator_k.StateManager.Servers as Rows
use migration_orchestrator_k.Mgn.Loop as MgnLoop
use migration_orchestrator_k.Mgn.Onboarding.{handle_add_server}
use migration_orchestrator_k.Client
use migration_orchestrator_k.Api.Servers
use migration_orchestrator_k.Api.Gates
use migration_orchestrator_k.States
use migration_orchestrator_k.States.{value, server_state}
use migration_orchestrator_k.Transitions.Validate.{NamesEdge, validate_iff}
use migration_orchestrator_k.Transitions.{validate}
use migration_orchestrator_k.Jobs.{
  get_item, job_value, parse_job_type, load, required, job_type_of, as_text, queue_routing,
}
use migration_orchestrator_k.Db.{
  Server, find_server, batch_exists, insert_server, insert_transition, update_server,
}
use migration_orchestrator_k.StateManager.Advance.{Advanced, advance_state-Advanced}
use migration_orchestrator_k.StateManager.Reset.{Reset, reset_server-Reset}
use migration_orchestrator_k.StateManager.Audit.{IsAudited, registered}
use migration_orchestrator_k.StateManager.Change.{life}
use migration_orchestrator_k.StateManager.Moves.{advance_state, reset_server}
use migration_orchestrator_k.Services.{Services}
use migration_orchestrator_k.World.{on_db, read, publish, enqueue, new_id}
use migration_orchestrator_k.Dispatcher.{dispatch}
use migration_orchestrator_k.Mgn.Loop.{valid_states_for_job}
use migration_orchestrator_k.Client.{valid_states_for_poll}
use migration_orchestrator_k.Api.Gates.{
  server_job, decide, require_state, ApproveRequest, RejectRequest,
}
use migration_orchestrator_k.Api.Servers.{RegisterServerRequest, register}
use migration_orchestrator_k.System.Requests
use migration_orchestrator_k.System.Run
use migration_orchestrator_k.System.Run.{Event, run}
use migration_orchestrator_k.System.History.{Extends, run-IsAudited, run-Recorded, run-Extends}
use migration_orchestrator_k.System.Members.{IsMember, run-IsMember}
use migration_orchestrator_k.System.Terminal.{run-IsTerminal}
use migration_orchestrator_k.Witnesses.{quiet, row, tables, world, registration}

-- A server is registered and its agent job started, which the MGN worker rejects since MGN does not
-- list the server; the rollback worker then marks it FAILED.
abbrev failing : List (Event (Unit {0}))
failing =
    Run.request (Requests.register_server registration)
    ∷ Run.request (Requests.start_server "web-1" "s-1")
    ∷ Run.mgn_turn
    ∷ Run.rollback_mgn_turn
    ∷ []

empty-IsAudited : IsAudited (tables [])
unfolding find_server
empty-IsAudited id = registered

run-IsAudited_example : IsAudited (run quiet failing (world [])).db
run-IsAudited_example = run-IsAudited quiet failing (world []) empty-IsAudited

-- An outside world that lists one replicated server.
abbrev listing : Services (Unit {0})
listing = record quiet {
  describe_source_servers = λ id s. ok (
      record {
        lifecycle_state = some "READY_FOR_TEST";
        last_cutover_job = none;
        launched_instance = none;
      }
      ∷ []);
}

abbrev installing : List (Event (Unit {0}))
installing =
    Run.request (Requests.register_server registration)
    ∷ Run.request (Requests.start_server "web-1" "s-1")
    ∷ Run.mgn_turn
    ∷ []

abbrev installed_row : Server
installed_row = record (row "AGENT_INSTALLED") {
  aws_source_server_id = some "s-1";
  previous_state = some "PENDING";
  created_at = 2;
  updated_at = 2;
}

installed : find_server "web-1" (run listing installing (world [])).db.servers ≡ some installed_row
unfolding run find_server Requests.serve Servers.start_server require_state on_db Rows.get_server
    Servers.register_server Rows.register_server batch_exists value dispatch MgnLoop.on_message
    MgnLoop.process load required job_type_of get_item as_text MgnLoop.execute valid_states_for_job
    MgnLoop.handler Client.get_server_state Rows.get_server_state handle_add_server read
    Client.set_aws_source_server_id Client.advance_state Moves.set_aws_source_server_id
    Moves.advance_state Moves.write_aws_id Moves.write_state Moves.write_history validate
    insert_server insert_transition update_server publish enqueue queue_routing new_id job_value
    parse_job_type Gates.get_server_or_404 Servers.register
installed = refl

run-Recorded_example :
    Recorded "web-1" States.agent_installed (run listing installing (world [])).db.history
unfolding value
run-Recorded_example =
    run-Recorded listing installing (world []) "web-1" States.agent_installed States.agent_installed
      empty-IsAudited (ap life installed) (omega arith) (omega arith) (omega arith)

run-Extends_example : Extends (world []).db.history (run quiet failing (world [])).db.history
run-Extends_example = run-Extends quiet failing (world [])

run-IsTerminal_example :
    life (find_server "web-1" (run quiet failing (world (row "FROZEN" ∷ []))).db.servers)
    ≡ some (value States.frozen)
unfolding find_server value
run-IsTerminal_example =
    run-IsTerminal quiet States.frozen "web-1" failing (world (row "FROZEN" ∷ [])) (inl refl) refl

advance_state-Advanced_example :
    Advanced "web-1" "FAILED" "ann" none none none
      (tables (row "PENDING" ∷ []))
      (advance_state "web-1" "FAILED" "ann" none none none (tables (row "PENDING" ∷ [])))
advance_state-Advanced_example =
    advance_state-Advanced "web-1" "FAILED" "ann" none none none (tables (row "PENDING" ∷ []))

reset_server-Reset_example :
    Reset "web-1" "ann" none
      (tables (row "FAILED" ∷ []))
      (reset_server "web-1" "ann" none (tables (row "FAILED" ∷ [])))
reset_server-Reset_example = reset_server-Reset "web-1" "ann" none (tables (row "FAILED" ∷ []))

validate_iff_example : (validate "web-1" "PENDING" "FAILED" ≡ ok tt) ↔ NamesEdge "PENDING" "FAILED"
validate_iff_example = validate_iff "web-1" "PENDING" "FAILED"

run-IsMember_example : IsMember "AGENT_INSTALLED"
run-IsMember_example =
    run-IsMember listing installing (world []) "web-1" installed_row empty-IsAudited installed
