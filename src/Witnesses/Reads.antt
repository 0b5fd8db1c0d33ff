-- ===== src/Witnesses/Reads.antt =====
-- The properties of the tables, of their abstract view and of the queries at a concrete input.
use migration_orchestrator_k.Prelude.{
  ℕ, String, ◌==◌, ◌≡◌, none, some, List, [], ◌∷◌, if◌then◌else◌,
}
use migration_orchestrator_k.Exec.{Result, ok, err, value_error}
use migration_orchestrator_k.Db.{Server, Transition, Db}
use migration_orchestrator_k.StateManager.Servers.{get_server_history}
use migration_orchestrator_k.StateManager.Queries.{list_servers, list_transitions}
use migration_orchestrator_k.StateManager.Board
use migration_orchestrator_k.StateManager.Board.{Call, view, invoke_all, spec_all}
use migration_orchestrator_k.StateManager.Board.Replay.{seen_all, invoke_all_refines}
use migration_orchestrator_k.StateManager.Reads.{HistoryRead, get_server_history-HistoryRead}
use migration_orchestrator_k.StateManager.Reads.Queries as Queries
use migration_orchestrator_k.StateManager.Reads.Queries.{
  Answers, newer_server, list_servers-Answers,
}
use migration_orchestrator_k.StateManager.Reads.Queries.{newer_transition}
use migration_orchestrator_k.StateManager.Reads.Transitions.{Listed, list_transitions-Listed}
use migration_orchestrator_k.Witnesses.{row, tables}

-- A server is registered, fails, is reset and put into a batch; a second registration is refused.
abbrev calls : List (ℕ × Call)
calls =
    (3, Board.register_server "web-2" "web" "10.0.0.2" none none none none)
    ∷ (4, Board.advance_state "web-2" "FAILED" "system" none none none)
    ∷ (5, Board.register_server "web-2" "web" "10.0.0.2" none none none none)
    ∷ (6, Board.reset_server "web-2" "ann" none)
    ∷ (7, Board.add_servers_to_batch "wave-1" ("web-2" ∷ "web-3" ∷ []))
    ∷ []

invoke_all_refines_example :
    seen_all (invoke_all calls (tables (row "PENDING" ∷ [])))
    ≡ spec_all calls (view (tables (row "PENDING" ∷ [])))
invoke_all_refines_example = invoke_all_refines calls (tables (row "PENDING" ∷ []))

abbrev record_at : ℕ → String → Transition
record_at n id = record {
  server_id = id;
  from_state = "PENDING";
  to_state = "FAILED";
  job_id = none;
  job_type = none;
  triggered_by = "system";
  timestamp = n;
  metadata = none;
}

-- Records of two servers, the later one first.
abbrev logged : Db
logged = record (tables (row "FAILED" ∷ [])) {
  history = record_at 9 "web-1" ∷ record_at 4 "web-2" ∷ record_at 7 "web-1" ∷ [];
}

get_server_history-HistoryRead_example :
    HistoryRead "web-1" logged (get_server_history "web-1" logged)
get_server_history-HistoryRead_example = get_server_history-HistoryRead "web-1" logged

list_servers-Answers_example :
    (found : List Server) × (list_servers
        (λ s t. s == t)
        (some "FAILED")
        (some "unassigned")
        none
        (some "")
        logged
      ≡ (ok found, logged))
    × Answers newer_server logged.servers
        (Queries.Wanted (λ s t. s == t) (some "FAILED") (some "unassigned") none (some "") logged)
        found
list_servers-Answers_example =
    list_servers-Answers (λ s t. s == t) (some "FAILED") (some "unassigned") none (some "") logged

-- A reader of times that refuses one text.
abbrev iso : String → Result ℕ
iso text = if text == "yesterday" then err (value_error "invalid isoformat") else ok 5

list_transitions-Listed_example :
    Listed iso
      (some "web-1")
      none
      none
      none
      none
      none
      (some "2026-01-01")
      (some "yesterday")
      logged
      (list_transitions iso
        (some "web-1")
        none
        none
        none
        none
        none
        (some "2026-01-01")
        (some "yesterday")
        logged)
list_transitions-Listed_example =
    list_transitions-Listed iso (some "web-1") none none none none none (some "2026-01-01")
      (some "yesterday") logged
