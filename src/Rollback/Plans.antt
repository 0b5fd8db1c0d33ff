-- ===== src/Rollback/Plans.antt =====
-- The rollback plan of each stage, stated by the stage and not by sets of states.
use migration_orchestrator_k.Prelude.{
  ℕ, String, ◌≡◌, refl, Option, none, some, List, [], ◌∷◌, leb, map, ◌&&◌, ◌||◌, if◌then◌else◌,
}
use migration_orchestrator_k.States.{ServerState, value, pending}
use migration_orchestrator_k.Transitions.Diagram.{stage}
use migration_orchestrator_k.Jobs.{str}
use migration_orchestrator_k.Services
use migration_orchestrator_k.Services.{Services, Command}
use migration_orchestrator_k.Rollback.{get_rollback_plan}

-- From the start of the cutover on (stage 14), a rollback freezes the server.
abbrev pub intended_state : ℕ → String
intended_state n = if leb n 13 then "FAILED" else "FROZEN"

-- Replication that runs (stages 4 to 7) is stopped; an instance that may have been launched for the
-- test (8 to 10) or for the cutover (14 to 17) is terminated.
abbrev pub undo_commands : ℕ → Option String → List Command
undo_commands n none = []
undo_commands n (some aws_id) =
    if leb 4 n && leb n 7
    then Services.stop_replication (str aws_id) ∷ []
    else if leb 8 n && leb n 10 || leb 14 n && leb n 17
    then Services.terminate_target_instances (str aws_id) ∷ []
    else []

-- The final state that the plan intends, for every state.
pub intended_state_lem :
    (s : ServerState) (aws_id : Option String)
    → (get_rollback_plan (value s) aws_id).1 ≡ intended_state (stage s)
unfolding get_rollback_plan value
intended_state_lem pending aws_id = refl
intended_state_lem _ aws_id = refl

-- For every state, the plan of a rollback has the AWS calls that undo the server's stage (none
-- without an MGN id), and intends FAILED before the cutover starts and FROZEN after.
pub get_rollback_plan_lem :
    (s : ServerState) (aws_id : Option String)
    → (map (λ (step : String × Command). step.1) (get_rollback_plan (value s) aws_id).0
        ≡ undo_commands (stage s) aws_id)
      × ((get_rollback_plan (value s) aws_id).1 ≡ intended_state (stage s))
unfolding get_rollback_plan value
get_rollback_plan_lem pending none = (refl, refl)
get_rollback_plan_lem pending (some aws_id) = (refl, refl)
get_rollback_plan_lem _ none = (refl, refl)
get_rollback_plan_lem _ (some aws_id) = (refl, refl)
