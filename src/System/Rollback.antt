-- ===== src/System/Rollback.antt =====
-- Whatever the changes of the tables keep, a message to the rollback worker keeps.
use migration_orchestrator_k.Prelude.{
  String, Option, Bool, true, false, if◌then◌else◌, List, [], ◌∷◌,
}
use migration_orchestrator_k.Exec.{Exec, Result, ok, err}
use migration_orchestrator_k.Exec.Keeps.{Keeps, keeps_rules}
use migration_orchestrator_k.Jobs.{Message}
use migration_orchestrator_k.Db.{Db, Server}
use migration_orchestrator_k.StateManager.Unattended.{
  Unattended, IsFree, failed-IsFree, frozen-IsFree,
}
use migration_orchestrator_k.Services.{Services, Command}
use migration_orchestrator_k.World.{World, call}
use migration_orchestrator_k.Rollback
use migration_orchestrator_k.Rollback.{RollbackResult, rolled_back, frozen}
use migration_orchestrator_k.System.Changes.{Holds, get_server-Keeps, call-Keeps, advance-Keeps}

-- Of two plans.
final_of_if :
    (test : Bool) (here there : Rollback.Plan)
    → IsFree here.1
    → IsFree there.1
    → IsFree (if test then here else there).1
final_of_if true here there h t = h
final_of_if false here there h t = t

-- A plan intends FAILED or FROZEN.
plan-IsFree :
    (state : String) (aws_id : Option String) → IsFree (Rollback.get_rollback_plan state aws_id).1
unfolding Rollback.get_rollback_plan
plan-IsFree state aws_id = search (final_of_if, failed-IsFree, frozen-IsFree) depth 10

module _ {S : Type 0} (aws : Services S) (P : Db → Type 0)
    (closed : (db db' : Db) → Unattended db db' → P db → P db') where
  abbrev Kept : {A : Type 0} → Exec (World S) A → Type 0
  Kept m = Keeps (Holds P) m

  next_step-Keeps :
      (description : String) (rest : Exec (World S) RollbackResult) (r : Result (Option String))
      → Kept rest
      → Kept (Rollback.next_step aws description rest r)
  next_step-Keeps description rest (ok reply) k = k
  next_step-Keeps description rest (err e) k = search keeps_rules

  execute_plan-Keeps : (plan : List (String × Command)) → Kept (Rollback.execute_plan aws plan)
  unfolding Rollback.execute_plan
  execute_plan-Keeps [] = record { holds = λ w h. h }
  execute_plan-Keeps ((description, action) ∷ rest) = record {
    holds = λ w h.
        (next_step-Keeps description (Rollback.execute_plan aws rest) (call aws action w).0
            (execute_plan-Keeps rest)).holds
          (call aws action w).1 ((call-Keeps aws P action).holds w h);
  }

  finalise-Keeps :
      (id final job_type state : String) (result : RollbackResult)
      → IsFree final
      → Kept (Rollback.finalise id final job_type state result)
  unfolding Rollback.finalise
  finalise-Keeps id final job_type state result free = search (advance-Keeps P closed)

  final-IsFree :
      (result : RollbackResult) (state : String) (aws_id : Option String)
      → IsFree (Rollback.final_state result (Rollback.get_rollback_plan state aws_id).1)
  final-IsFree (frozen error) state aws_id = frozen-IsFree
  final-IsFree rolled_back state aws_id = plan-IsFree state aws_id

  roll_back-Keeps :
      (id job_type : String) (server : Server) → Kept (Rollback.roll_back aws id job_type server)
  unfolding Rollback.roll_back
  roll_back-Keeps id job_type server =
      search (keeps_rules, execute_plan-Keeps, finalise-Keeps, final-IsFree) depth 8

  process-Keeps : (m : Message) → Kept (Rollback.process aws m)
  unfolding Rollback.process
  process-Keeps m = search (keeps_rules, get_server-Keeps P, roll_back-Keeps) depth 12

  -- Any message, and any answers of the outside world.
  pub on_message-Keeps : (m : Message) → Kept (Rollback.on_message aws m)
  unfolding Rollback.on_message
  on_message-Keeps m = search (keeps_rules, process-Keeps)
