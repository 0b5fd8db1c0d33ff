-- ===== src/System/Load/Rollback.antt =====
-- A turn of the rollback worker publishes nothing.
use migration_orchestrator_k.Prelude.{String, Option, List, [], ◌∷◌, arith}
use migration_orchestrator_k.Exec.{Result, ok, err, Exec}
use migration_orchestrator_k.Exec.Adds.{Adds, adds_rules}
use migration_orchestrator_k.Jobs.{Message}
use migration_orchestrator_k.Db.{Server}
use migration_orchestrator_k.Services.{Services, Command}
use migration_orchestrator_k.World.{World, call}
use migration_orchestrator_k.Rollback
use migration_orchestrator_k.Rollback.{RollbackResult}
use migration_orchestrator_k.System.Load.{load, call-Adds, advance-Adds, get_server-Adds}

module _ {S : Type 0} (aws : Services S) where
  abbrev IsSilent : {A : Type 0} → Exec (World S) A → Type 0
  IsSilent m = Adds load 0 m

  next_step-IsSilent :
      (description : String) (rest : Exec (World S) RollbackResult) (r : Result (Option String))
      → IsSilent rest
      → IsSilent (Rollback.next_step aws description rest r)
  next_step-IsSilent description rest (ok reply) k = k
  next_step-IsSilent description rest (err e) k = search adds_rules

  execute_plan-IsSilent :
      (plan : List (String × Command)) → IsSilent (Rollback.execute_plan aws plan)
  unfolding Rollback.execute_plan
  execute_plan-IsSilent [] = search adds_rules
  execute_plan-IsSilent ((description, action) ∷ rest) = record {
    bounded = λ w. omega (
      arith,
      (call-Adds aws {n = 0} action).bounded w,
      (next_step-IsSilent description (Rollback.execute_plan aws rest) (call aws action w).0
            (execute_plan-IsSilent rest)).bounded
          (call aws action w).1,
    );
  }

  finalise-IsSilent :
      (id final job_type state : String) (result : RollbackResult)
      → IsSilent (Rollback.finalise id final job_type state result)
  unfolding Rollback.finalise
  finalise-IsSilent id final job_type state result = search (adds_rules, advance-Adds)

  roll_back-IsSilent :
      (id job_type : String) (server : Server)
      → IsSilent (Rollback.roll_back aws id job_type server)
  unfolding Rollback.roll_back
  roll_back-IsSilent id job_type server =
      search (adds_rules, execute_plan-IsSilent, finalise-IsSilent) depth 8

  process-IsSilent : (m : Message) → IsSilent (Rollback.process aws m)
  unfolding Rollback.process
  process-IsSilent m = search (adds_rules, get_server-Adds, roll_back-IsSilent) depth 12

  -- Any message, and any answers of the outside world.
  pub on_message-IsSilent : (m : Message) → IsSilent (Rollback.on_message aws m)
  unfolding Rollback.on_message
  on_message-IsSilent m = search (adds_rules, process-IsSilent)
