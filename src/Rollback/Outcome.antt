-- ===== src/Rollback/Outcome.antt =====
-- What a rollback does to the server.
use migration_orchestrator_k.Prelude.{
  String, ◌≡◌, ◌<◌, ◌<>◌, inl, inr, refl, ◌∙◌, ap, Bool, true, false, Option, none, some, List, [],
  ◌∷◌, leb, if◌then◌else◌, arith,
}
use migration_orchestrator_k.Exec.{exc_text, Result, ok, err, Exc, Result-cases}
use migration_orchestrator_k.States
use migration_orchestrator_k.States.{ServerState, value}
use migration_orchestrator_k.Transitions.Diagram.{stage}
use migration_orchestrator_k.Transitions.Validate.{NamesEdge}
use migration_orchestrator_k.Jobs.{JsonObject}
use migration_orchestrator_k.Db.{Server, find_server, any_of}
use migration_orchestrator_k.StateManager.Advance.{moved, advance_state-moved}
use migration_orchestrator_k.Services.{Services, Command}
use migration_orchestrator_k.World.{World, call, on_db}
use migration_orchestrator_k.Client
use migration_orchestrator_k.Mgn.Results.{Verdict, ack}
use migration_orchestrator_k.Rollback.{
  RollbackResult, rolled_back, frozen, terminal_states, get_rollback_plan, execute_plan, roll_back,
  final_state, rollback_metadata, finalise,
}
use migration_orchestrator_k.Rollback.Plans.{intended_state, intended_state_lem}

module _ {S : Type 0} (aws : Services S) where
  -- Whether AWS takes every call of a plan, each after the one before.
  unfoldable pub succeeds : List (String × Command) → S → Bool
  succeeds [] s = true
  succeeds ((description, c) ∷ rest) s = elim (aws.command c s).0 [
    | ok reply ↦ succeeds rest (aws.command c s).1
    | err e ↦ false
  ]

  -- A plan always has a result, and leaves the tables alone.
  pub record Executed (plan : List (String × Command)) (w : World S) : Type 0 where
    pub result : RollbackResult
    pub returned : (execute_plan aws plan w).0 ≡ ok result
    pub untouched : (execute_plan aws plan w).1.db ≡ w.db
    pub state :
        (intended : String)
        → final_state result intended ≡ (if succeeds plan w.outside then intended else "FROZEN")

  module _ (description : String) (c : Command) (rest : List (String × Command)) (w : World S) where
    step_done :
        (reply : Option String)
        → (aws.command c w.outside).0 ≡ ok reply
        → Executed rest (call aws c w).1
        → Executed ((description, c) ∷ rest) w
    unfolding execute_plan call succeeds
    step_done reply h k = record {
      result = k.result;
      returned = rw (h, execute_plan) k.returned;
      untouched = rw (h, execute_plan) k.untouched;
      state = λ intended. rw (h, succeeds) (k.state intended);
    }

    step_failed :
        (e : Exc) → (aws.command c w.outside).0 ≡ err e → Executed ((description, c) ∷ rest) w
    unfolding execute_plan call succeeds
    step_failed e h = record {
      result = frozen ("Undo step '" <> description <> "' failed: " <> exc_text e);
      returned = rw (h, execute_plan) refl;
      untouched = rw (h, execute_plan) refl;
      state = λ intended. rw (h, succeeds) refl;
    }

  pub execute_plan-Executed : (plan : List (String × Command)) (w : World S) → Executed plan w
  unfolding execute_plan succeeds
  execute_plan-Executed [] w = record {
    result = rolled_back;
    returned = refl;
    untouched = refl;
    state = λ intended. refl;
  }
  execute_plan-Executed ((description, c) ∷ rest) w =
      elim (Result-cases (aws.command c w.outside).0) [
        | inl (reply, h) ↦
            step_done description c rest w reply h (execute_plan-Executed rest (call aws c w).1)
        | inr (e, h) ↦ step_failed description c rest w e h
      ]

-- Where a rollback leaves a server: FAILED only before the cutover starts and where AWS took the
-- undo call, else FROZEN.
abbrev pub rolled_to : Bool → ServerState → String
rolled_to undone s = if undone then intended_state (stage s) else "FROZEN"

rolled_to-NamesEdge :
    (undone : Bool) (s : ServerState) → stage s < 26 → NamesEdge (value s) (rolled_to undone s)
unfolding value
rolled_to-NamesEdge false s early = record {
  from = s;
  to = States.frozen;
  from_named = refl;
  to_named = refl;
  edge = (early, inr (inr refl));
}
rolled_to-NamesEdge true s early = by_stage (leb (stage s) 13)
  where
    by_stage : (b : Bool) → NamesEdge (value s) (if b then "FAILED" else "FROZEN")
    by_stage true = record {
      from = s;
      to = States.failed;
      from_named = refl;
      to_named = refl;
      edge = (early, inr (inl refl));
    }
    by_stage false = record {
      from = s;
      to = States.frozen;
      from_named = refl;
      to_named = refl;
      edge = (early, inr (inr refl));
    }

not_terminal : (s : ServerState) → stage s < 26 → any_of (value s) terminal_states ≡ false
unfolding any_of value
not_terminal States.failed early = absurd (omega arith)
not_terminal States.frozen early = absurd (omega arith)
not_terminal States.cleanup_complete early = absurd (omega arith)
not_terminal _ early = refl

module _ {S : Type 0} (aws : Services S) (id : String) (s : ServerState) (r : Server) (w : World S)
    (found : find_server id w.db.servers ≡ some r) (at : r.current_state ≡ value s)
    (early : stage s < 26) where
  abbrev plan : List (String × Command)
  plan = (get_rollback_plan (value s) r.aws_source_server_id).0

  abbrev undone : Bool
  undone = succeeds aws plan w.outside

  -- The tables after the rollback of job type `job`.
  abbrev pub RolledBack : String → Result Verdict × World S → Type 0
  RolledBack job outcome =
      (outcome.0 ≡ ok ack)
      × ((metadata : JsonObject) × (outcome.1.db
            ≡ moved id (value s) (rolled_to undone s) none (some ("rollback:" <> job)) "system"
                (some metadata) w.db))

  finalised :
      (job : String) (metadata : JsonObject) (w' : World S)
      → w'.db ≡ w.db
      → Client.advance_state id
          (rolled_to undone s)
          none
          (some ("rollback:" <> job))
          (some metadata)
          w'
        ≡ (
          ok tt,
          record w' {
            db =
                moved id
                  (value s)
                  (rolled_to undone s)
                  none
                  (some ("rollback:" <> job))
                  "system"
                  (some metadata)
                  w.db;
          },
        )
  unfolding Client.advance_state on_db
  finalised job metadata w' h =
      rw
        (
          h,
          advance_state-moved id (rolled_to undone s) "system" none (some ("rollback:" <> job))
              (some metadata) w.db (value s) r found at (rolled_to-NamesEdge undone s early),
        )
        refl

  abbrev run : Executed aws plan w
  run = execute_plan-Executed aws plan w

  reached :
      final_state run.result (get_rollback_plan (value s) r.aws_source_server_id).1
      ≡ rolled_to undone s
  reached =
      run.state (get_rollback_plan (value s) r.aws_source_server_id).1
      ∙ ap (λ t. if undone then t else "FROZEN") (intended_state_lem s r.aws_source_server_id)

  pub roll_back_lem :
      (job : String)
      → roll_back aws id job r w ≡ (
        ok ack,
        record (execute_plan aws plan w).1 {
          db =
              moved id
                (value s)
                (rolled_to undone s)
                none
                (some ("rollback:" <> job))
                "system"
                (some (rollback_metadata job (value s) run.result))
                w.db;
        },
      )
  unfolding roll_back finalise
  roll_back_lem job =
      rw
        (
          at,
          not_terminal s early,
          run.returned,
          reached,
          finalised job (rollback_metadata job (value s) run.result) (execute_plan aws plan w).1
              run.untouched,
        )
        refl
