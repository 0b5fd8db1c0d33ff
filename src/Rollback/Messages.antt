-- ===== src/Rollback/Messages.antt =====
-- What the rollback worker does on a dead-lettered message.
use migration_orchestrator_k.Prelude.{String, ◌≡◌, ◌≢◌, ◌<◌, ◌≤◌, refl, true, some, arith, differs}
use migration_orchestrator_k.Exec.{ok}
use migration_orchestrator_k.States
use migration_orchestrator_k.States.{ServerState, value}
use migration_orchestrator_k.Transitions.Diagram.{stage}
use migration_orchestrator_k.Jobs.{JobType, Message, null, str, job_value, as_text}
use migration_orchestrator_k.Jobs.Reading.{Asks, load-Asks, get_default-item}
use migration_orchestrator_k.Db.{Server, find_server, any_of}
use migration_orchestrator_k.StateManager.Servers
use migration_orchestrator_k.Services.{Services}
use migration_orchestrator_k.World.{World, on_db}
use migration_orchestrator_k.Client
use migration_orchestrator_k.Mgn.Results.{ack}
use migration_orchestrator_k.Rollback.{
  terminal_states, get_rollback_plan, rollback_metadata, roll_back, process, on_message,
}
use migration_orchestrator_k.Rollback.Outcome.{RolledBack, roll_back_lem, execute_plan-Executed}

module _ {S : Type 0} (aws : Services S) where
  read_row :
      (id : String) (r : Server) (w : World S)
      → find_server id w.db.servers ≡ some r
      → Client.get_server id w ≡ (ok r, w)
  unfolding Client.get_server on_db Servers.get_server
  read_row id r w h = rw h refl

  is_terminal : (s : ServerState) → 26 ≤ stage s → any_of (value s) terminal_states ≡ true
  unfolding any_of value
  is_terminal States.cleanup_complete past = refl
  is_terminal States.failed past = refl
  is_terminal States.frozen past = refl
  is_terminal _ past = ground arith

  module _ (m : Message) (id : String) (j : JobType) (a : Asks m id j) (named : id ≢ "")
      (r : Server) (w : World S) (found : find_server id w.db.servers ≡ some r) where
    process-roll_back : process aws m w ≡ roll_back aws id (job_value j) r w
    unfolding process as_text
    process-roll_back =
        rw
          (
            load-Asks m id j a,
            a.has_payload,
            get_default-item a.payload "server_id" null (str id) a.has_server,
            differs id "" named,
            read_row id r w found,
            a.has_type,
          )
          refl

    -- A rollback of a server that is past the stages of the pipeline that a job may fail in, which
    -- is one that is FAILED, FROZEN or CLEANUP_COMPLETE, is acknowledged, and nothing changes: no
    -- AWS call, no row, no record.
    pub on_message_terminal :
        (s : ServerState)
        → r.current_state ≡ value s
        → 26 ≤ stage s
        → on_message aws m w ≡ (ok ack, w)
    unfolding on_message roll_back
    on_message_terminal s at past = rw (process-roll_back, at, is_terminal s past, roll_back) refl

    -- A failed job of a server that is not in one of these states: the message is acknowledged and
    -- the server is moved once, with one audit record in the name of "system" and of job type
    -- "rollback:" with the failed job's type; the new state is FAILED where the cutover has not
    -- started (up to AWAITING_CUTOVER_LAUNCH_APPROVAL) and AWS took every call of the plan, else
    -- FROZEN.
    pub on_message-RolledBack :
        (s : ServerState) (at : r.current_state ≡ value s) (early : stage s < 26)
        → RolledBack aws id s r w found at early (job_value j) (on_message aws m w)
    unfolding on_message
    on_message-RolledBack s at early =
        rw (process-roll_back, roll_back_lem aws id s r w found at early (job_value j))
          (
            refl,
            (
              rollback_metadata (job_value j) (value s)
                  (execute_plan-Executed aws (get_rollback_plan (value s) r.aws_source_server_id).0
                    w).result,
              refl,
            ),
          )
