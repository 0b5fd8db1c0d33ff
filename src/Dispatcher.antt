-- ===== src/Dispatcher.antt =====
-- src/dispatcher/dispatcher.py: JobDispatcher.dispatch, through which the API publishes jobs, and
-- the two private helpers by which the workers publish follow-up jobs.
pub mod Link
use migration_orchestrator_k.Prelude.{String, none, some, [], ◌∷◌}
use migration_orchestrator_k.Exec.{Exec, gets, guard, runtime_error, ◌>>=◌, ◌>>◌}
use migration_orchestrator_k.Jobs.{JobType, JsonObject, Message, job_value, queue_routing}
use migration_orchestrator_k.Services.{Services}
use migration_orchestrator_k.World.{World, publish, new_id}

-- The message of `dispatch`: the job id stands in the body and in the AMQP property.
abbrev pub job_message : String → JobType → JsonObject → Message
job_message job_id job_type payload = record {
  message_id = some job_id;
  body = some (record {
    texts = ("job_id", job_id) ∷ ("job_type", job_value job_type) ∷ [];
    objects = ("payload", payload) ∷ [];
    numbers = [];
  });
}

-- The message of MgnWorker._dispatch and of PollerWorker._dispatch_poll.
abbrev pub follow_up : JobType → JsonObject → Message
follow_up job_type payload = record {
  message_id = none;
  body = some (record {
    texts = ("job_type", job_value job_type) ∷ [];
    objects = ("payload", payload) ∷ [];
    numbers = ("attempt", 1) ∷ [];
  });
}

module _ {S : Type 0} (aws : Services S) where
  unfoldable pub dispatch : JobType → JsonObject → Exec (World S) (Unit {0})
  unfolding publish new_id queue_routing
  dispatch job_type payload = do
    is_open ← gets (λ w. w.connected)
    guard is_open (runtime_error "Dispatcher not connected. Call connect() first.")
    job_id ← new_id aws
    publish aws (queue_routing job_type) (job_message job_id job_type payload)

  -- MgnWorker._dispatch
  unfoldable pub dispatch_follow_up : JobType → JsonObject → Exec (World S) (Unit {0})
  unfolding publish queue_routing
  dispatch_follow_up job_type payload =
      publish aws (queue_routing job_type) (follow_up job_type payload)

  -- PollerWorker._dispatch_poll
  unfoldable pub dispatch_poll : JobType → JsonObject → Exec (World S) (Unit {0})
  unfolding publish
  dispatch_poll job_type payload = publish aws "poll_jobs" (follow_up job_type payload)
