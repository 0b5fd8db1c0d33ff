-- ===== src/Poller/Loop.antt =====
-- The message loop of the poller worker.
use migration_orchestrator_k.Prelude.{ℕ, ◌+◌, String, Option, none, some, leb, if◌then◌else◌}
use migration_orchestrator_k.Exec.{Exec, pure, lift, try_except, ◌>>=◌, ◌>>◌}
use migration_orchestrator_k.Jobs
use migration_orchestrator_k.Jobs.{
  entry, assign, JobType, JsonObject, Body, Message, job_value, load, required, job_id_of,
  job_type_of, get_item, as_text,
}
use migration_orchestrator_k.Services.{Services}
use migration_orchestrator_k.World.{World, publish}
use migration_orchestrator_k.Client
use migration_orchestrator_k.Mgn.Results.{Verdict, ack, nack}
use migration_orchestrator_k.Poller.Handlers
use migration_orchestrator_k.Poller.Handlers.{PollResult, complete, in_progress, failed, dispatched}

abbrev pub max_poll_attempts : ℕ
max_poll_attempts = 30

-- `body.get("attempt", 1)`
abbrev pub attempt_of : Body → ℕ
attempt_of body = elim (entry body.numbers "attempt") [ none ↦ 1 | some n ↦ n ]

module _ {S : Type 0} (aws : Services S) where
  -- PollerWorker._reenqueue: the same body with the next attempt.
  unfoldable pub reenqueue : Body → ℕ → Exec (World S) (Unit {0})
  unfolding publish
  reenqueue body current_attempt = publish aws "poll_jobs" (record {
    message_id = none;
    body = some (record body { numbers = assign body.numbers "attempt" (current_attempt + 1) });
  })

  -- `self._handlers`
  unfoldable pub handler : JobType → Option (JsonObject → Exec (World S) PollResult)
  handler Jobs.poll_replication_status = some (Handlers.poll_replication_status aws)
  handler Jobs.poll_test_instance_status = some (Handlers.poll_test_instance_status aws)
  handler Jobs.poll_cutover_sync_status = some (Handlers.poll_cutover_sync_status aws)
  handler Jobs.poll_cutover_instance_status = some (Handlers.poll_cutover_instance_status aws)
  handler Jobs.poll_disconnect_status = some (Handlers.poll_disconnect_status aws)
  handler _ = none

  -- The branches on the result.
  unfoldable pub act : String → String → JobType → Body → PollResult → Exec (World S) Verdict
  unfolding reenqueue
  act server_id job_id job_type body (complete new_state) = do
    Client.advance_state server_id new_state (some job_id) (some (job_value job_type)) none
    pure ack
  act server_id job_id job_type body in_progress =
      if leb max_poll_attempts (attempt_of body)
      then pure nack
      else do reenqueue body (attempt_of body); pure ack
  act server_id job_id job_type body dispatched = pure ack
  act server_id job_id job_type body failed = pure nack

  abbrev pub run_handler :
      String
      → String
      → JobType
      → Body
      → JsonObject
      → Option (JsonObject → Exec (World S) PollResult)
      → Exec (World S) Verdict
  run_handler server_id job_id job_type body payload none = pure nack
  run_handler server_id job_id job_type body payload (some h) = do
    result ← h payload
    act server_id job_id job_type body result

  -- The body of `try` once the message is read.
  unfoldable pub execute : String → String → JobType → Body → JsonObject → Exec (World S) Verdict
  execute server_id job_id job_type body payload = do
    is_valid ← Client.is_poll_valid server_id job_type
    if is_valid
        then run_handler server_id job_id job_type body payload (handler job_type)
        else pure ack

  unfoldable pub process : Message → Exec (World S) Verdict
  process message = do
    body ← lift (load message)
    text ← lift (required "job_type" (entry body.texts "job_type"))
    job_type ← lift (job_type_of text)
    payload ← lift (required "payload" (entry body.objects "payload"))
    server_id ← lift (get_item payload "server_id")
    id ← lift (as_text server_id)
    execute id (job_id_of message body) job_type body payload

  -- PollerWorker._on_message
  unfoldable pub on_message : Message → Exec (World S) Verdict
  on_message message = try_except (process message) (λ e. pure nack)
