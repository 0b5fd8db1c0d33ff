-- ===== src/Poller/Attempts.antt =====
-- The bound on the attempts of a poll.
use migration_orchestrator_k.Prelude.{ℕ, ◌+◌, ◌≤◌, String, ◌≡◌, none, some, true, false, snoc}
use migration_orchestrator_k.Exec.{Result, ok, err, amqp_error}
use migration_orchestrator_k.Jobs.{assign, JobType, Body, Message}
use migration_orchestrator_k.Services.{Services}
use migration_orchestrator_k.World.{World}
use migration_orchestrator_k.Mgn.Results.{Verdict, ack, nack}
use migration_orchestrator_k.Poller.Loop.{attempt_of}

-- The same poll with another attempt.
abbrev pub retried : Body → ℕ → Message
retried body n = record {
  message_id = none;
  body = some (record body { numbers = assign body.numbers "attempt" n });
}

module _ {S : Type 0} (aws : Services S) (id job_id : String) (j : JobType) (body : Body)
    (w : World S) where
  -- What becomes of a poll that is still in progress.
  pub data Retried (outcome : Result Verdict × World S) : Type 0 where
    exhausted : 30 ≤ attempt_of body → outcome ≡ (ok nack, w) → Retried outcome
    again :
        attempt_of body + 1 ≤ 30
        → aws.confirms w.outside ≡ true
        → outcome
          ≡ (ok ack, record w { poll_jobs = snoc w.poll_jobs (retried body (attempt_of body + 1)) })
        → Retried outcome
    unconfirmed :
        attempt_of body + 1 ≤ 30
        → aws.confirms w.outside ≡ false
        → outcome ≡ (err amqp_error, w)
        → Retried outcome
