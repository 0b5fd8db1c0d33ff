-- ===== src/World.antt =====
-- What the parts of the system share: the database, the queues of the broker with their dead-letter
-- queues, and the outside world. Messages wait at the end of a queue and are taken from its front.
use migration_orchestrator_k.Prelude.{String, Option, Bool, List, snoc, ◌==◌, if◌then◌else◌}
use migration_orchestrator_k.Exec.{Result, ok, err, Exec, amqp_error}
use migration_orchestrator_k.Jobs.{Message}
use migration_orchestrator_k.Db.{Db}
use migration_orchestrator_k.Services.{Services, Command}

pub record World (S : Type 0) : Type 0 where
  pub db : Db
  pub mgn_jobs : List Message
  pub poll_jobs : List Message
  pub rollback_jobs : List Message
  pub mgn_jobs_failed : List Message
  pub poll_jobs_failed : List Message
  -- the channel of the API's JobDispatcher is open
  pub connected : Bool
  pub outside : S

module _ {S : Type 0} where
  -- A method of StateManager, called by another part.
  unfoldable pub on_db : {A : Type 0} → Exec Db A → Exec (World S) A
  on_db m w = let (r, db') = m w.db in (r, record w { db = db' })

  -- The default exchange routes by queue name; a name that no queue has drops the message.
  unfoldable pub enqueue : String → Message → World S → World S
  enqueue queue_name m w =
      if queue_name == "mgn_jobs"
      then record w { mgn_jobs = snoc w.mgn_jobs m }
      else if queue_name == "poll_jobs"
      then record w { poll_jobs = snoc w.poll_jobs m }
      else if queue_name == "rollback_jobs"
      then record w { rollback_jobs = snoc w.rollback_jobs m }
      else w

module _ {S : Type 0} (aws : Services S) where
  -- `await channel.default_exchange.publish(message, routing_key=queue_name)`
  unfoldable pub publish : String → Message → Exec (World S) (Unit {0})
  unfolding enqueue
  publish queue_name m w =
      if aws.confirms w.outside then (ok tt, enqueue queue_name m w) else (err amqp_error, w)

  unfoldable pub call : Command → Exec (World S) (Option String)
  call c w = let (r, s) = aws.command c w.outside in (r, record w { outside = s })

  -- A call that only reads.
  unfoldable pub read : {A : Type 0} → (S → Result A) → Exec (World S) A
  read f w = (f w.outside, w)

  unfoldable pub new_id : Exec (World S) String
  new_id w = let (id, s) = aws.uuid4 w.outside in (ok id, record w { outside = s })
