-- ===== src/Mgn/Delivery.antt =====
-- From JobDispatcher.dispatch to MgnWorker._on_message: the worker reads what the API wrote.
use migration_orchestrator_k.Prelude.{String, ◌≡◌, refl, true, false, snoc}
use migration_orchestrator_k.Exec.{Result, ok, err, runtime_error, amqp_error}
use migration_orchestrator_k.Jobs.{JobType, JsonObject, Message, str, get_item}
use migration_orchestrator_k.Jobs.Reading.{Asks}
use migration_orchestrator_k.Services.{Services}
use migration_orchestrator_k.World.{World}
use migration_orchestrator_k.Dispatcher.{job_message}
use migration_orchestrator_k.Mgn.Loop.{process, execute}

module _ {S : Type 0} (aws : Services S) (id : String) (payload : JsonObject) (j : JobType)
    (asked : get_item payload "server_id" ≡ ok (str id)) where
  dispatched : (job_id : String) → Asks (job_message job_id j payload) id j
  dispatched job_id = record {
    body = _;
    payload = payload;
    has_body = refl;
    has_type = refl;
    has_payload = refl;
    has_server = asked;
  }

  module _ (w : World S) where
    -- The id of the job, and the world once it is made.
    abbrev pub job_id : String
    job_id = (aws.uuid4 w.outside).0

    abbrev pub identified : World S
    identified = record w { outside = (aws.uuid4 w.outside).1 }

    -- What dispatch may do.
    pub data Delivered (outcome : Result (Unit {0}) × World S) : Type 0 where
      closed :
          w.connected ≡ false
          → outcome ≡ (err (runtime_error "Dispatcher not connected. Call connect() first."), w)
          → Delivered outcome
      unconfirmed :
          w.connected ≡ true
          → aws.confirms identified.outside ≡ false
          → outcome ≡ (err amqp_error, identified)
          → Delivered outcome
      delivered :
          (m : Message)
          → w.connected ≡ true
          → aws.confirms identified.outside ≡ true
          → outcome ≡ (ok tt, record identified { mgn_jobs = snoc w.mgn_jobs m })
          → ((v : World S) → process aws m v ≡ execute aws id job_id j payload v)
          → Delivered outcome
