-- ===== src/Poller/Delivery.antt =====
-- From MgnWorker._dispatch to PollerWorker._on_message: the poller reads what the MGN worker wrote.
use migration_orchestrator_k.Prelude.{
  String, ◌≡◌, inl, inr, refl, true, false, some, snoc, arith, Bool-cases,
}
use migration_orchestrator_k.Exec.{Result, ok, err, amqp_error}
use migration_orchestrator_k.Jobs
use migration_orchestrator_k.Jobs.{JobType, JsonObject, Body, Message, str, get_item, queue_routing}
use migration_orchestrator_k.Jobs.Reading.{Asks}
use migration_orchestrator_k.Services.{Services}
use migration_orchestrator_k.World.{World, publish, enqueue}
use migration_orchestrator_k.Dispatcher.{follow_up, dispatch_follow_up}
use migration_orchestrator_k.Client.{valid_states_for_poll}
use migration_orchestrator_k.Poller.Loop.{attempt_of, process, execute}
use migration_orchestrator_k.Poller.Stale.{process-Asks}

-- A poll whose state the poller knows goes to the queue of the poller.
poll-routing :
    (j : JobType) (expected : String)
    → valid_states_for_poll j ≡ some expected
    → queue_routing j ≡ "poll_jobs"
unfolding valid_states_for_poll queue_routing
poll-routing Jobs.poll_replication_status expected h = refl
poll-routing _ expected h = ground arith

module _ {S : Type 0} (aws : Services S) (id : String) (payload : JsonObject) (j : JobType)
    (asked : get_item payload "server_id" ≡ ok (str id)) where
  followed : Asks (follow_up j payload) id j
  followed = record {
    body = _;
    payload = payload;
    has_body = refl;
    has_type = refl;
    has_payload = refl;
    has_server = asked;
  }

  -- What publishing a poll may do.
  pub data Followed (w : World S) (outcome : Result (Unit {0}) × World S) : Type 0 where
    unconfirmed :
        aws.confirms w.outside ≡ false → outcome ≡ (err amqp_error, w) → Followed w outcome
    followed_up :
        (m : Message) (body : Body)
        → aws.confirms w.outside ≡ true
        → outcome ≡ (ok tt, record w { poll_jobs = snoc w.poll_jobs m })
        → attempt_of body ≡ 1
        → ((v : World S) → process aws m v ≡ execute aws id "unknown" j body payload v)
        → Followed w outcome

  -- A follow-up poll of the MGN worker, of a type that the poller expects in some state, with a
  -- payload that names a server: where the broker does not confirm it, it raises and no queue
  -- changes; else one message goes to the end of the poller's queue, and whenever the poller reads
  -- it, it executes that poll for that server with that payload, as its first attempt and under the
  -- job id "unknown".
  pub dispatch_follow_up-Followed :
      (w : World S) (expected : String)
      → valid_states_for_poll j ≡ some expected
      → Followed w (dispatch_follow_up aws j payload w)
  unfolding dispatch_follow_up publish enqueue followed
  dispatch_follow_up-Followed w expected known = elim (Bool-cases (aws.confirms w.outside)) [
    | inr d ↦ unconfirmed d (rw d refl)
    | inl d ↦
        followed_up (follow_up j payload) _ d (rw (d, poll-routing j expected known) refl) refl
          (λ v. process-Asks aws (follow_up j payload) id j followed v)
  ]
