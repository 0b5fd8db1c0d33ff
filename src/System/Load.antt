-- ===== src/System/Load.antt =====
-- How much work the queues hold: a bound on the turns that the workers can still take.
pub mod FollowUps
pub mod Mgn
pub mod Poller
pub mod Rollback
pub mod Turns
pub mod Rest
pub mod Rounds
pub mod Limit
use migration_orchestrator_k.Prelude.{
  ℕ, ◌+◌, ◌-◌, ◌*◌, ◌≤◌, String, ◌≡◌, refl, List, [], ◌∷◌, ◌++◌, snoc, Bool, true, false, not, ◌&&◌,
  none, some, Option, if◌then◌else◌, arith, length, ◌==◌, Bool-cases, inl, inr,
}
use migration_orchestrator_k.Exec.{Result, ok, err, Exec}
use migration_orchestrator_k.Exec.Adds.{Adds, or_zero}
use migration_orchestrator_k.Jobs
use migration_orchestrator_k.Jobs.{
  entry, JobType, JsonObject, Message, Body, null, get_default, truthy, required, job_type_of,
  queue_routing,
}
use migration_orchestrator_k.Db.{Db, Server}
use migration_orchestrator_k.Services.{Services, Command}
use migration_orchestrator_k.World.{World, on_db, publish, enqueue, call, read}
use migration_orchestrator_k.Dispatcher.{follow_up, dispatch_poll, dispatch_follow_up}
use migration_orchestrator_k.Poller.Loop.{attempt_of}
use migration_orchestrator_k.Client

-- The polls with two phases.
abbrev pub is_two_phase : JobType → Bool
is_two_phase Jobs.poll_test_instance_status = true
is_two_phase Jobs.poll_cutover_instance_status = true
is_two_phase _ = false

-- What handling a poll may add to the load: each attempt that is left adds the message again, and
-- the first phase adds the second phase with its own attempts.
abbrev pub poll_cost : JobType → JsonObject → ℕ → ℕ
poll_cost j payload n =
    if is_two_phase j && not (truthy (get_default payload "ec2_instance_id" null))
    then 62 * (1 + (30 - n))
    else 2 * (30 - n)

-- What handling a job of the MGN worker may add: the messages that it publishes.
abbrev pub mgn_cost : JobType → JsonObject → ℕ → ℕ
mgn_cost Jobs.start_replication payload n = 60
mgn_cost Jobs.launch_test_instance payload n = 1862
mgn_cost Jobs.start_cutover payload n = 60
mgn_cost Jobs.launch_cutover_instance payload n = 1862
mgn_cost Jobs.finalize_cutover payload n = 62
mgn_cost Jobs.disconnect_source_server payload n = 60
mgn_cost _ payload n = 0

-- A message that cannot be read costs nothing but itself.
unfoldable pub message_cost : (JobType → JsonObject → ℕ → ℕ) → Message → ℕ
unfolding or_zero
message_cost cost m = or_zero (Jobs.load m) λ body.
    or_zero (required "job_type" (entry body.texts "job_type")) λ text.
      or_zero (job_type_of text) λ j.
        or_zero (required "payload" (entry body.objects "payload"))
          λ payload. cost j payload (attempt_of body)

-- Taking a message is a turn, and its place among the dead letters is another.
abbrev pub total : (Message → ℕ) → List Message → ℕ
total cost [] = 0
total cost (m ∷ rest) = 2 + cost m + total cost rest

pub total-snoc :
    (cost : Message → ℕ) (ms : List Message) (m : Message)
    → total cost (snoc ms m) ≡ total cost ms + (2 + cost m)
total-snoc cost [] m = omega arith
total-snoc cost (x ∷ ms) m = omega (arith, total-snoc cost ms m)

module _ {S : Type 0} where
  -- The turns that the two workers and the rollback worker can still take.
  unfoldable pub load : World S → ℕ
  unfolding message_cost
  load w =
      total (message_cost mgn_cost) w.mgn_jobs
      + total (message_cost poll_cost) w.poll_jobs
      + length w.mgn_jobs_failed
      + length w.poll_jobs_failed

  pub on_db-Adds : {A : Type 0} {n : ℕ} (m : Exec Db A) → Adds load n (on_db m)
  unfolding on_db load
  on_db-Adds {n = n} m = record { bounded = λ w. omega arith }

  pub advance-Adds :
      {n : ℕ} (id state : String) (job_id job_type : Option String) (metadata : Option JsonObject)
      → Adds load n (Client.advance_state id state job_id job_type metadata)
  unfolding Client.advance_state
  advance-Adds id state job_id job_type metadata = on_db-Adds _

  pub set_aws-Adds :
      {n : ℕ} (id aws_id : String) → Adds load n (Client.set_aws_source_server_id id aws_id)
  unfolding Client.set_aws_source_server_id
  set_aws-Adds id aws_id = on_db-Adds _

  pub get_server_state-Adds : {n : ℕ} (id : String) → Adds load n (Client.get_server_state id)
  unfolding Client.get_server_state
  get_server_state-Adds id = on_db-Adds _

  pub get_server-Adds : {n : ℕ} (id : String) → Adds load n (Client.get_server id)
  unfolding Client.get_server
  get_server-Adds id = on_db-Adds _

module _ {S : Type 0} (aws : Services S) where
  pub call-Adds : {n : ℕ} (c : Command) → Adds (load {S = S}) n (call aws c)
  unfolding call load
  call-Adds c = record { bounded = λ w. omega arith }

  pub read-Adds : {A : Type 0} {n : ℕ} (f : S → Result A) → Adds (load {S = S}) n (read aws f)
  unfolding read
  read-Adds f = record { bounded = λ w. omega arith }

  pub publish_poll-Adds :
      (m : Message) → Adds (load {S = S}) (2 + message_cost poll_cost m) (publish aws "poll_jobs" m)
  unfolding publish enqueue load
  publish_poll-Adds m = record {
    bounded = λ w. elim (Bool-cases (aws.confirms w.outside)) [
      | inl e ↦ rw e (omega (arith, total-snoc (message_cost poll_cost) w.poll_jobs m))
      | inr e ↦ rw e (omega arith)
    ];
  }

  pub publish_mgn-Adds :
      (m : Message) → Adds (load {S = S}) (2 + message_cost mgn_cost m) (publish aws "mgn_jobs" m)
  unfolding publish enqueue load
  publish_mgn-Adds m = record {
    bounded = λ w. elim (Bool-cases (aws.confirms w.outside)) [
      | inl e ↦ rw e (omega (arith, total-snoc (message_cost mgn_cost) w.mgn_jobs m))
      | inr e ↦ rw e (omega arith)
    ];
  }
