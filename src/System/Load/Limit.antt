-- ===== src/System/Load/Limit.antt =====
-- The load in numbers: what one waiting message can lead to.
use migration_orchestrator_k.Prelude.{
  ℕ, ◌+◌, ◌-◌, ◌*◌, ◌≤◌, Bool, true, false, not, ◌&&◌, if◌then◌else◌, List, [], ◌∷◌, arith, length,
}
use migration_orchestrator_k.Exec.{Result, ok, err}
use migration_orchestrator_k.Exec.Adds.{or_zero}
use migration_orchestrator_k.Jobs
use migration_orchestrator_k.Jobs.{
  entry, JobType, JsonObject, Message, null, get_default, truthy, required, job_type_of,
}
use migration_orchestrator_k.Services.{Services}
use migration_orchestrator_k.World.{World}
use migration_orchestrator_k.Poller.Loop.{attempt_of}
use migration_orchestrator_k.System.Run.{Event, AllAutomatic}
use migration_orchestrator_k.System.Load.{
  load, total, message_cost, mgn_cost, poll_cost, is_two_phase,
}
use migration_orchestrator_k.System.Load.Rest.{turns_taken, run_bounded}

or_zero_below :
    {A : Type 0} {n : ℕ} (r : Result A) (f : A → ℕ) → ((a : A) → f a ≤ n) → or_zero r f ≤ n
unfolding or_zero
or_zero_below (err e) f h = omega arith
or_zero_below (ok a) f h = h a

message_below :
    (cost : JobType → JsonObject → ℕ → ℕ)
    → ((j : JobType) (payload : JsonObject) (n : ℕ) → cost j payload n ≤ 1922)
    → (m : Message) → message_cost cost m ≤ 1922
unfolding message_cost
message_below cost h m = or_zero_below (Jobs.load m) _ λ body.
    or_zero_below (required "job_type" (entry body.texts "job_type")) _ λ text.
      or_zero_below (job_type_of text) _ λ j.
        or_zero_below (required "payload" (entry body.objects "payload")) _
          λ payload. h j payload (attempt_of body)

mgn_below : (j : JobType) (payload : JsonObject) (n : ℕ) → mgn_cost j payload n ≤ 1922
mgn_below Jobs.start_replication payload n = omega arith
mgn_below Jobs.launch_test_instance payload n = omega arith
mgn_below Jobs.start_cutover payload n = omega arith
mgn_below Jobs.launch_cutover_instance payload n = omega arith
mgn_below Jobs.finalize_cutover payload n = omega arith
mgn_below Jobs.disconnect_source_server payload n = omega arith
mgn_below _ payload n = omega arith

attempts_below : (test : Bool) (n : ℕ) → (if test then 62 * (1 + (30 - n)) else 2 * (30 - n)) ≤ 1922
attempts_below true n = omega arith
attempts_below false n = omega arith

poll_below : (j : JobType) (payload : JsonObject) (n : ℕ) → poll_cost j payload n ≤ 1922
poll_below j payload n =
    attempts_below (is_two_phase j && not (truthy (get_default payload "ec2_instance_id" null))) n

total_below :
    (cost : Message → ℕ)
    → ((m : Message) → cost m ≤ 1922)
    → (ms : List Message) → total cost ms ≤ 1924 * length ms
total_below cost h [] = omega arith
total_below cost h (m ∷ ms) = omega (arith, h m, total_below cost h ms)

module _ {S : Type 0} where
  -- The messages that wait for a worker.
  abbrev pub waiting_messages : World S → ℕ
  waiting_messages w =
      length w.mgn_jobs + length w.poll_jobs + length w.mgn_jobs_failed + length w.poll_jobs_failed

  load_below : (w : World S) → load w ≤ 1924 * waiting_messages w
  unfolding load
  load_below w = omega (
    arith,
    total_below (message_cost mgn_cost) (message_below mgn_cost mgn_below) w.mgn_jobs,
    total_below (message_cost poll_cost) (message_below poll_cost poll_below) w.poll_jobs,
  )

module _ {S : Type 0} (aws : Services S) where
  -- Without requests, the workers take at most 1924 messages for each message that waits for one of
  -- them at the start, in any interleaving with the clock and the outside: they do not keep each
  -- other busy for ever.
  pub run_limited :
      (events : List (Event S)) (w : World S)
      → AllAutomatic events
      → turns_taken aws events w ≤ 1924 * waiting_messages w
  run_limited events w a = omega (arith, run_bounded aws events w a, load_below w)
