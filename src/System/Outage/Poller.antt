-- ===== src/System/Outage/Poller.antt =====
-- The poller worker while AWS is down.
use migration_orchestrator_k.Prelude.{String, ◌≡◌, Option, none, some}
use migration_orchestrator_k.Exec.{Exec}
use migration_orchestrator_k.Exec.Keeps.{Keeps, keeps_rules}
use migration_orchestrator_k.Exec.Yields.{Yields, Keeps-after, yields_rules}
use migration_orchestrator_k.Jobs
use migration_orchestrator_k.Jobs.{JobType, JsonObject, Value, Body, Message}
use migration_orchestrator_k.Services.{Services}
use migration_orchestrator_k.World.{World}
use migration_orchestrator_k.Client
use migration_orchestrator_k.Poller.Handlers
use migration_orchestrator_k.Poller.Handlers.{PollResult, complete, in_progress, failed, dispatched}
use migration_orchestrator_k.Poller.Loop as PollerLoop
use migration_orchestrator_k.System.Outage.{
  IsDown, sources_down, jobs_down, statuses_down, get_state-Keeps,
}

module _ {S : Type 0} (aws : Services S) (down : IsDown aws) (Inv : World S → Type 0)
    (outer : (w : World S) (s : S) → Inv w → Inv (record w { outside = s })) where
  abbrev Kept : {A : Type 0} → Exec (World S) A → Type 0
  Kept m = Keeps Inv m

  abbrev IsFailed : PollResult → Type 0
  IsFailed r = r ≡ failed

  abbrev Fails : Exec (World S) PollResult → Type 0
  Fails m = Yields Inv IsFailed m

  check-Fails : (state : String) (v : Value) → Fails (Handlers.check_reachability aws state v)
  unfolding Handlers.check_reachability
  check-Fails state v =
      search (statuses_down aws down Inv outer, yields_rules, keeps_rules) depth 12

  poll_replication_status-Fails :
      (payload : JsonObject) → Fails (Handlers.poll_replication_status aws payload)
  unfolding Handlers.poll_replication_status
  poll_replication_status-Fails payload =
      search (sources_down aws down Inv outer, yields_rules, keeps_rules) depth 20

  poll_test_instance_status-Fails :
      (payload : JsonObject) → Fails (Handlers.poll_test_instance_status aws payload)
  unfolding Handlers.poll_test_instance_status
  poll_test_instance_status-Fails payload =
      search (jobs_down aws down Inv outer, check-Fails, yields_rules, keeps_rules) depth 20

  poll_cutover_sync_status-Fails :
      (payload : JsonObject) → Fails (Handlers.poll_cutover_sync_status aws payload)
  unfolding Handlers.poll_cutover_sync_status
  poll_cutover_sync_status-Fails payload =
      search (jobs_down aws down Inv outer, yields_rules, keeps_rules) depth 20

  poll_cutover_instance_status-Fails :
      (payload : JsonObject) → Fails (Handlers.poll_cutover_instance_status aws payload)
  unfolding Handlers.poll_cutover_instance_status
  poll_cutover_instance_status-Fails payload =
      search (sources_down aws down Inv outer, check-Fails, yields_rules, keeps_rules) depth 20

  poll_disconnect_status-Fails :
      (payload : JsonObject) → Fails (Handlers.poll_disconnect_status aws payload)
  unfolding Handlers.poll_disconnect_status
  poll_disconnect_status-Fails payload =
      search (sources_down aws down Inv outer, yields_rules, keeps_rules) depth 20

  handled :
      (id job_id : String) (j : JobType) (body : Body) (payload : JsonObject)
      (handle : JsonObject → Exec (World S) PollResult)
      → Fails (handle payload)
      → Kept (PollerLoop.run_handler aws id job_id j body payload (some handle))
  unfolding PollerLoop.act
  handled id job_id j body payload handle y =
      Keeps-after (handle payload) (PollerLoop.act aws id job_id j body) y
        (λ r e. rw e (search keeps_rules))

  run_handler-Keeps :
      (id job_id : String) (j : JobType) (body : Body) (payload : JsonObject)
      → Kept (PollerLoop.run_handler aws id job_id j body payload (PollerLoop.handler aws j))
  unfolding PollerLoop.handler
  run_handler-Keeps id job_id Jobs.poll_replication_status body payload =
      handled id job_id Jobs.poll_replication_status body payload
        (Handlers.poll_replication_status aws) (poll_replication_status-Fails payload)
  run_handler-Keeps id job_id Jobs.poll_test_instance_status body payload =
      handled id job_id Jobs.poll_test_instance_status body payload
        (Handlers.poll_test_instance_status aws) (poll_test_instance_status-Fails payload)
  run_handler-Keeps id job_id Jobs.poll_cutover_sync_status body payload =
      handled id job_id Jobs.poll_cutover_sync_status body payload
        (Handlers.poll_cutover_sync_status aws) (poll_cutover_sync_status-Fails payload)
  run_handler-Keeps id job_id Jobs.poll_cutover_instance_status body payload =
      handled id job_id Jobs.poll_cutover_instance_status body payload
        (Handlers.poll_cutover_instance_status aws) (poll_cutover_instance_status-Fails payload)
  run_handler-Keeps id job_id Jobs.poll_disconnect_status body payload =
      handled id job_id Jobs.poll_disconnect_status body payload
        (Handlers.poll_disconnect_status aws) (poll_disconnect_status-Fails payload)
  run_handler-Keeps id job_id _ body payload = search keeps_rules

  state_is-Keeps : (id : String) (expected : Option String) → Kept (Client.state_is id expected)
  state_is-Keeps id none = search keeps_rules
  state_is-Keeps id (some state) = search (keeps_rules, get_state-Keeps Inv)

  execute-Keeps :
      (id job_id : String) (j : JobType) (body : Body) (payload : JsonObject)
      → Kept (PollerLoop.execute aws id job_id j body payload)
  unfolding PollerLoop.execute Client.is_poll_valid
  execute-Keeps id job_id j body payload = search (keeps_rules, state_is-Keeps, run_handler-Keeps)

  process-Keeps : (m : Message) → Kept (PollerLoop.process aws m)
  unfolding PollerLoop.process
  process-Keeps m = search (keeps_rules, execute-Keeps) depth 20

  pub on_message-Keeps : (m : Message) → Kept (PollerLoop.on_message aws m)
  unfolding PollerLoop.on_message
  on_message-Keeps m = search (keeps_rules, process-Keeps)
