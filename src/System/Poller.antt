-- ===== src/System/Poller.antt =====
-- Whatever the changes of the tables keep, a message to the poller worker keeps.
use migration_orchestrator_k.Prelude.{
  ℕ, Bool, true, false, if◌then◌else◌, ◌+◌, String, Option, none, some, List, [], ◌∷◌, ◌≡◌, inl,
  inr, Bool-cases,
}
use migration_orchestrator_k.Exec.{Exec, lift, pure, ◌>>=◌}
use migration_orchestrator_k.Exec.Keeps.{Keeps, Keeps-lift, keeps_rules}
use migration_orchestrator_k.Exec.Yields.{
  Yields, Yields-bind, Yields-else, Keeps-after, yields_rules,
}
use migration_orchestrator_k.Jobs
use migration_orchestrator_k.Jobs.{
  assign, JobType, JsonObject, Value, Body, Message, null, get_item, get_default, truthy,
}
use migration_orchestrator_k.Db.{Db}
use migration_orchestrator_k.StateManager.Unattended.{Unattended, IsFree, free_states}
use migration_orchestrator_k.Services.{Services, SourceServer, MgnJob}
use migration_orchestrator_k.World.{World}
use migration_orchestrator_k.Client
use migration_orchestrator_k.Mgn.Results.{Verdict, ack}
use migration_orchestrator_k.Poller.Handlers
use migration_orchestrator_k.Poller.Handlers.{PollResult, complete, in_progress, failed, dispatched}
use migration_orchestrator_k.Poller.Loop
use migration_orchestrator_k.System.Outdated.{expecting, test_outdated, cutover_outdated}
use migration_orchestrator_k.System.Changes.{
  Holds, get_server_state-Keeps, publish-Keeps, read-Keeps, dispatch_poll-Keeps, advance-Keeps,
}

module _ {S : Type 0} (aws : Services S) (P : Db → Type 0)
    (closed : (db db' : Db) → Unattended db db' → P db → P db') where
  abbrev Kept : {A : Type 0} → Exec (World S) A → Type 0
  Kept m = Keeps (Holds P) m

  -- What a handler returns asks for no move behind a gate.
  abbrev IsFreeResult : PollResult → Type 0
  IsFreeResult (complete state) = IsFree state
  IsFreeResult in_progress = Unit
  IsFreeResult failed = Unit
  IsFreeResult dispatched = Unit

  abbrev Gives : Exec (World S) PollResult → Type 0
  Gives m = Yields (Holds P) IsFreeResult m

  free_if :
      (test : Bool) (here there : PollResult)
      → IsFreeResult here
      → IsFreeResult there
      → IsFreeResult (if test then here else there)
  free_if true here there h t = h
  free_if false here there h t = t

  replication_free :
      (items : List SourceServer) → IsFreeResult (Handlers.replication_result aws items)
  replication_free [] = tt
  replication_free (item ∷ rest) = search (free_if, free_states, tt)

  sync_free : (jobs : List MgnJob) → IsFreeResult (Handlers.sync_result aws jobs)
  sync_free [] = tt
  sync_free (job ∷ rest) = search (free_if, free_states, tt)

  enter_phase_two-Yields :
      (state : String) (j : JobType) (server_id aws_id ec2_id : Value)
      → IsFree state
      → Gives (Handlers.enter_phase_two aws state j server_id aws_id ec2_id)
  unfolding Handlers.enter_phase_two
  enter_phase_two-Yields state j server_id aws_id ec2_id free =
      search
        (yields_rules, keeps_rules, free_states, advance-Keeps P closed, dispatch_poll-Keeps aws P)
        depth 12

  fallback-Keeps : (aws_id found : Value) → Kept (Handlers.instance_or_fallback aws aws_id found)
  fallback-Keeps aws_id found =
      search (yields_rules, keeps_rules, free_states, read-Keeps aws P) depth 12

  after_test_launch-Yields :
      (server_id aws_id found : Value)
      → Gives (Handlers.after_test_launch aws server_id aws_id found)
  after_test_launch-Yields server_id aws_id found =
      search (yields_rules, keeps_rules, free_states, tt, fallback-Keeps, enter_phase_two-Yields)
        depth 8

  test_job_result-Yields :
      (server_id aws_id : Value) (jobs : List MgnJob)
      → Gives (Handlers.test_job_result aws server_id aws_id jobs)
  test_job_result-Yields server_id aws_id [] = search (yields_rules, tt)
  test_job_result-Yields server_id aws_id (job ∷ rest) =
      search (yields_rules, keeps_rules, free_states, tt, after_test_launch-Yields) depth 8

  cutover_result-Yields :
      (server_id aws_id : Value) (items : List SourceServer)
      → Gives (Handlers.cutover_result aws server_id aws_id items)
  cutover_result-Yields server_id aws_id [] = search (yields_rules, tt)
  cutover_result-Yields server_id aws_id (item ∷ rest) =
      search (yields_rules, keeps_rules, free_states, tt, enter_phase_two-Yields) depth 8

  confirm_disconnected-Yields :
      (server_id : Value) → Gives (Handlers.confirm_disconnected aws server_id)
  unfolding Handlers.confirm_disconnected
  confirm_disconnected-Yields server_id =
      search (yields_rules, keeps_rules, free_states, advance-Keeps P closed) depth 8

  disconnect_result-Yields :
      (server_id : Value) (items : List SourceServer)
      → Gives (Handlers.disconnect_result aws server_id items)
  disconnect_result-Yields server_id [] = confirm_disconnected-Yields server_id
  disconnect_result-Yields server_id (item ∷ rest) =
      search (yields_rules, keeps_rules, free_states, tt, confirm_disconnected-Yields) depth 8

  replication_status-Yields :
      (payload : JsonObject) → Gives (Handlers.poll_replication_status aws payload)
  unfolding Handlers.poll_replication_status
  replication_status-Yields payload =
      search (yields_rules, keeps_rules, free_states, replication_free, tt, read-Keeps aws P) depth
        20

  -- Phase 1 of the test instance poll.
  test_instance_status-Yields :
      (payload : JsonObject)
      → truthy (get_default payload "ec2_instance_id" null) ≡ false
      → Gives (Handlers.poll_test_instance_status aws payload)
  unfolding Handlers.poll_test_instance_status
  test_instance_status-Yields payload e =
      Yields-bind (lift (get_item payload "server_id")) _ (Keeps-lift _) λ server_id.
        Yields-else _ _ e (
          search
            (yields_rules, keeps_rules, free_states, tt, read-Keeps aws P, test_job_result-Yields)
            depth 20)

  cutover_sync_status-Yields :
      (payload : JsonObject) → Gives (Handlers.poll_cutover_sync_status aws payload)
  unfolding Handlers.poll_cutover_sync_status
  cutover_sync_status-Yields payload =
      search (yields_rules, keeps_rules, free_states, sync_free, tt, read-Keeps aws P) depth 20

  -- Phase 1 of the cutover instance poll.
  cutover_instance_status-Yields :
      (payload : JsonObject)
      → truthy (get_default payload "ec2_instance_id" null) ≡ false
      → Gives (Handlers.poll_cutover_instance_status aws payload)
  unfolding Handlers.poll_cutover_instance_status
  cutover_instance_status-Yields payload e =
      Yields-bind (lift (get_item payload "server_id")) _ (Keeps-lift _) λ server_id.
        Yields-bind (lift (get_item payload "aws_source_server_id")) _ (Keeps-lift _) λ aws_id.
          Yields-else _ _ e (
            search
              (yields_rules, keeps_rules, free_states, tt, read-Keeps aws P, cutover_result-Yields)
              depth 20)

  disconnect_status-Yields :
      (payload : JsonObject) → Gives (Handlers.poll_disconnect_status aws payload)
  unfolding Handlers.poll_disconnect_status
  disconnect_status-Yields payload =
      search
        (yields_rules, keeps_rules, free_states, tt, read-Keeps aws P, disconnect_result-Yields)
        depth 20

  reenqueue-Keeps : (body : Body) (n : ℕ) → Kept (Loop.reenqueue aws body n)
  unfolding Loop.reenqueue
  reenqueue-Keeps body n = publish-Keeps aws P "poll_jobs" (record {
    message_id = none;
    body = some (record body { numbers = assign body.numbers "attempt" (n + 1) });
  })

  act-Keeps :
      (id job_id : String) (j : JobType) (body : Body) (result : PollResult)
      → IsFreeResult result
      → Kept (Loop.act aws id job_id j body result)
  unfolding Loop.act
  act-Keeps id job_id j body (complete state) free = search (keeps_rules, advance-Keeps P closed)
  act-Keeps id job_id j body in_progress free = search (keeps_rules, reenqueue-Keeps) depth 8
  act-Keeps id job_id j body dispatched free = search keeps_rules
  act-Keeps id job_id j body failed free = search keeps_rules

  handled :
      (id job_id : String) (j : JobType) (body : Body) (payload : JsonObject)
      (handle : JsonObject → Exec (World S) PollResult)
      → Gives (handle payload)
      → Kept (Loop.run_handler aws id job_id j body payload (some handle))
  handled id job_id j body payload handle y =
      Keeps-after (handle payload) (Loop.act aws id job_id j body) y (act-Keeps id job_id j body)

  -- The state check lets phase 2 through too early, and phase 1 in time.
  test_poll-Keeps :
      (id job_id : String) (body : Body) (payload : JsonObject)
      → Kept (Loop.execute aws id job_id Jobs.poll_test_instance_status body payload)
  unfolding Loop.execute Client.is_poll_valid Client.valid_states_for_poll Loop.handler
  test_poll-Keeps id job_id body payload =
      expecting aws P id "TEST_INSTANCE_LAUNCHING" "AWAITING_TEST_VALIDATION" _ λ w at.
        elim (Bool-cases (truthy (get_default payload "ec2_instance_id" null))) [
          | inl e ↦ ((test_outdated aws P id job_id body payload e).holds w at).0
          | inr e ↦
              (handled id job_id Jobs.poll_test_instance_status body payload
                  (Handlers.poll_test_instance_status aws)
                  (test_instance_status-Yields payload e)).holds
                w at.0
        ]

  cutover_poll-Keeps :
      (id job_id : String) (body : Body) (payload : JsonObject)
      → Kept (Loop.execute aws id job_id Jobs.poll_cutover_instance_status body payload)
  unfolding Loop.execute Client.is_poll_valid Client.valid_states_for_poll Loop.handler
  cutover_poll-Keeps id job_id body payload =
      expecting aws P id "CUTOVER_INSTANCE_LAUNCHING" "AWAITING_CUTOVER_VALIDATION" _ λ w at.
        elim (Bool-cases (truthy (get_default payload "ec2_instance_id" null))) [
          | inl e ↦ ((cutover_outdated aws P id job_id body payload e).holds w at).0
          | inr e ↦
              (handled id job_id Jobs.poll_cutover_instance_status body payload
                  (Handlers.poll_cutover_instance_status aws)
                  (cutover_instance_status-Yields payload e)).holds
                w at.0
        ]

  state_is-Keeps : (id : String) (expected : Option String) → Kept (Client.state_is id expected)
  state_is-Keeps id none = search keeps_rules
  state_is-Keeps id (some state) = search (keeps_rules, get_server_state-Keeps P)

  checked-Keeps :
      (id : String) (j : JobType) (next : Exec (World S) Verdict)
      → Kept next
      → Kept (Client.is_poll_valid id j >>= λ valid. if valid then next else pure ack)
  unfolding Client.is_poll_valid
  checked-Keeps id j next k = search (keeps_rules, state_is-Keeps)

  execute-Keeps :
      (id job_id : String) (j : JobType) (body : Body) (payload : JsonObject)
      → Kept (Loop.execute aws id job_id j body payload)
  unfolding Loop.execute Loop.handler
  execute-Keeps id job_id Jobs.poll_test_instance_status body payload =
      test_poll-Keeps id job_id body payload
  execute-Keeps id job_id Jobs.poll_cutover_instance_status body payload =
      cutover_poll-Keeps id job_id body payload
  execute-Keeps id job_id Jobs.poll_replication_status body payload =
      checked-Keeps id Jobs.poll_replication_status _ (
        handled id job_id Jobs.poll_replication_status body payload
          (Handlers.poll_replication_status aws) (replication_status-Yields payload))
  execute-Keeps id job_id Jobs.poll_cutover_sync_status body payload =
      checked-Keeps id Jobs.poll_cutover_sync_status _ (
        handled id job_id Jobs.poll_cutover_sync_status body payload
          (Handlers.poll_cutover_sync_status aws) (cutover_sync_status-Yields payload))
  execute-Keeps id job_id Jobs.poll_disconnect_status body payload =
      checked-Keeps id Jobs.poll_disconnect_status _ (
        handled id job_id Jobs.poll_disconnect_status body payload
          (Handlers.poll_disconnect_status aws) (disconnect_status-Yields payload))
  execute-Keeps id job_id _ body payload = checked-Keeps id _ _ (search keeps_rules)

  process-Keeps : (m : Message) → Kept (Loop.process aws m)
  unfolding Loop.process
  process-Keeps m = search (keeps_rules, execute-Keeps) depth 20

  -- Any message, and any answers of the outside world.
  pub on_message-Keeps : (m : Message) → Kept (Loop.on_message aws m)
  unfolding Loop.on_message
  on_message-Keeps m = search (keeps_rules, process-Keeps)
