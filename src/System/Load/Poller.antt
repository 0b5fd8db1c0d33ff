-- ===== src/System/Load/Poller.antt =====
-- What a turn of the poller worker adds to the load: the next attempt, or the second phase.
use migration_orchestrator_k.Prelude.{
  ℕ, ◌+◌, ◌-◌, ◌*◌, ◌≤◌, String, Option, none, some, Bool, true, false, List, [], ◌∷◌, arith, ◌≡◌,
  refl, sym, not, ◌&&◌, leb, Bool-cases, inl, inr, if◌then◌else◌,
}
use migration_orchestrator_k.Exec.{Exec, ok}
use migration_orchestrator_k.Exec.Adds.{
  Adds, Adds-more, Adds-read, Adds-then, Adds-last, Adds-bind, Adds-lift, Adds-pure, or_zero,
  adds_rules,
}
use migration_orchestrator_k.Jobs
use migration_orchestrator_k.Jobs.Reading.{entry-assign}
use migration_orchestrator_k.Jobs.{
  entry, assign, JobType, JsonObject, Value, Message, Body, null, job_value, parse_job_type,
  job_type_of, required, get_default, truthy,
}
use migration_orchestrator_k.Services.{Services, SourceServer, MgnJob}
use migration_orchestrator_k.World.{World}
use migration_orchestrator_k.Dispatcher.{dispatch_poll, follow_up}
use migration_orchestrator_k.Client
use migration_orchestrator_k.Poller.Handlers
use migration_orchestrator_k.Poller.Handlers.{
  PollResult, complete, in_progress, failed, dispatched, phase_two_payload,
}
use migration_orchestrator_k.Poller.Loop
use migration_orchestrator_k.Poller.Loop.{attempt_of}
use migration_orchestrator_k.Poller.Attempts.{retried}
use migration_orchestrator_k.System.Load.{
  load, message_cost, poll_cost, is_two_phase, read-Adds, advance-Adds, get_server_state-Adds,
  publish_poll-Adds,
}

ruleset quiet_rules = (adds_rules, read-Adds, advance-Adds)

module _ {S : Type 0} (aws : Services S) where
  abbrev Costs : {A : Type 0} → ℕ → Exec (World S) A → Type 0
  Costs n m = Adds load n m

  -- A poll for one phase, of a message that names its instance.
  second_test-Costs :
      (server_id aws_id ec2_id : Value)
      → truthy ec2_id ≡ true
      → Costs 60 (
          dispatch_poll aws Jobs.poll_test_instance_status
            (phase_two_payload server_id aws_id ec2_id))
  unfolding dispatch_poll message_cost or_zero Jobs.load required job_type_of parse_job_type
      job_value get_default
  second_test-Costs server_id aws_id ec2_id t = Adds-more (rw t (omega arith)) (
      publish_poll-Adds aws
        (follow_up Jobs.poll_test_instance_status (phase_two_payload server_id aws_id ec2_id)))

  second_cutover-Costs :
      (server_id aws_id ec2_id : Value)
      → truthy ec2_id ≡ true
      → Costs 60 (
          dispatch_poll aws Jobs.poll_cutover_instance_status
            (phase_two_payload server_id aws_id ec2_id))
  unfolding dispatch_poll message_cost or_zero Jobs.load required job_type_of parse_job_type
      job_value get_default
  second_cutover-Costs server_id aws_id ec2_id t = Adds-more (rw t (omega arith)) (
      publish_poll-Adds aws
        (follow_up Jobs.poll_cutover_instance_status (phase_two_payload server_id aws_id ec2_id)))

  -- Both branches, where each may use how the test came out.
  when_truthy :
      {A : Type 0} {n : ℕ} (v : Value) (here there : Exec (World S) A)
      → (truthy v ≡ true → Costs n here)
      → Costs n there
      → Costs n (if truthy v then here else there)
  when_truthy v here there h t = elim (Bool-cases (truthy v)) [
    | inl e ↦ rw e (h e)
    | inr e ↦ rw e t
  ]

  enter_test-Costs :
      (server_id aws_id ec2_id : Value)
      → truthy ec2_id ≡ true
      → Costs 60 (
          Handlers.enter_phase_two aws "TEST_INSTANCE_RUNNING" Jobs.poll_test_instance_status
            server_id aws_id ec2_id)
  unfolding Handlers.enter_phase_two
  enter_test-Costs server_id aws_id ec2_id t = search (quiet_rules, second_test-Costs) depth 12

  enter_cutover-Costs :
      (server_id aws_id ec2_id : Value)
      → truthy ec2_id ≡ true
      → Costs 60 (
          Handlers.enter_phase_two aws "CUTOVER_INSTANCE_RUNNING" Jobs.poll_cutover_instance_status
            server_id aws_id ec2_id)
  unfolding Handlers.enter_phase_two
  enter_cutover-Costs server_id aws_id ec2_id t =
      search (quiet_rules, second_cutover-Costs) depth 12

  check_reachability-Costs :
      {n : ℕ} (state : String) (ec2_id : Value)
      → Costs n (Handlers.check_reachability aws state ec2_id)
  unfolding Handlers.check_reachability
  check_reachability-Costs state ec2_id = search quiet_rules depth 10

  fallback-Costs :
      {n : ℕ} (aws_id found : Value) → Costs n (Handlers.instance_or_fallback aws aws_id found)
  fallback-Costs aws_id found = search quiet_rules depth 12

  after_test_launch-Costs :
      (server_id aws_id found : Value)
      → Costs 60 (Handlers.after_test_launch aws server_id aws_id found)
  after_test_launch-Costs server_id aws_id found =
      Adds-then _ _ (fallback-Costs aws_id found) λ ec2_id.
        when_truthy ec2_id _ _ (enter_test-Costs server_id aws_id ec2_id) (Adds-pure failed)

  test_job_result-Costs :
      (server_id aws_id : Value) (jobs : List MgnJob)
      → Costs 60 (Handlers.test_job_result aws server_id aws_id jobs)
  test_job_result-Costs server_id aws_id [] = search adds_rules
  test_job_result-Costs server_id aws_id (job ∷ rest) = search (adds_rules, after_test_launch-Costs)

  cutover_result-Costs :
      (server_id aws_id : Value) (items : List SourceServer)
      → Costs 60 (Handlers.cutover_result aws server_id aws_id items)
  cutover_result-Costs server_id aws_id [] = search adds_rules
  cutover_result-Costs server_id aws_id (item ∷ rest) =
      search (adds_rules, when_truthy, enter_cutover-Costs)

  confirm_disconnected-Costs :
      (server_id : Value) → Costs 0 (Handlers.confirm_disconnected aws server_id)
  unfolding Handlers.confirm_disconnected
  confirm_disconnected-Costs server_id = search quiet_rules depth 8

  disconnect_result-Costs :
      (server_id : Value) (items : List SourceServer)
      → Costs 0 (Handlers.disconnect_result aws server_id items)
  disconnect_result-Costs server_id [] = confirm_disconnected-Costs server_id
  disconnect_result-Costs server_id (item ∷ rest) = search (adds_rules, confirm_disconnected-Costs)

  -- What the handler of a poll adds: the second phase, from the first.
  abbrev phase_cost : JobType → JsonObject → ℕ
  phase_cost j payload =
      if is_two_phase j && not (truthy (get_default payload "ec2_instance_id" null)) then 60 else 0

  replication_status-Costs :
      (payload : JsonObject) → Costs 0 (Handlers.poll_replication_status aws payload)
  unfolding Handlers.poll_replication_status
  replication_status-Costs payload = search quiet_rules depth 20

  sync_status-Costs :
      (payload : JsonObject) → Costs 0 (Handlers.poll_cutover_sync_status aws payload)
  unfolding Handlers.poll_cutover_sync_status
  sync_status-Costs payload = search quiet_rules depth 20

  disconnect_status-Costs :
      (payload : JsonObject) → Costs 0 (Handlers.poll_disconnect_status aws payload)
  unfolding Handlers.poll_disconnect_status
  disconnect_status-Costs payload = search (quiet_rules, disconnect_result-Costs) depth 20

  test_instance_status-Costs :
      (payload : JsonObject)
      → Costs
          (phase_cost Jobs.poll_test_instance_status payload)
          (Handlers.poll_test_instance_status aws payload)
  unfolding Handlers.poll_test_instance_status
  test_instance_status-Costs payload =
      elim (Bool-cases (truthy (get_default payload "ec2_instance_id" null))) [
        | inl e ↦ rw e (search (quiet_rules, check_reachability-Costs) depth 20)
        | inr e ↦ rw e (search (quiet_rules, test_job_result-Costs) depth 20)
      ]

  cutover_instance_status-Costs :
      (payload : JsonObject)
      → Costs
          (phase_cost Jobs.poll_cutover_instance_status payload)
          (Handlers.poll_cutover_instance_status aws payload)
  unfolding Handlers.poll_cutover_instance_status
  cutover_instance_status-Costs payload =
      elim (Bool-cases (truthy (get_default payload "ec2_instance_id" null))) [
        | inl e ↦ rw e (search (quiet_rules, check_reachability-Costs) depth 20)
        | inr e ↦ rw e (search (quiet_rules, cutover_result-Costs) depth 20)
      ]

  -- What `act` adds: the next attempt, where one is left.
  abbrev retry_cost : JobType → JsonObject → ℕ → ℕ
  retry_cost j payload n = if leb 30 n then 0 else 2 + poll_cost j payload (n + 1)

  -- The retry reads the same job.
  abbrev IsRetryOf : JobType → JsonObject → Body → Type 0
  IsRetryOf j payload body =
      (n : ℕ) → message_cost poll_cost (retried body n) ≡ poll_cost j payload n

  covered :
      (test : Bool) (n : ℕ)
      → (if test then 60 else 0)
          + (if leb 30 n
              then 0
              else 2 + (if test then 62 * (1 + (30 - (n + 1))) else 2 * (30 - (n + 1))))
        ≤ (if test then 62 * (1 + (30 - n)) else 2 * (30 - n))
  covered true n = ground arith
  covered false n = ground arith

  reenqueue-Costs :
      (body : Body) (n : ℕ)
      → Costs (2 + message_cost poll_cost (retried body (n + 1))) (Loop.reenqueue aws body n)
  unfolding Loop.reenqueue
  reenqueue-Costs body n = publish_poll-Adds aws (retried body (n + 1))

  act-Costs :
      (id job_id : String) (j : JobType) (body : Body) (payload : JsonObject) (result : PollResult)
      → IsRetryOf j payload body
      → Costs (retry_cost j payload (attempt_of body)) (Loop.act aws id job_id j body result)
  unfolding Loop.act
  act-Costs id job_id j body payload (complete state) same = search quiet_rules
  act-Costs id job_id j body payload in_progress same =
      elim (Bool-cases (leb 30 (attempt_of body))) [
        | inl e ↦ rw e (Adds-pure _)
        | inr e ↦
            rw (e, sym (same (attempt_of body + 1)))
              (Adds-last _ _ (reenqueue-Costs body (attempt_of body)) (λ done. Adds-pure _))
      ]
  act-Costs id job_id j body payload dispatched same = search adds_rules
  act-Costs id job_id j body payload failed same = search adds_rules

  handled :
      (id job_id : String) (j : JobType) (body : Body) (payload : JsonObject)
      (handle : JsonObject → Exec (World S) PollResult)
      → IsRetryOf j payload body
      → Costs (phase_cost j payload) (handle payload)
      → Costs
          (poll_cost j payload (attempt_of body))
          (Loop.run_handler aws id job_id j body payload (some handle))
  handled id job_id j body payload handle same c =
      Adds-more
        (covered (is_two_phase j && not (truthy (get_default payload "ec2_instance_id" null)))
          (attempt_of body))
        (Adds-bind (handle payload) (Loop.act aws id job_id j body) c
          (λ result. act-Costs id job_id j body payload result same))

  run_handler-Costs :
      (id job_id : String) (j : JobType) (body : Body) (payload : JsonObject)
      → IsRetryOf j payload body
      → Costs
          (poll_cost j payload (attempt_of body))
          (Loop.run_handler aws id job_id j body payload (Loop.handler aws j))
  unfolding Loop.handler
  run_handler-Costs id job_id Jobs.poll_replication_status body payload same =
      handled id job_id Jobs.poll_replication_status body payload
        (Handlers.poll_replication_status aws) same (replication_status-Costs payload)
  run_handler-Costs id job_id Jobs.poll_test_instance_status body payload same =
      handled id job_id Jobs.poll_test_instance_status body payload
        (Handlers.poll_test_instance_status aws) same (test_instance_status-Costs payload)
  run_handler-Costs id job_id Jobs.poll_cutover_sync_status body payload same =
      handled id job_id Jobs.poll_cutover_sync_status body payload
        (Handlers.poll_cutover_sync_status aws) same (sync_status-Costs payload)
  run_handler-Costs id job_id Jobs.poll_cutover_instance_status body payload same =
      handled id job_id Jobs.poll_cutover_instance_status body payload
        (Handlers.poll_cutover_instance_status aws) same (cutover_instance_status-Costs payload)
  run_handler-Costs id job_id Jobs.poll_disconnect_status body payload same =
      handled id job_id Jobs.poll_disconnect_status body payload
        (Handlers.poll_disconnect_status aws) same (disconnect_status-Costs payload)
  run_handler-Costs id job_id _ body payload same = search adds_rules

  state_is-Costs : (id : String) (expected : Option String) → Costs 0 (Client.state_is id expected)
  state_is-Costs id none = search adds_rules
  state_is-Costs id (some state) = search (adds_rules, get_server_state-Adds)

  execute-Costs :
      (id job_id : String) (j : JobType) (body : Body) (payload : JsonObject)
      → IsRetryOf j payload body
      → Costs (poll_cost j payload (attempt_of body)) (Loop.execute aws id job_id j body payload)
  unfolding Loop.execute Client.is_poll_valid
  execute-Costs id job_id j body payload same =
      search (adds_rules, state_is-Costs, run_handler-Costs)

  attempt_of-assign :
      (body : Body) (n : ℕ)
      → attempt_of (record body { numbers = assign body.numbers "attempt" n }) ≡ n
  attempt_of-assign body n = rw (attempt_of, entry-assign body.numbers "attempt" n) refl

  read_back :
      (body : Body) (text : String) (j : JobType) (payload : JsonObject)
      → required "job_type" (entry body.texts "job_type") ≡ ok text
      → job_type_of text ≡ ok j
      → required "payload" (entry body.objects "payload") ≡ ok payload
      → IsRetryOf j payload body
  unfolding message_cost or_zero Jobs.load
  read_back body text j payload et ej ep n =
      rw et (rw ej (rw ep (rw (attempt_of-assign body n) refl)))

  process-Costs : (m : Message) → Costs (message_cost poll_cost m) (Loop.process aws m)
  unfolding Loop.process message_cost
  process-Costs m = search (Adds-read, Adds-then, Adds-lift, execute-Costs, read_back) depth 20

  -- Any message, and any answers of the outside world.
  pub on_message-Costs : (m : Message) → Costs (message_cost poll_cost m) (Loop.on_message aws m)
  unfolding Loop.on_message
  on_message-Costs m = search (adds_rules, process-Costs)
