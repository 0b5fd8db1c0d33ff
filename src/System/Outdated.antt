-- ===== src/System/Outdated.antt =====
-- The result of phase 2 of an instance poll comes too early: the state check of the poller worker
-- passes only before the state that phase 2 would leave, so that its move is always refused.
use migration_orchestrator_k.Prelude.{
  String, ◌≡◌, inl, inr, sym, ◌∙◌, ap, subst, ◌≤◌, ◌+◌, ◌==◌, eq_iff, Option, some, Bool, true,
  false, List, [], ◌∷◌, Bool-cases, Option-cases, arith, get_or, if◌then◌else◌,
}
use migration_orchestrator_k.Exec.{Exec, lift, pure, ◌>>=◌}
use migration_orchestrator_k.Exec.Keeps.{Keeps, Keeps-lift, keeps_rules}
use migration_orchestrator_k.Exec.Yields.{
  Yields, Yields-bind, Yields-then, Keeps-after, yields_rules,
}
use migration_orchestrator_k.Jobs
use migration_orchestrator_k.Jobs.{
  JobType, JsonObject, Value, Body, null, get_item, get_default, truthy,
}
use migration_orchestrator_k.States
use migration_orchestrator_k.States.{ServerState, value}
use migration_orchestrator_k.Transitions.Diagram.{stage}
use migration_orchestrator_k.Transitions.Validate.{NamesEdge}
use migration_orchestrator_k.Db.{Db, find_server}
use migration_orchestrator_k.StateManager.Advance
use migration_orchestrator_k.StateManager.Advance.{advance_state-Advanced}
use migration_orchestrator_k.StateManager.Change.{life}
use migration_orchestrator_k.StateManager.Frozen.{value_injective}
use migration_orchestrator_k.Services.{Services, InstanceStatus}
use migration_orchestrator_k.World.{World, on_db}
use migration_orchestrator_k.Client
use migration_orchestrator_k.Mgn.Results.{Verdict, ack}
use migration_orchestrator_k.Mgn.Stale.{read_state, missing_state}
use migration_orchestrator_k.Poller.Handlers
use migration_orchestrator_k.Poller.Handlers.{PollResult, complete, in_progress, failed, dispatched}
use migration_orchestrator_k.Poller.Loop
use migration_orchestrator_k.System.Changes.{Holds, read-Keeps, publish-Keeps}

-- No edge skips a stage.
pub no_skip :
    (s t : ServerState) → stage s + 2 ≤ stage t → stage t ≤ 26 → NamesEdge (value s) (value t) → ⊥
no_skip s t far inside n =
    let from = ap stage (value_injective s n.from n.from_named) in
    let to = ap stage (value_injective t n.to n.to_named) in
    elim n.edge.1 [
      | inl next ↦ omega (arith, far, from, to, next)
      | inr (inl f) ↦ omega (arith, inside, to, ap stage f)
      | inr (inr f) ↦ omega (arith, inside, to, ap stage f)
    ]

module _ {S : Type 0} (aws : Services S) (P : Db → Type 0) (id from to_state : String) where
  -- The server is in the state that the check found.
  abbrev pub At : Db → Type 0
  At db = P db × (life (find_server id db.servers) ≡ some from)

  -- What follows the check sees that state.
  pub expecting :
      (next : Exec (World S) Verdict)
      → ((w : World S) → At w.db → P (next w).1.db)
      → Keeps
          (Holds P)
          (Client.state_is id (some from) >>= λ valid. if valid then next else pure ack)
  expecting next k = record {
    holds = λ w h. elim (Option-cases (find_server id w.db.servers)) [
      | inl e ↦ rw (missing_state id w e) h
      | inr (r, e) ↦ elim (Bool-cases (r.current_state == from)) [
        | inl t ↦
            rw (read_state id r w e, t)
              (k w (h, ap life e ∙ ap some ((eq_iff r.current_state from).0 t)))
        | inr t ↦ rw (read_state id r w e, t) h
      ]
    ];
  }

  module _ (skips : NamesEdge from to_state → ⊥) where
    refused-Keeps :
        (job_id job_type : Option String) (metadata : Option JsonObject)
        → Keeps (Holds {S = S} At) (Client.advance_state id to_state job_id job_type metadata)
    unfolding Client.advance_state on_db
    refused-Keeps job_id job_type metadata = record {
      holds = λ w at.
          elim (advance_state-Advanced id to_state "system" job_id job_type metadata w.db) [
            | Advance.missing f e ↦ subst At (sym (ap (λ o. o.1) e)) at
            | Advance.refused r f n e ↦ subst At (sym (ap (λ o. o.1) e)) at
            | Advance.accepted r f n e ↦ absurd (
                skips (
                  subst (λ s. NamesEdge s to_state)
                    (ap (λ o. get_or from o) (sym (ap life f) ∙ at.1)) n))
          ];
    }

    -- The one state that phase 2 asks for.
    abbrev Reaches : PollResult → Type 0
    Reaches (complete state) = state ≡ to_state
    Reaches in_progress = Unit
    Reaches failed = Unit
    Reaches dispatched = Unit

    if-Reaches :
        (test : Bool) (here there : PollResult)
        → Reaches here
        → Reaches there
        → Reaches (if test then here else there)
    if-Reaches true here there h t = h
    if-Reaches false here there h t = t

    reachability-Reaches :
        (items : List InstanceStatus) → Reaches (Handlers.reachability to_state items)
    reachability-Reaches [] = tt
    reachability-Reaches (item ∷ rest) = search (if-Reaches, tt)

    pub check-Reaches :
        (ec2_id : Value)
        → Yields (Holds At) Reaches (Handlers.check_reachability aws to_state ec2_id)
    unfolding Handlers.check_reachability
    check-Reaches ec2_id =
        search (yields_rules, keeps_rules, reachability-Reaches, tt, read-Keeps aws At) depth 10

    act-Keeps :
        (job_id : String) (j : JobType) (body : Body) (result : PollResult)
        → Reaches result
        → Keeps (Holds At) (Loop.act aws id job_id j body result)
    unfolding Loop.act Loop.reenqueue
    act-Keeps job_id j body (complete state) e = rw e (search (keeps_rules, refused-Keeps))
    act-Keeps job_id j body in_progress u = search (keeps_rules, publish-Keeps aws At) depth 8
    act-Keeps job_id j body dispatched u = search keeps_rules
    act-Keeps job_id j body failed u = search keeps_rules

    -- A poll whose handler can only ask for that state changes nothing of the tables.
    pub outdated-Keeps :
        (job_id : String) (j : JobType) (body : Body) (handle : Exec (World S) PollResult)
        → Yields (Holds At) Reaches handle
        → Keeps (Holds At) (handle >>= Loop.act aws id job_id j body)
    outdated-Keeps job_id j body handle y =
        Keeps-after handle (Loop.act aws id job_id j body) y (act-Keeps job_id j body)

module _ {S : Type 0} (aws : Services S) (P : Db → Type 0) where
  -- Phase 2 of the test instance poll, which the state check lets through too early.
  pub test_outdated :
      (id job_id : String) (body : Body) (payload : JsonObject)
      → truthy (get_default payload "ec2_instance_id" null) ≡ true
      → Keeps (Holds (At aws P id "TEST_INSTANCE_LAUNCHING" "AWAITING_TEST_VALIDATION")) (
          Loop.run_handler aws id job_id Jobs.poll_test_instance_status body payload
            (Loop.handler aws Jobs.poll_test_instance_status))
  unfolding Loop.handler Handlers.poll_test_instance_status value
  test_outdated id job_id body payload e =
      outdated-Keeps aws P id "TEST_INSTANCE_LAUNCHING" "AWAITING_TEST_VALIDATION"
        (no_skip States.test_instance_launching States.awaiting_test_validation (omega arith)
          (omega arith))
        job_id Jobs.poll_test_instance_status body (Handlers.poll_test_instance_status aws payload)
        (Yields-bind (lift (get_item payload "server_id")) _ (Keeps-lift _) λ server_id.
          Yields-then _ _ e (
            check-Reaches aws P id "TEST_INSTANCE_LAUNCHING" "AWAITING_TEST_VALIDATION"
              (no_skip States.test_instance_launching States.awaiting_test_validation (omega arith)
                (omega arith))
              (get_default payload "ec2_instance_id" null)))

  -- Phase 2 of the cutover instance poll, likewise.
  pub cutover_outdated :
      (id job_id : String) (body : Body) (payload : JsonObject)
      → truthy (get_default payload "ec2_instance_id" null) ≡ true
      → Keeps (Holds (At aws P id "CUTOVER_INSTANCE_LAUNCHING" "AWAITING_CUTOVER_VALIDATION")) (
          Loop.run_handler aws id job_id Jobs.poll_cutover_instance_status body payload
            (Loop.handler aws Jobs.poll_cutover_instance_status))
  unfolding Loop.handler Handlers.poll_cutover_instance_status value
  cutover_outdated id job_id body payload e =
      outdated-Keeps aws P id "CUTOVER_INSTANCE_LAUNCHING" "AWAITING_CUTOVER_VALIDATION"
        (no_skip States.cutover_instance_launching States.awaiting_cutover_validation (omega arith)
          (omega arith))
        job_id Jobs.poll_cutover_instance_status body
        (Handlers.poll_cutover_instance_status aws payload)
        (Yields-bind (lift (get_item payload "server_id")) _ (Keeps-lift _) λ server_id.
          Yields-bind (lift (get_item payload "aws_source_server_id")) _ (Keeps-lift _) λ aws_id.
            Yields-then _ _ e (
              check-Reaches aws P id "CUTOVER_INSTANCE_LAUNCHING" "AWAITING_CUTOVER_VALIDATION"
                (no_skip States.cutover_instance_launching States.awaiting_cutover_validation
                  (omega arith) (omega arith))
                (get_default payload "ec2_instance_id" null)))
