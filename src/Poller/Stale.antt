-- ===== src/Poller/Stale.antt =====
-- The stale message check of the poller worker, and the two states whose polls never pass it.
use migration_orchestrator_k.Prelude.{
  String, ◌≡◌, ◌≢◌, ◌⊎◌, inl, inr, refl, ◌∙◌, ap, sym, Bool, false, Option, none, some, ◌==◌,
  eq_iff, differs, get_or,
}
use migration_orchestrator_k.Exec.{ok}
use migration_orchestrator_k.States.{
  ServerState, value, test_instance_running, cutover_instance_running,
}
use migration_orchestrator_k.Jobs.{JobType, Message, job_id_of, as_text}
use migration_orchestrator_k.Jobs
use migration_orchestrator_k.Jobs.Reading.{
  Asks, load-Asks, type-Asks, payload-Asks, job_type_of-job_value,
}
use migration_orchestrator_k.Db.{Server, find_server}
use migration_orchestrator_k.Services.{Services}
use migration_orchestrator_k.World.{World}
use migration_orchestrator_k.Client
use migration_orchestrator_k.Client.{valid_states_for_poll}
use migration_orchestrator_k.Mgn.Results.{ack}
use migration_orchestrator_k.Mgn.Stale.{read_state}
use migration_orchestrator_k.Poller.Loop.{execute, process, on_message}

module _ {S : Type 0} (id : String) (r : Server) (w : World S)
    (h : find_server id w.db.servers ≡ some r) where
  state_is_other :
      (o : Option String) → o ≢ some r.current_state → Client.state_is id o w ≡ (ok false, w)
  state_is_other none n = refl
  state_is_other (some expected) n =
      rw (read_state id r w h, differs r.current_state expected (λ e. n (ap some (sym e)))) refl

module _ {S : Type 0} (aws : Services S) (m : Message) (id : String) (j : JobType)
    (a : Asks m id j) where
  pub process-Asks :
      (w : World S) → process aws m w ≡ execute aws id (job_id_of m a.body) j a.body a.payload w
  unfolding process as_text
  process-Asks w =
      rw
        (
          load-Asks m id j a,
          type-Asks m id j a,
          job_type_of-job_value j,
          payload-Asks m id j a,
          a.has_server,
        )
        refl

  stale_execute :
      (r : Server) (w : World S)
      → find_server id w.db.servers ≡ some r
      → valid_states_for_poll j ≢ some r.current_state
      → execute aws id (job_id_of m a.body) j a.body a.payload w ≡ (ok ack, w)
  unfolding execute Client.is_poll_valid
  stale_execute r w h n = rw (state_is_other id r w h (valid_states_for_poll j) n) refl

  -- A message for a server that is not in the state its poll expects is acknowledged, and nothing
  -- changes; so is a message whose job type is no poll.
  pub on_message_outdated :
      (r : Server) (w : World S)
      → find_server id w.db.servers ≡ some r
      → valid_states_for_poll j ≢ some r.current_state
      → on_message aws m w ≡ (ok ack, w)
  unfolding on_message
  on_message_outdated r w h n = rw (process-Asks w, stale_execute r w h n) refl

-- The two states that phase 1 of the two-phase polls advances to.
abbrev pub IsRunning : ServerState → Type 0
IsRunning s = (s ≡ test_instance_running) ⊎ (s ≡ cutover_instance_running)

abbrev expects : Option String → String → Bool
expects none state = false
expects (some expected) state = expected == state

no_running_poll :
    (j : JobType)
    → (expects (valid_states_for_poll j) "TEST_INSTANCE_RUNNING" ≡ false)
      × (expects (valid_states_for_poll j) "CUTOVER_INSTANCE_RUNNING" ≡ false)
unfolding valid_states_for_poll
no_running_poll Jobs.poll_replication_status = (refl, refl)
no_running_poll _ = (refl, refl)

not_expected : (o : Option String) (state : String) → expects o state ≡ false → o ≢ some state
not_expected none state h e = cc
not_expected (some expected) state h e =
    cc (h, (eq_iff expected state).1 (ap (λ p. get_or state p) e))

never_expected :
    (j : JobType) (s : ServerState) → IsRunning s → valid_states_for_poll j ≢ some (value s)
unfolding value
never_expected j s (inl f) e =
    not_expected (valid_states_for_poll j) "TEST_INSTANCE_RUNNING" (no_running_poll j).0
      (e ∙ ap (λ q. some (value q)) f)
never_expected j s (inr f) e =
    not_expected (valid_states_for_poll j) "CUTOVER_INSTANCE_RUNNING" (no_running_poll j).1
      (e ∙ ap (λ q. some (value q)) f)

module _ {S : Type 0} (aws : Services S) (m : Message) (id : String) (j : JobType)
    (a : Asks m id j) where
  -- No poll is ever run for a server that is in TEST_INSTANCE_RUNNING or CUTOVER_INSTANCE_RUNNING,
  -- the states in which phase 2 of the instance polls finds it: every poll message for it, whatever
  -- its payload, is acknowledged and nothing changes.
  pub on_message_running :
      (s : ServerState) (r : Server) (w : World S)
      → IsRunning s
      → find_server id w.db.servers ≡ some r
      → r.current_state ≡ value s
      → on_message aws m w ≡ (ok ack, w)
  on_message_running s r w running h e =
      on_message_outdated aws m id j a r w h (λ v. never_expected j s running (v ∙ ap some e))
