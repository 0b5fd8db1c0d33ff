-- ===== src/Mgn/Preflight.antt =====
-- The pre-flight checks of the MGN worker: what MGN says of a server before an instance is launched.
use migration_orchestrator_k.Prelude.{
  String, ◌≡◌, ◌≢◌, inl, inr, refl, false, some, List, [], ◌∷◌, get_or, ◌==◌, differs,
}
use migration_orchestrator_k.Exec.{Exc, value_error, ok, err, Result-cases}
use migration_orchestrator_k.Jobs.{Message, Value, get_item, launch_test_instance, start_cutover}
use migration_orchestrator_k.Jobs.Reading.{Asks}
use migration_orchestrator_k.Db.{Server, find_server}
use migration_orchestrator_k.Services.{Services, SourceServer}
use migration_orchestrator_k.World.{World, read}
use migration_orchestrator_k.Mgn.Results.{nack, get_lifecycle_state}
use migration_orchestrator_k.Mgn.Onboarding.{handle_launch_test_instance}
use migration_orchestrator_k.Mgn.Cutover.{handle_start_cutover}
use migration_orchestrator_k.Mgn.Loop.{valid_states_for_job, handler, execute, on_message}
use migration_orchestrator_k.Mgn.Stale.{read_state, process-Asks}

module _ {S : Type 0} (aws : Services S) (m : Message) (id : String) (aws_id : Value) (r : Server)
    (w : World S) (found : find_server id w.db.servers ≡ some r) where
  -- What _get_lifecycle_state gives where MGN does not report the lifecycle.
  data Unready (expected : String) : Type 0 where
    unreported : (e : Exc) → get_lifecycle_state aws aws_id w ≡ (err e, w) → Unready expected
    elsewhere :
        (s : String)
        → get_lifecycle_state aws aws_id w ≡ (ok s, w)
        → (s == expected) ≡ false
        → Unready expected

  items-cases :
      (expected : String) (items : List SourceServer)
      → aws.describe_source_servers aws_id w.outside ≡ ok items
      → ((item : SourceServer) (rest : List SourceServer)
          → aws.describe_source_servers aws_id w.outside ≡ ok (item ∷ rest)
          → get_or "UNKNOWN" item.lifecycle_state ≢ expected)
      → Unready expected
  unfolding get_lifecycle_state read
  items-cases expected [] h n = unreported (value_error "not found in MGN") (rw h refl)
  items-cases expected (item ∷ rest) h n =
      elsewhere (get_or "UNKNOWN" item.lifecycle_state) (rw h refl)
        (differs _ expected (n item rest h))

  answer-cases :
      (expected : String)
      → ((item : SourceServer) (rest : List SourceServer)
          → aws.describe_source_servers aws_id w.outside ≡ ok (item ∷ rest)
          → get_or "UNKNOWN" item.lifecycle_state ≢ expected)
      → Unready expected
  unfolding get_lifecycle_state read
  answer-cases expected n = elim (Result-cases (aws.describe_source_servers aws_id w.outside)) [
    | inl (items, h) ↦ items-cases expected items h n
    | inr (e, h) ↦ unreported e (rw h refl)
  ]

  -- A test launch for a server that MGN does not report as READY_FOR_TEST is rejected, and nothing
  -- changes: start_test is not called and no poll is sent. MGN does not report it so where
  -- describe_source_servers raises, lists no server, or lists first a server in another lifecycle
  -- (or in none).
  pub launch_test_instance_unready :
      (a : Asks m id launch_test_instance)
      → get_item a.payload "aws_source_server_id" ≡ ok aws_id
      → ((item : SourceServer) (rest : List SourceServer)
          → aws.describe_source_servers aws_id w.outside ≡ ok (item ∷ rest)
          → get_or "UNKNOWN" item.lifecycle_state ≢ "READY_FOR_TEST")
      → r.current_state ≡ "TEST_INSTANCE_LAUNCHING"
      → on_message aws m w ≡ (ok nack, w)
  unfolding on_message execute valid_states_for_job handler handle_launch_test_instance
  launch_test_instance_unready a has n at =
      let asked = process-Asks aws m id launch_test_instance a w in
      let current = read_state id r w found in
      elim (answer-cases "READY_FOR_TEST" n) [
        | unreported e h ↦ rw (asked, current, at, a.has_server, has, h) refl
        | elsewhere s h d ↦ rw (asked, current, at, a.has_server, has, h, d) refl
      ]

  -- A cutover of a server that MGN does not report as READY_FOR_CUTOVER is rejected, and nothing
  -- changes: start_cutover is not called and no poll is sent. MGN does not report it so where
  -- describe_source_servers raises, lists no server, or lists first a server in another lifecycle
  -- (or in none).
  pub start_cutover_unready :
      (a : Asks m id start_cutover)
      → get_item a.payload "aws_source_server_id" ≡ ok aws_id
      → ((item : SourceServer) (rest : List SourceServer)
          → aws.describe_source_servers aws_id w.outside ≡ ok (item ∷ rest)
          → get_or "UNKNOWN" item.lifecycle_state ≢ "READY_FOR_CUTOVER")
      → r.current_state ≡ "CUTOVER_STARTED"
      → on_message aws m w ≡ (ok nack, w)
  unfolding on_message execute valid_states_for_job handler handle_start_cutover
  start_cutover_unready a has n at =
      let asked = process-Asks aws m id start_cutover a w in
      let current = read_state id r w found in
      elim (answer-cases "READY_FOR_CUTOVER" n) [
        | unreported e h ↦ rw (asked, current, at, a.has_server, has, h) refl
        | elsewhere s h d ↦ rw (asked, current, at, a.has_server, has, h, d) refl
      ]
