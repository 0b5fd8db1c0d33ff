-- ===== src/Transitions.antt =====
-- src/state_manager/transitions.py: the map of legal transitions and the TransitionValidator.
pub mod Diagram
pub mod Validate
use migration_orchestrator_k.Prelude.{
  String, Option, none, some, Bool, true, false, List, [], ◌∷◌, ◌||◌, if◌then◌else◌,
}
use migration_orchestrator_k.Exec.{Result, ok, err, invalid_transition}
use migration_orchestrator_k.States.{
  ServerState, pending, agent_installed, replication_configured, awaiting_replication_approval,
  replication_started, ready_for_testing, test_launch_template_configured,
  awaiting_test_launch_approval, test_instance_launching, test_instance_running,
  awaiting_test_validation, test_finalized, cutover_launch_template_configured,
  awaiting_cutover_launch_approval, cutover_started, cutover_sync_in_progress,
  ready_for_cutover_launch, cutover_instance_launching, cutover_instance_running,
  awaiting_cutover_validation, cutover_finalized, disconnecting, disconnected,
  awaiting_archive_approval, archived, awaiting_cleanup_approval, cleanup_complete, failed, frozen,
  server_state, contains, completed_states, error_states,
}

-- VALID_TRANSITIONS; every member of the enumeration is a key.
unfoldable pub valid_transitions : ServerState → List ServerState
valid_transitions pending = agent_installed ∷ failed ∷ frozen ∷ []
valid_transitions agent_installed = replication_configured ∷ failed ∷ frozen ∷ []
valid_transitions replication_configured = awaiting_replication_approval ∷ failed ∷ frozen ∷ []
valid_transitions awaiting_replication_approval = replication_started ∷ failed ∷ frozen ∷ []
valid_transitions replication_started = ready_for_testing ∷ failed ∷ frozen ∷ []
valid_transitions ready_for_testing = test_launch_template_configured ∷ failed ∷ frozen ∷ []
valid_transitions test_launch_template_configured =
    awaiting_test_launch_approval ∷ failed ∷ frozen ∷ []
valid_transitions awaiting_test_launch_approval = test_instance_launching ∷ failed ∷ frozen ∷ []
valid_transitions test_instance_launching = test_instance_running ∷ failed ∷ frozen ∷ []
valid_transitions test_instance_running = awaiting_test_validation ∷ failed ∷ frozen ∷ []
valid_transitions awaiting_test_validation = test_finalized ∷ failed ∷ frozen ∷ []
valid_transitions test_finalized = cutover_launch_template_configured ∷ failed ∷ frozen ∷ []
valid_transitions cutover_launch_template_configured =
    awaiting_cutover_launch_approval ∷ failed ∷ frozen ∷ []
valid_transitions awaiting_cutover_launch_approval = cutover_started ∷ failed ∷ frozen ∷ []
valid_transitions cutover_started = cutover_sync_in_progress ∷ failed ∷ frozen ∷ []
valid_transitions cutover_sync_in_progress = ready_for_cutover_launch ∷ failed ∷ frozen ∷ []
valid_transitions ready_for_cutover_launch = cutover_instance_launching ∷ failed ∷ frozen ∷ []
valid_transitions cutover_instance_launching = cutover_instance_running ∷ failed ∷ frozen ∷ []
valid_transitions cutover_instance_running = awaiting_cutover_validation ∷ failed ∷ frozen ∷ []
valid_transitions awaiting_cutover_validation = cutover_finalized ∷ failed ∷ frozen ∷ []
valid_transitions cutover_finalized = disconnecting ∷ failed ∷ frozen ∷ []
valid_transitions disconnecting = disconnected ∷ failed ∷ frozen ∷ []
valid_transitions disconnected = awaiting_archive_approval ∷ failed ∷ frozen ∷ []
valid_transitions awaiting_archive_approval = archived ∷ failed ∷ frozen ∷ []
valid_transitions archived = awaiting_cleanup_approval ∷ failed ∷ frozen ∷ []
valid_transitions awaiting_cleanup_approval = cleanup_complete ∷ failed ∷ frozen ∷ []
valid_transitions cleanup_complete = []
valid_transitions failed = []
valid_transitions frozen = []

-- The tests of `validate` once both texts are members.
pub allows : ServerState → ServerState → Bool
unfolding contains valid_transitions
allows from to =
    if contains completed_states from || contains error_states from
    then false
    else contains (valid_transitions from) to

unfoldable pub allows? : Option ServerState → Option ServerState → Bool
unfolding allows
allows? none to = false
allows? (some from) none = false
allows? (some from) (some to) = allows from to

-- `TransitionValidator.validate`: returns nothing, or raises InvalidTransitionError.
unfoldable pub validate : String → String → String → Result (Unit {0})
unfolding allows? server_state
validate server_id from_state to_state =
    if allows? (server_state from_state) (server_state to_state)
    then ok tt
    else err (invalid_transition server_id from_state to_state)

next_states : Option ServerState → List ServerState
unfolding valid_transitions
next_states none = []
next_states (some s) = valid_transitions s

unfoldable pub get_valid_next_states : String → List ServerState
unfolding next_states server_state
get_valid_next_states current_state = next_states (server_state current_state)

member_of : List ServerState → Option ServerState → Bool
unfolding contains
member_of set none = false
member_of set (some s) = contains set s

unfoldable pub is_completed : String → Bool
unfolding member_of server_state
is_completed state = member_of completed_states (server_state state)

unfoldable pub is_error : String → Bool
unfolding member_of server_state
is_error state = member_of error_states (server_state state)
