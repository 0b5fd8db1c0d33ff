-- ===== src/States.antt =====
-- src/state_manager/states.py: the states of a source server and the named sets.
pub mod Values
use migration_orchestrator_k.Prelude.{
  String, Option, none, some, Bool, true, false, List, [], ◌∷◌, ◌==◌, ◌||◌, if◌then◌else◌,
}

pub data ServerState : Type 0 where
  pending agent_installed : ServerState
  replication_configured awaiting_replication_approval replication_started : ServerState
  ready_for_testing : ServerState
  test_launch_template_configured awaiting_test_launch_approval : ServerState
  test_instance_launching test_instance_running : ServerState
  awaiting_test_validation test_finalized : ServerState
  cutover_launch_template_configured awaiting_cutover_launch_approval : ServerState
  cutover_started cutover_sync_in_progress ready_for_cutover_launch : ServerState
  cutover_instance_launching cutover_instance_running : ServerState
  awaiting_cutover_validation cutover_finalized : ServerState
  disconnecting disconnected awaiting_archive_approval archived : ServerState
  awaiting_cleanup_approval cleanup_complete : ServerState
  failed frozen : ServerState

-- `state.value`
unfoldable pub value : ServerState → String
value pending = "PENDING"
value agent_installed = "AGENT_INSTALLED"
value replication_configured = "REPLICATION_CONFIGURED"
value awaiting_replication_approval = "AWAITING_REPLICATION_APPROVAL"
value replication_started = "REPLICATION_STARTED"
value ready_for_testing = "READY_FOR_TESTING"
value test_launch_template_configured = "TEST_LAUNCH_TEMPLATE_CONFIGURED"
value awaiting_test_launch_approval = "AWAITING_TEST_LAUNCH_APPROVAL"
value test_instance_launching = "TEST_INSTANCE_LAUNCHING"
value test_instance_running = "TEST_INSTANCE_RUNNING"
value awaiting_test_validation = "AWAITING_TEST_VALIDATION"
value test_finalized = "TEST_FINALIZED"
value cutover_launch_template_configured = "CUTOVER_LAUNCH_TEMPLATE_CONFIGURED"
value awaiting_cutover_launch_approval = "AWAITING_CUTOVER_LAUNCH_APPROVAL"
value cutover_started = "CUTOVER_STARTED"
value cutover_sync_in_progress = "CUTOVER_SYNC_IN_PROGRESS"
value ready_for_cutover_launch = "READY_FOR_CUTOVER_LAUNCH"
value cutover_instance_launching = "CUTOVER_INSTANCE_LAUNCHING"
value cutover_instance_running = "CUTOVER_INSTANCE_RUNNING"
value awaiting_cutover_validation = "AWAITING_CUTOVER_VALIDATION"
value cutover_finalized = "CUTOVER_FINALIZED"
value disconnecting = "DISCONNECTING"
value disconnected = "DISCONNECTED"
value awaiting_archive_approval = "AWAITING_ARCHIVE_APPROVAL"
value archived = "ARCHIVED"
value awaiting_cleanup_approval = "AWAITING_CLEANUP_APPROVAL"
value cleanup_complete = "CLEANUP_COMPLETE"
value failed = "FAILED"
value frozen = "FROZEN"

-- The members of the enumeration, in the order of the class body.
abbrev pub members : List ServerState
members =
    pending ∷ agent_installed ∷ replication_configured ∷ awaiting_replication_approval
    ∷ replication_started ∷ ready_for_testing ∷ test_launch_template_configured
    ∷ awaiting_test_launch_approval ∷ test_instance_launching ∷ test_instance_running
    ∷ awaiting_test_validation ∷ test_finalized ∷ cutover_launch_template_configured
    ∷ awaiting_cutover_launch_approval ∷ cutover_started ∷ cutover_sync_in_progress
    ∷ ready_for_cutover_launch ∷ cutover_instance_launching ∷ cutover_instance_running
    ∷ awaiting_cutover_validation ∷ cutover_finalized ∷ disconnecting ∷ disconnected
    ∷ awaiting_archive_approval ∷ archived ∷ awaiting_cleanup_approval ∷ cleanup_complete ∷ failed
    ∷ frozen ∷ []

find_member : List ServerState → String → Option ServerState
find_member [] text = none
find_member (s ∷ rest) text = if value s == text then some s else find_member rest text

-- `ServerState(text)`; `none` is the ValueError that every caller in the code catches.
unfoldable pub server_state : String → Option ServerState
unfolding find_member value
server_state text = find_member members text

-- A `str` enumeration compares by value, so membership of a frozenset is a comparison of texts.
unfoldable pub contains : List ServerState → ServerState → Bool
unfolding value
contains [] s = false
contains (t ∷ rest) s = value t == value s || contains rest s

abbrev pub in_progress_states : List ServerState
in_progress_states =
    awaiting_replication_approval ∷ awaiting_test_launch_approval ∷ awaiting_test_validation
    ∷ awaiting_cutover_launch_approval ∷ awaiting_cutover_validation ∷ awaiting_archive_approval
    ∷ awaiting_cleanup_approval ∷ []

abbrev pub completed_states : List ServerState
completed_states = cleanup_complete ∷ []

abbrev pub error_states : List ServerState
error_states = failed ∷ frozen ∷ []
