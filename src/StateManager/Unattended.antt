-- ===== src/StateManager/Unattended.antt =====
-- The changes that need no engineer: those that leave the approval gates closed, and the validation
-- of an instance out of reach.
use migration_orchestrator_k.Prelude.{
  String, ◌≡◌, inl, inr, refl, ap, Bool, true, not, Option, some, List, [], ◌∷◌, is_some,
  Bool-cases, arith,
}
use migration_orchestrator_k.Jobs.{JsonObject}
use migration_orchestrator_k.Transitions.Validate.{NamesEdge}
use migration_orchestrator_k.Db.{Db, find_server, update_server, any_of}
use migration_orchestrator_k.StateManager.Moves.{advance_state, set_aws_source_server_id}
use migration_orchestrator_k.StateManager.Advance
use migration_orchestrator_k.StateManager.Advance.{moved, advance_state-Advanced}
use migration_orchestrator_k.StateManager.Change.{Change, IsReached, is_reached, life, life-update}

-- The states behind the seven approval gates, the one behind the reset, and the two at the end of
-- the polls that are never run.
abbrev pub gated_states : List String
gated_states =
    "PENDING" ∷ "REPLICATION_STARTED" ∷ "TEST_INSTANCE_LAUNCHING" ∷ "TEST_FINALIZED"
    ∷ "CUTOVER_STARTED" ∷ "CUTOVER_FINALIZED" ∷ "ARCHIVED" ∷ "CLEANUP_COMPLETE"
    ∷ "AWAITING_TEST_VALIDATION" ∷ "AWAITING_CUTOVER_VALIDATION" ∷ []

-- A state that the workers may write.
unfoldable pub is_free : String → Bool
unfolding any_of
is_free state = not (any_of state gated_states)

abbrev pub IsFree : String → Type 0
IsFree state = is_free state ≡ true

-- The states that the workers write are free.
pub agent_installed-IsFree : IsFree "AGENT_INSTALLED"
unfolding is_free
agent_installed-IsFree = refl

pub replication_configured-IsFree : IsFree "REPLICATION_CONFIGURED"
unfolding is_free
replication_configured-IsFree = refl

pub awaiting_replication_approval-IsFree : IsFree "AWAITING_REPLICATION_APPROVAL"
unfolding is_free
awaiting_replication_approval-IsFree = refl

pub test_launch_template_configured-IsFree : IsFree "TEST_LAUNCH_TEMPLATE_CONFIGURED"
unfolding is_free
test_launch_template_configured-IsFree = refl

pub awaiting_test_launch_approval-IsFree : IsFree "AWAITING_TEST_LAUNCH_APPROVAL"
unfolding is_free
awaiting_test_launch_approval-IsFree = refl

pub cutover_launch_template_configured-IsFree : IsFree "CUTOVER_LAUNCH_TEMPLATE_CONFIGURED"
unfolding is_free
cutover_launch_template_configured-IsFree = refl

pub awaiting_cutover_launch_approval-IsFree : IsFree "AWAITING_CUTOVER_LAUNCH_APPROVAL"
unfolding is_free
awaiting_cutover_launch_approval-IsFree = refl

pub cutover_sync_in_progress-IsFree : IsFree "CUTOVER_SYNC_IN_PROGRESS"
unfolding is_free
cutover_sync_in_progress-IsFree = refl

pub cutover_instance_launching-IsFree : IsFree "CUTOVER_INSTANCE_LAUNCHING"
unfolding is_free
cutover_instance_launching-IsFree = refl

pub disconnecting-IsFree : IsFree "DISCONNECTING"
unfolding is_free
disconnecting-IsFree = refl

pub awaiting_cleanup_approval-IsFree : IsFree "AWAITING_CLEANUP_APPROVAL"
unfolding is_free
awaiting_cleanup_approval-IsFree = refl

pub ready_for_testing-IsFree : IsFree "READY_FOR_TESTING"
unfolding is_free
ready_for_testing-IsFree = refl

pub test_instance_running-IsFree : IsFree "TEST_INSTANCE_RUNNING"
unfolding is_free
test_instance_running-IsFree = refl

pub ready_for_cutover_launch-IsFree : IsFree "READY_FOR_CUTOVER_LAUNCH"
unfolding is_free
ready_for_cutover_launch-IsFree = refl

pub cutover_instance_running-IsFree : IsFree "CUTOVER_INSTANCE_RUNNING"
unfolding is_free
cutover_instance_running-IsFree = refl

pub disconnected-IsFree : IsFree "DISCONNECTED"
unfolding is_free
disconnected-IsFree = refl

pub awaiting_archive_approval-IsFree : IsFree "AWAITING_ARCHIVE_APPROVAL"
unfolding is_free
awaiting_archive_approval-IsFree = refl

pub failed-IsFree : IsFree "FAILED"
unfolding is_free
failed-IsFree = refl

pub frozen-IsFree : IsFree "FROZEN"
unfolding is_free
frozen-IsFree = refl

pub ruleset free_states = (
  agent_installed-IsFree, replication_configured-IsFree, awaiting_replication_approval-IsFree,
  test_launch_template_configured-IsFree, awaiting_test_launch_approval-IsFree,
  cutover_launch_template_configured-IsFree, awaiting_cutover_launch_approval-IsFree,
  cutover_sync_in_progress-IsFree, cutover_instance_launching-IsFree, disconnecting-IsFree,
  awaiting_cleanup_approval-IsFree, ready_for_testing-IsFree, test_instance_running-IsFree,
  ready_for_cutover_launch-IsFree, cutover_instance_running-IsFree, disconnected-IsFree,
  awaiting_archive_approval-IsFree, failed-IsFree, frozen-IsFree,
)

pub data Unattended (db db' : Db) : Type 0 where
  -- a server is moved along the diagram to a state that is free
  move :
      (id from_state to_state by : String) (job_id job_type : Option String)
      (metadata : Option JsonObject)
      → life (find_server id db.servers) ≡ some from_state
      → NamesEdge from_state to_state
      → IsFree to_state
      → db' ≡ moved id from_state to_state job_id job_type by metadata db
      → Unattended db db'
  -- nothing changes of the servers' lives
  keep :
      ((id : String) → life (find_server id db'.servers) ≡ life (find_server id db.servers))
      → db'.history ≡ db.history
      → Unattended db db'

free-IsReached : (state : String) → IsFree state → IsReached state
unfolding is_free is_reached any_of
free-IsReached state h = ground arith

pub Unattended-Change : {db db' : Db} → Unattended db db' → Change db db'
Unattended-Change (move id from to by job_id job_type metadata found n free e) =
    Change.move id from to by job_id job_type metadata found (inl n) (free-IsReached to free) e
Unattended-Change (keep lives eh) = Change.keep lives eh

same-Unattended : {db db' : Db} → db' ≡ db → Unattended db db'
same-Unattended e =
    keep (λ id. ap (λ (d : Db). life (find_server id d.servers)) e) (ap (λ (d : Db). d.history) e)

after : {A : Type 0} {outcome : A × Db} {r : A} {db' : Db} → outcome ≡ (r, db') → outcome.1 ≡ db'
after e = ap (λ o. o.1) e

pub advance_state-Unattended :
    (id to_state by : String) (job_id job_type : Option String) (metadata : Option JsonObject)
    (db : Db)
    → IsFree to_state
    → Unattended db (advance_state id to_state by job_id job_type metadata db).1
advance_state-Unattended id to by job_id job_type metadata db free =
    elim (advance_state-Advanced id to by job_id job_type metadata db) [
      | Advance.missing f e ↦ same-Unattended (after e)
      | Advance.refused r f n e ↦ same-Unattended (after e)
      | Advance.accepted r f n e ↦
          move id r.current_state to by job_id job_type metadata (ap life f) n free (after e)
    ]

pub set_aws_source_server_id-Unattended :
    (id aws_id : String) (db : Db) → Unattended db (set_aws_source_server_id id aws_id db).1
unfolding set_aws_source_server_id
set_aws_source_server_id-Unattended id aws_id db =
    elim (Bool-cases (is_some (find_server id db.servers))) [
      | inl e ↦ rw (e, set_aws_source_server_id) stamped
      | inr e ↦ rw (e, set_aws_source_server_id) stamped
    ]
  where
    stamped : Unattended db (record db {
      servers =
          update_server id
            (λ r. record r { aws_source_server_id = some aws_id; updated_at = db.now })
            db.servers;
    })
    stamped = keep (λ key. life-update id key _ db.servers (λ r. refl) (λ r. refl)) refl
