-- ===== src/StateManager/Board.antt =====
-- What StateManager promises, without rows, orders, time stamps or history: for each server a card
-- with its state and its batch, and the batches that exist.
pub mod Cards
pub mod Refines
pub mod Joins
pub mod Replay
use migration_orchestrator_k.Prelude.{
  ℕ, String, Option, none, some, Bool, true, false, List, [], ◌∷◌, is_some, not, ◌&&◌, ◌||◌, ◌==◌,
  if◌then◌else◌,
}
use migration_orchestrator_k.Exec.{Result, ok, err}
use migration_orchestrator_k.Jobs.{JsonObject}
use migration_orchestrator_k.States
use migration_orchestrator_k.States.{ServerState, server_state}
use migration_orchestrator_k.Transitions.Diagram.{edge?}
use migration_orchestrator_k.Db.{Server, Db, find_server, find_batch, any_of}
use migration_orchestrator_k.StateManager.Moves
use migration_orchestrator_k.StateManager.Servers
use migration_orchestrator_k.StateManager.Batches

-- A state that is no member of the enumeration is `none`.
pub record Card : Type 0 where
  pub state : Option ServerState
  pub batch_id : Option String

pub record Board : Type 0 where
  pub card : String → Option Card
  pub has_batch : String → Bool

-- The calls of the methods of StateManager that write.
pub data Call : Type 0 where
  register_server :
      String
      → String
      → String
      → Option String
      → Option String
      → Option String
      → Option String
      → Call
  advance_state :
      String → String → String → Option String → Option String → Option JsonObject → Call
  reset_server : String → String → Option String → Call
  set_aws_source_server_id : String → String → Call
  create_batch : String → String → String → Option String → Call
  add_servers_to_batch : String → List String → Call
  update_batch_config : String → String → JsonObject → Call

abbrev pub is_ok : {A : Type 0} → Result A × Db → Bool × Db
is_ok (ok a, db) = (true, db)
is_ok (err e, db) = (false, db)

-- The method, and whether it returned.
unfoldable pub invoke : Call → Db → Bool × Db
unfolding Servers.register_server Moves.advance_state Moves.reset_server
    Moves.set_aws_source_server_id Batches.create_batch Batches.add_servers_to_batch
    Batches.update_batch_config
invoke (register_server id hostname ip account region engineer batch_id) db =
    is_ok (Servers.register_server id hostname ip account region engineer batch_id db)
invoke (advance_state id to_state by job_id job_type metadata) db =
    is_ok (Moves.advance_state id to_state by job_id job_type metadata db)
invoke (reset_server id by reason) db = is_ok (Moves.reset_server id by reason db)
invoke (set_aws_source_server_id id aws_id) db = is_ok (Moves.set_aws_source_server_id id aws_id db)
invoke (create_batch batch_id name by description) db =
    is_ok (Batches.create_batch batch_id name by description db)
invoke (add_servers_to_batch batch_id ids) db = is_ok (Batches.add_servers_to_batch batch_id ids db)
invoke (update_batch_config batch_id config_type config) db =
    is_ok (Batches.update_batch_config batch_id config_type config db)

-- A move of the pipeline between two states that exist.
abbrev pub step? : Option ServerState → Option ServerState → Bool
step? none to = false
step? (some from) none = false
step? (some from) (some to) = edge? from to

abbrev pub is_failed : Option ServerState → Bool
is_failed (some States.failed) = true
is_failed _ = false

abbrev pub batch_known : Option String → Board → Bool
batch_known none b = true
batch_known (some id) b = b.has_batch id

abbrev pub on_card : (Card → Card) → Option Card → Option Card
on_card f none = none
on_card f (some c) = some (f c)

abbrev pub change_card : String → (Card → Card) → Board → Board
change_card id f b = record b {
  card = λ key. if id == key then on_card f (b.card key) else b.card key;
}

abbrev pub enter : Option ServerState → Card → Card
enter to c = record c { state = to }

abbrev pub join : String → Card → Card
join batch_id c = record c { batch_id = some batch_id }

abbrev pub sits_in : String → Option Card → Bool
sits_in batch_id none = true
sits_in batch_id (some c) = elim c.batch_id [ none ↦ false | some id ↦ id == batch_id ]

-- Nobody is left to assign: the others are unknown or in the batch already.
abbrev pub all_sit : String → List String → Board → Bool
all_sit batch_id [] b = true
all_sit batch_id (id ∷ ids) b = sits_in batch_id (b.card id) && all_sit batch_id ids b

abbrev pub if_card : (Card → Bool) → Option Card → Bool
if_card test none = false
if_card test (some c) = test c

-- A call that is refused changes nothing.
abbrev pub answer : Bool → Board → Board → Bool × Board
answer true next b = (true, next)
answer false next b = (false, b)

-- What each call answers, and what the board shows after it.
unfoldable pub spec : Call → Board → Bool × Board
spec (register_server id hostname ip account region engineer batch_id) b =
    answer (not (is_some (b.card id)) && batch_known batch_id b)
      (record b {
        card = λ key.
            if id == key
            then some (record { state = some States.pending; batch_id = batch_id })
            else b.card key;
      })
      b
spec (advance_state id to_state by job_id job_type metadata) b =
    answer (if_card (λ c. step? c.state (server_state to_state)) (b.card id))
      (change_card id (enter (server_state to_state)) b) b
spec (reset_server id by reason) b =
    answer (if_card (λ c. is_failed c.state) (b.card id))
      (change_card id (enter (some States.pending)) b) b
spec (set_aws_source_server_id id aws_id) b = (is_some (b.card id), b)
spec (create_batch batch_id name by description) b =
    answer (not (b.has_batch batch_id))
      (record b { has_batch = λ key. if batch_id == key then true else b.has_batch key }) b
spec (add_servers_to_batch batch_id ids) b =
    if b.has_batch batch_id
    then (
      true,
      record b {
        card = λ key. if any_of key ids then on_card (join batch_id) (b.card key) else b.card key;
      },
    )
    else (all_sit batch_id ids b, b)
spec (update_batch_config batch_id config_type config) b = (
  (config_type == "replication_config"
        || config_type == "test_launch_config"
        || config_type == "cutover_launch_config")
      && b.has_batch batch_id,
  b,
)

-- What the board shows of the tables.
abbrev pub card_of : Option Server → Option Card
card_of none = none
card_of (some r) = some (record { state = server_state r.current_state; batch_id = r.batch_id })

abbrev pub view : Db → Board
view db = record {
  card = λ id. card_of (find_server id db.servers);
  has_batch = λ id. is_some (find_batch id db.batches);
}

-- A history of calls, each at its time.
unfoldable pub invoke_all : List (ℕ × Call) → Db → List Bool × Db
unfolding invoke
invoke_all [] db = ([], db)
invoke_all ((now, c) ∷ rest) db =
    let (done, db') = invoke c (record db { now = now }) in
    let (more, last) = invoke_all rest db' in (done ∷ more, last)

unfoldable pub spec_all : List (ℕ × Call) → Board → List Bool × Board
unfolding spec
spec_all [] b = ([], b)
spec_all ((now, c) ∷ rest) b =
    let (done, b') = spec c b in let (more, last) = spec_all rest b' in (done ∷ more, last)
