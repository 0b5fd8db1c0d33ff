-- ===== src/StateManager/Batches.antt =====
-- The methods of StateManager on batches.
use migration_orchestrator_k.Prelude.{
  ℕ, suc, String, Option, none, some, Bool, false, List, [], ◌∷◌, ◌<>◌, ◌||◌, is_some, map, leb,
  ◌==◌, if◌then◌else◌,
}
use migration_orchestrator_k.Exec.{
  Exec, pure, raise, gets, guard, value_error, foreign_key_violation, ◌>>=◌, ◌>>◌,
}
use migration_orchestrator_k.Jobs.{JsonObject}
use migration_orchestrator_k.Db.{
  Server, Transition, Batch, Db, find_server, find_batch, update_batch, any_of, insert_batch,
  batch_exists, select, order_by,
}
use migration_orchestrator_k.StateManager.Servers.{oldest_first}

abbrev pub batch_not_found : String → String
batch_not_found batch_id = "Batch '" <> batch_id <> "' not found"

unfoldable pub create_batch : String → String → String → Option String → Exec Db (Unit {0})
unfolding insert_batch
create_batch batch_id name created_by description db =
    insert_batch
      (record {
        batch_id = batch_id;
        name = name;
        description = description;
        created_by = created_by;
        created_at = db.now;
        replication_config = none;
        test_launch_config = none;
        cutover_launch_config = none;
      })
      db

-- `column = batch_id` in SQL, which a null never meets.
abbrev pub in_column : Option String → String → Bool
in_column none batch_id = false
in_column (some id) batch_id = id == batch_id

abbrev pub in_batch : String → Server → Bool
in_batch batch_id r = in_column r.batch_id batch_id

-- The LEFT JOIN and its COUNT.
unfoldable pub server_count : String → List Server → ℕ
server_count batch_id [] = 0
server_count batch_id (r ∷ rest) =
    let n = server_count batch_id rest in if in_batch batch_id r then suc n else n

abbrev pub require_batch : String → Option Batch → Exec Db Batch
require_batch batch_id none = raise (value_error (batch_not_found batch_id))
require_batch batch_id (some b) = pure b

unfoldable pub get_batch : String → Exec Db (Batch × ℕ)
unfolding find_batch server_count
get_batch batch_id = do
  found ← gets (λ db. find_batch batch_id db.batches)
  b ← require_batch batch_id found
  gets (λ db. (b, server_count batch_id db.servers))

unfoldable pub list_batches : Exec Db (List (Batch × ℕ))
unfolding order_by server_count
list_batches = gets λ db.
    map (λ b. (b, server_count b.batch_id db.servers))
      (order_by (λ b c. leb c.created_at b.created_at) db.batches)

-- The three lists that add_servers_to_batch answers with.
pub record Assignment : Type 0 where
  pub assigned : List String
  pub already_assigned : List String
  pub not_found : List String

abbrev pub no_assignment : Assignment
no_assignment = record { assigned = []; already_assigned = []; not_found = [] }

-- One turn of the loop, by what `found` holds for the id; each turn adds to the end of its list, so
-- the lists stand in the order of the ids.
abbrev pub assign_one : String → String → Option Server → Assignment → Assignment
assign_one batch_id sid none a = record a { not_found = sid ∷ a.not_found }
assign_one batch_id sid (some r) a =
    if in_batch batch_id r
    then record a { already_assigned = sid ∷ a.already_assigned }
    else record a { assigned = sid ∷ a.assigned }

unfoldable pub sort_servers : String → List Server → List String → Assignment
unfolding find_server
sort_servers batch_id rows [] = no_assignment
sort_servers batch_id rows (sid ∷ rest) =
    assign_one batch_id sid (find_server sid rows) (sort_servers batch_id rows rest)

-- `UPDATE servers SET batch_id = … WHERE server_id = ANY(ids)`
unfoldable pub assign_rows : String → ℕ → List String → List Server → List Server
unfolding any_of
assign_rows batch_id now ids [] = []
assign_rows batch_id now ids (r ∷ rest) =
    (if any_of r.server_id ids then record r { batch_id = some batch_id; updated_at = now } else r)
    ∷ assign_rows batch_id now ids rest

-- The statement with its foreign key to batches.
unfoldable pub write_batch : String → List String → Exec Db (Unit {0})
unfolding assign_rows batch_exists
write_batch batch_id [] db = pure tt db
write_batch batch_id (id ∷ ids) db =
    if batch_exists (some batch_id) db.batches
    then pure tt (record db { servers = assign_rows batch_id db.now (id ∷ ids) db.servers })
    else raise (foreign_key_violation (db.missing_text "servers" batch_id)) db

unfoldable pub add_servers_to_batch : String → List String → Exec Db Assignment
unfolding sort_servers write_batch
add_servers_to_batch batch_id server_ids = do
  a ← gets (λ db. sort_servers batch_id db.servers server_ids)
  write_batch batch_id a.assigned
  pure a

unfoldable pub get_batch_servers : String → Exec Db (List Server)
unfolding select order_by
get_batch_servers batch_id =
    gets
      λ db. order_by (λ r s. leb r.created_at s.created_at) (select (in_batch batch_id) db.servers)

-- The JOIN of a transition with its server.
abbrev pub row_in_batch : String → Option Server → Bool
row_in_batch batch_id none = false
row_in_batch batch_id (some r) = in_batch batch_id r

unfoldable pub get_batch_history : String → Exec Db (List Transition)
unfolding find_batch find_server select order_by
get_batch_history batch_id = do
  exists ← gets (λ db. is_some (find_batch batch_id db.batches))
  guard exists (value_error (batch_not_found batch_id))
  gets (λ db.
      order_by oldest_first
        (select (λ t. row_in_batch batch_id (find_server t.server_id db.servers)) db.history))

-- `SET {config_type} = …` on one of the three columns.
unfoldable pub store_config : String → JsonObject → Batch → Batch
store_config config_type config b =
    if config_type == "replication_config"
    then record b { replication_config = some config }
    else if config_type == "test_launch_config"
    then record b { test_launch_config = some config }
    else record b { cutover_launch_config = some config }

unfoldable pub write_config : String → String → JsonObject → Exec Db (Unit {0})
unfolding update_batch store_config
write_config batch_id config_type config db =
    pure tt
      (record db { batches = update_batch batch_id (store_config config_type config) db.batches })

unfoldable pub update_batch_config : String → String → JsonObject → Exec Db (Unit {0})
unfolding find_batch write_config
update_batch_config batch_id config_type config = do
  guard
      (config_type == "replication_config"
        || config_type == "test_launch_config"
        || config_type == "cutover_launch_config")
      (value_error ("Unknown config_type '" <> config_type <> "'"))
  found ← gets (λ db. is_some (find_batch batch_id db.batches))
  write_config batch_id config_type config
  guard found (value_error (batch_not_found batch_id))
