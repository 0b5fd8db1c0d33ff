-- ===== src/Db.antt =====
-- The three tables that src/db/versions creates, and the SQL statements that
-- src/state_manager/state_manager.py runs on them. `now` is the clock behind `now()`; the texts of
-- the database's exceptions are whatever the database gives.
pub mod Rows
pub mod Order
use migration_orchestrator_k.Prelude.{
  ℕ, String, Option, none, some, Bool, true, false, List, [], ◌∷◌, snoc, is_some, get_or, leb, ◌==◌,
  if◌then◌else◌, ◌&&◌,
}
use migration_orchestrator_k.Exec.{
  Exec, pure, raise, unique_violation, foreign_key_violation, ◌>>=◌, ◌>>◌,
}
use migration_orchestrator_k.Jobs.{JsonObject}

pub record Server : Type 0 where
  pub server_id : String
  pub hostname : String
  pub ip_address : String
  pub aws_source_server_id : Option String
  pub current_state : String
  pub previous_state : Option String
  pub assigned_engineer : Option String
  pub aws_account_id : Option String
  pub aws_region : Option String
  pub batch_id : Option String
  pub created_at : ℕ
  pub updated_at : ℕ

-- A row of state_transition_history.
pub record Transition : Type 0 where
  pub server_id : String
  pub from_state : String
  pub to_state : String
  pub job_id : Option String
  pub job_type : Option String
  pub triggered_by : String
  pub timestamp : ℕ
  pub metadata : Option JsonObject

pub record Batch : Type 0 where
  pub batch_id : String
  pub name : String
  pub description : Option String
  pub created_by : String
  pub created_at : ℕ
  pub replication_config : Option JsonObject
  pub test_launch_config : Option JsonObject
  pub cutover_launch_config : Option JsonObject

pub record Db : Type 0 where
  pub servers : List Server
  pub history : List Transition
  pub batches : List Batch
  pub now : ℕ
  -- The texts of the exceptions for a key that is taken and for a key that a foreign key misses, by
  -- the table of the INSERT or UPDATE and the key.
  pub taken_text : String → String → String
  pub missing_text : String → String → String

-- `SELECT … FROM servers WHERE server_id = $1`, read by fetchrow.
unfoldable pub find_server : String → List Server → Option Server
find_server id [] = none
find_server id (r ∷ rest) = if r.server_id == id then some r else find_server id rest

unfoldable pub find_batch : String → List Batch → Option Batch
find_batch id [] = none
find_batch id (b ∷ rest) = if b.batch_id == id then some b else find_batch id rest

-- `UPDATE servers SET … WHERE server_id = $1`
unfoldable pub update_server : String → (Server → Server) → List Server → List Server
update_server id f [] = []
update_server id f (r ∷ rest) = (if r.server_id == id then f r else r) ∷ update_server id f rest

unfoldable pub update_batch : String → (Batch → Batch) → List Batch → List Batch
update_batch id f [] = []
update_batch id f (b ∷ rest) = (if b.batch_id == id then f b else b) ∷ update_batch id f rest

-- `$1 = ANY(ids)`
unfoldable pub any_of : String → List String → Bool
any_of id [] = false
any_of id (x ∷ xs) = if x == id then true else any_of id xs

-- The foreign key of servers.batch_id: null, or a batch that exists.
unfoldable pub batch_exists : Option String → List Batch → Bool
unfolding find_batch
batch_exists none batches = true
batch_exists (some id) batches = is_some (find_batch id batches)

-- `INSERT INTO servers`, with the primary key and the foreign key.
unfoldable pub insert_server : Server → Exec Db (Unit {0})
insert_server r db =
    if is_some (find_server r.server_id db.servers)
    then raise (unique_violation (db.taken_text "servers" r.server_id)) db
    else if batch_exists r.batch_id db.batches
    then pure tt (record db { servers = snoc db.servers r })
    else raise (foreign_key_violation (db.missing_text "servers" (get_or "" r.batch_id))) db

-- `INSERT INTO state_transition_history`, with its foreign key to servers.
unfoldable pub insert_transition : Transition → Exec Db (Unit {0})
insert_transition t db =
    if is_some (find_server t.server_id db.servers)
    then pure tt (record db { history = snoc db.history t })
    else raise (foreign_key_violation (db.missing_text "state_transition_history" t.server_id)) db

-- `INSERT INTO batches`, with the primary key.
unfoldable pub insert_batch : Batch → Exec Db (Unit {0})
insert_batch b db =
    if is_some (find_batch b.batch_id db.batches)
    then raise (unique_violation (db.taken_text "batches" b.batch_id)) db
    else pure tt (record db { batches = snoc db.batches b })

-- The rows that meet every condition of a WHERE clause.
unfoldable pub meets {ℓ} : {A : Type ℓ} → List (A → Bool) → A → Bool
meets [] a = true
meets (c ∷ cs) a = c a && meets cs a

unfoldable pub select {ℓ} : {A : Type ℓ} → (A → Bool) → List A → List A
select p [] = []
select p (a ∷ rest) = let kept = select p rest in if p a then a ∷ kept else kept

insert_by {ℓ} : {A : Type ℓ} → (A → A → Bool) → A → List A → List A
insert_by before a [] = a ∷ []
insert_by before a (b ∷ rest) =
    let later = b ∷ insert_by before a rest in if before a b then a ∷ b ∷ rest else later

-- `ORDER BY`; rows with equal keys keep the order of the table.
unfoldable pub order_by {ℓ} : {A : Type ℓ} → (A → A → Bool) → List A → List A
unfolding insert_by
order_by before [] = []
order_by before (a ∷ rest) = insert_by before a (order_by before rest)
