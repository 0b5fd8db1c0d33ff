-- ===== src/System/Changes.antt =====
-- Whatever the changes of the tables keep, the methods that the parts of the system call keep.
use migration_orchestrator_k.Prelude.{String, Option, none, some, ◌≡◌, arith}
use migration_orchestrator_k.Exec.{Exec, Result}
use migration_orchestrator_k.Exec.Keeps.{Keeps, keeps_rules}
use migration_orchestrator_k.Jobs.{JobType, JsonObject, Message, queue_routing}
use migration_orchestrator_k.Db.{Db, Server}
use migration_orchestrator_k.StateManager.Moves.{require_row}
use migration_orchestrator_k.StateManager.Servers
use migration_orchestrator_k.StateManager.Change.{Change}
use migration_orchestrator_k.StateManager.Unattended.{
  Unattended, IsFree, advance_state-Unattended, set_aws_source_server_id-Unattended,
}
use migration_orchestrator_k.Services.{Services, Command}
use migration_orchestrator_k.World.{World, on_db, publish, enqueue, call, read, new_id}
use migration_orchestrator_k.Dispatcher.{follow_up, dispatch, dispatch_follow_up, dispatch_poll}
use migration_orchestrator_k.Client

-- A property of the tables, as a property of the world.
abbrev pub Holds : {S : Type 0} → (Db → Type 0) → World S → Type 0
Holds P w = P w.db

module _ (P : Db → Type 0) where
  require_row-Keeps : (id : String) (o : Option Server) → Keeps P (require_row id o)
  require_row-Keeps id none = search keeps_rules
  require_row-Keeps id (some r) = search keeps_rules

  pub get_row-Keeps : (id : String) → Keeps P (Servers.get_server id)
  unfolding Servers.get_server
  get_row-Keeps id = search (keeps_rules, require_row-Keeps)

  get_row_state-Keeps : (id : String) → Keeps P (Servers.get_server_state id)
  unfolding Servers.get_server_state
  get_row_state-Keeps id = search (keeps_rules, get_row-Keeps)

module _ {S : Type 0} (P : Db → Type 0) where
  -- An action on the database, by the same property of the tables.
  pub on_db-Keeps : {A : Type 0} (m : Exec Db A) → Keeps P m → Keeps (Holds {S = S} P) (on_db m)
  unfolding on_db
  on_db-Keeps m k = record { holds = λ w h. k.holds w.db h }

  pub get_server-Keeps : (id : String) → Keeps (Holds {S = S} P) (Client.get_server id)
  unfolding Client.get_server
  get_server-Keeps id = on_db-Keeps _ (get_row-Keeps P id)

  pub get_server_state-Keeps : (id : String) → Keeps (Holds {S = S} P) (Client.get_server_state id)
  unfolding Client.get_server_state
  get_server_state-Keeps id = on_db-Keeps _ (get_row_state-Keeps P id)

module _ {S : Type 0} (aws : Services S) (P : Db → Type 0) where
  enqueue_db : (queue : String) (m : Message) (w : World S) → (enqueue queue m w).db ≡ w.db
  unfolding enqueue
  enqueue_db queue m w = ground arith

  publish_db : (queue : String) (m : Message) (w : World S) → (publish aws queue m w).1.db ≡ w.db
  unfolding publish
  publish_db queue m w = ground arith

  pub publish-Keeps : (queue : String) (m : Message) → Keeps (Holds P) (publish aws queue m)
  publish-Keeps queue m = record { holds = λ w h. rw (publish_db queue m w) h }

  pub call-Keeps : (c : Command) → Keeps (Holds P) (call aws c)
  unfolding call
  call-Keeps c = record { holds = λ w h. h }

  pub read-Keeps : {A : Type 0} (f : S → Result A) → Keeps (Holds P) (read aws f)
  unfolding read
  read-Keeps f = record { holds = λ w h. h }

  pub new_id-Keeps : Keeps (Holds P) (new_id aws)
  unfolding new_id
  new_id-Keeps = record { holds = λ w h. h }

  pub follow_up-Keeps :
      (j : JobType) (payload : JsonObject) → Keeps (Holds P) (dispatch_follow_up aws j payload)
  unfolding dispatch_follow_up
  follow_up-Keeps j payload = publish-Keeps (queue_routing j) (follow_up j payload)

  pub dispatch_poll-Keeps :
      (j : JobType) (payload : JsonObject) → Keeps (Holds P) (dispatch_poll aws j payload)
  unfolding dispatch_poll
  dispatch_poll-Keeps j payload = publish-Keeps "poll_jobs" (follow_up j payload)

  pub dispatch-Keeps :
      (j : JobType) (payload : JsonObject) → Keeps (Holds P) (dispatch aws j payload)
  unfolding dispatch
  dispatch-Keeps j payload = search (keeps_rules, new_id-Keeps, publish-Keeps) depth 10

module _ (P : Db → Type 0) (closed : (db db' : Db) → Change db db' → P db → P db') where
  pub tables-Keeps : {A : Type 0} (m : Exec Db A) → ((db : Db) → Change db (m db).1) → Keeps P m
  tables-Keeps m changes = record { holds = λ db h. closed db (m db).1 (changes db) h }

module _ {S : Type 0} (P : Db → Type 0)
    (closed : (db db' : Db) → Unattended db db' → P db → P db') where
  -- The writes of the workers.
  pub advance-Keeps :
      (id to_state : String) (job_id job_type : Option String) (metadata : Option JsonObject)
      → IsFree to_state
      → Keeps (Holds {S = S} P) (Client.advance_state id to_state job_id job_type metadata)
  unfolding Client.advance_state
  advance-Keeps id to_state job_id job_type metadata free = on_db-Keeps P _ (record {
    holds = λ db h.
        closed db _ (advance_state-Unattended id to_state "system" job_id job_type metadata db free)
          h;
  })

  pub set_aws-Keeps :
      (id aws_id : String) → Keeps (Holds {S = S} P) (Client.set_aws_source_server_id id aws_id)
  unfolding Client.set_aws_source_server_id
  set_aws-Keeps id aws_id =
      on_db-Keeps P _ (record {
        holds = λ db h. closed db _ (set_aws_source_server_id-Unattended id aws_id db) h;
      })
