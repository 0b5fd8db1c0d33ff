-- ===== src/Mgn/Stale.antt =====
-- The stale message check of the MGN worker.
use migration_orchestrator_k.Prelude.{String, ◌≡◌, ◌≢◌, refl, false, none, some, ◌==◌, differs}
use migration_orchestrator_k.Exec.{ok, err, value_error}
use migration_orchestrator_k.Jobs.{JobType, Message, job_id_of, as_text}
use migration_orchestrator_k.Jobs.Reading.{
  Asks, load-Asks, type-Asks, payload-Asks, job_type_of-job_value,
}
use migration_orchestrator_k.Db.{Server, find_server}
use migration_orchestrator_k.StateManager.Moves.{not_found}
use migration_orchestrator_k.StateManager.Servers
use migration_orchestrator_k.Services.{Services}
use migration_orchestrator_k.World.{World, on_db}
use migration_orchestrator_k.Client
use migration_orchestrator_k.Mgn.Results.{ack}
use migration_orchestrator_k.Mgn.Loop.{valid_states_for_job, execute, process, on_message}

module _ {S : Type 0} where
  -- The state that a worker reads.
  pub read_state :
      (id : String) (r : Server) (w : World S)
      → find_server id w.db.servers ≡ some r
      → Client.get_server_state id w ≡ (ok r.current_state, w)
  unfolding Client.get_server_state on_db Servers.get_server_state Servers.get_server
  read_state id r w h = rw (h, Servers.get_server) refl

  pub missing_state :
      (id : String) (w : World S)
      → find_server id w.db.servers ≡ none
      → Client.get_server_state id w ≡ (err (value_error (not_found id)), w)
  unfolding Client.get_server_state on_db Servers.get_server_state Servers.get_server
  missing_state id w h = rw (h, Servers.get_server) refl

module _ {S : Type 0} (aws : Services S) (m : Message) (id : String) (j : JobType)
    (a : Asks m id j) where
  pub process-Asks :
      (w : World S) → process aws m w ≡ execute aws id (job_id_of m a.body) j a.payload w
  unfolding process as_text
  process-Asks w =
      rw
        (
          load-Asks m id j a,
          type-Asks m id j a,
          job_type_of-job_value j,
          payload-Asks m id j a,
          a.has_server,
        )
        refl

  stale_execute :
      (expected : String) (r : Server) (w : World S)
      → valid_states_for_job j ≡ some expected
      → find_server id w.db.servers ≡ some r
      → (r.current_state == expected) ≡ false
      → execute aws id (job_id_of m a.body) j a.payload w ≡ (ok ack, w)
  unfolding execute
  stale_execute expected r w v h n = rw (v, read_state id r w h, n) refl

  -- A message for a server that is not in the state its job type expects is acknowledged, and
  -- nothing changes: no AWS call, no message, no row.
  pub on_message_stale :
      (expected : String) (r : Server) (w : World S)
      → valid_states_for_job j ≡ some expected
      → find_server id w.db.servers ≡ some r
      → r.current_state ≢ expected
      → on_message aws m w ≡ (ok ack, w)
  unfolding on_message
  on_message_stale expected r w v h n =
      rw (process-Asks w, stale_execute expected r w v h (differs r.current_state expected n)) refl
