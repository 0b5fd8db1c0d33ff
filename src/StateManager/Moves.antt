-- ===== src/StateManager/Moves.antt =====
-- The methods of StateManager that change a registered server: advance_state, reset_server and
-- set_aws_source_server_id.
use migration_orchestrator_k.Prelude.{
  String, ◌<>◌, Option, none, some, [], ◌∷◌, is_some, ◌==◌, if◌then◌else◌,
}
use migration_orchestrator_k.Exec.{
  Exec, pure, raise, lift, gets, transaction, value_error, guard, ◌>>=◌, ◌>>◌,
}
use migration_orchestrator_k.Jobs.{JsonObject, str}
use migration_orchestrator_k.Transitions.{validate}
use migration_orchestrator_k.Db.{Server, Db, find_server, update_server, insert_transition}

-- f"Server '{server_id}' not found"
abbrev pub not_found : String → String
not_found server_id = "Server '" <> server_id <> "' not found"

-- `if row is None: raise ValueError`
abbrev pub require_row : String → Option Server → Exec Db Server
require_row server_id none = raise (value_error (not_found server_id))
require_row server_id (some row) = pure row

-- `UPDATE servers SET current_state = …, previous_state = …, updated_at = now()`
abbrev pub set_state : String → String → Db → Server → Server
set_state to_state from_state db r = record r {
  current_state = to_state;
  previous_state = some from_state;
  updated_at = db.now;
}

unfoldable pub write_state : String → String → String → Exec Db (Unit {0})
write_state server_id to_state from_state db =
    pure tt (record db {
      servers = update_server server_id (set_state to_state from_state db) db.servers;
    })

-- The INSERT of both methods; `timestamp` is its default, `now()`.
unfoldable pub write_history :
    String
    → String
    → String
    → Option String
    → Option String
    → String
    → Option JsonObject
    → Exec Db (Unit {0})
unfolding insert_transition
write_history server_id from_state to_state job_id job_type triggered_by metadata db =
    insert_transition
      (record {
        server_id = server_id;
        from_state = from_state;
        to_state = to_state;
        job_id = job_id;
        job_type = job_type;
        triggered_by = triggered_by;
        timestamp = db.now;
        metadata = metadata;
      })
      db

unfoldable pub advance_state :
    String
    → String
    → String
    → Option String
    → Option String
    → Option JsonObject
    → Exec Db (Unit {0})
unfolding write_state write_history
advance_state server_id to_state triggered_by job_id job_type metadata = transaction (do
  found ← gets (λ db. find_server server_id db.servers)
  row ← require_row server_id found
  lift (validate server_id row.current_state to_state)
  write_state server_id to_state row.current_state
  write_history server_id row.current_state to_state job_id job_type triggered_by metadata)

-- The message of the second ValueError of reset_server.
abbrev pub only_failed : String → String → String
only_failed server_id current_state =
    "Server '" <> server_id <> "' is in state '" <> current_state
    <> "'. Only FAILED servers can be reset. FROZEN servers require manual AWS inspection before reset."

-- `json.dumps({"reason": reason}) if reason else None`
abbrev pub reason_metadata : Option String → Option JsonObject
reason_metadata none = none
reason_metadata (some reason) = if reason == "" then none else some (("reason", str reason) ∷ [])

unfoldable pub reset_server : String → String → Option String → Exec Db (Unit {0})
unfolding write_state write_history
reset_server server_id engineer_id reason = transaction (do
  found ← gets (λ db. find_server server_id db.servers)
  row ← require_row server_id found
  guard (row.current_state == "FAILED") (value_error (only_failed server_id row.current_state))
  write_state server_id "PENDING" "FAILED"
  write_history server_id "FAILED" "PENDING" none (some "reset") engineer_id
      (reason_metadata reason))

unfoldable pub write_aws_id : String → String → Exec Db (Unit {0})
write_aws_id server_id aws_id db = pure tt (record db {
  servers =
      update_server server_id
        (λ r. record r { aws_source_server_id = some aws_id; updated_at = db.now }) db.servers;
})

-- One UPDATE; "UPDATE 0" is its result where no row has the key.
unfoldable pub set_aws_source_server_id : String → String → Exec Db (Unit {0})
unfolding write_aws_id
set_aws_source_server_id server_id aws_source_server_id = do
  found ← gets (λ db. is_some (find_server server_id db.servers))
  write_aws_id server_id aws_source_server_id
  guard found (value_error (not_found server_id))
