-- ===== src/StateManager/Servers.antt =====
-- Registration and the reads of one server.
use migration_orchestrator_k.Prelude.{String, Option, none, List, is_some, leb, ◌==◌, Bool}
use migration_orchestrator_k.Exec.{Exec, pure, gets, value_error, guard, ◌>>=◌, ◌>>◌}
use migration_orchestrator_k.States.{pending, value}
use migration_orchestrator_k.Db.{
  Server, Transition, Db, find_server, insert_server, select, order_by,
}
use migration_orchestrator_k.StateManager.Moves.{not_found, require_row}

unfoldable pub register_server :
    String
    → String
    → String
    → Option String
    → Option String
    → Option String
    → Option String
    → Exec Db (Unit {0})
unfolding insert_server
register_server server_id hostname ip_address account region engineer batch_id db =
    insert_server
      (record {
        server_id = server_id;
        hostname = hostname;
        ip_address = ip_address;
        aws_source_server_id = none;
        current_state = value pending;
        previous_state = none;
        assigned_engineer = engineer;
        aws_account_id = account;
        aws_region = region;
        batch_id = batch_id;
        created_at = db.now;
        updated_at = db.now;
      })
      db

unfoldable pub get_server : String → Exec Db Server
get_server server_id = do
  found ← gets (λ db. find_server server_id db.servers)
  require_row server_id found

unfoldable pub get_server_state : String → Exec Db String
unfolding get_server
get_server_state server_id = do row ← get_server server_id; pure row.current_state

-- `ORDER BY timestamp ASC`
abbrev pub oldest_first : Transition → Transition → Bool
oldest_first s t = leb s.timestamp t.timestamp

unfoldable pub get_server_history : String → Exec Db (List Transition)
get_server_history server_id = do
  exists ← gets (λ db. is_some (find_server server_id db.servers))
  guard exists (value_error (not_found server_id))
  gets (λ db. order_by oldest_first (select (λ t. t.server_id == server_id) db.history))
