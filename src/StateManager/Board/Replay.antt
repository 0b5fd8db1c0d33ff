-- ===== src/StateManager/Board/Replay.antt =====
-- StateManager refines the board: any history of calls answers and shows what the board says.
use migration_orchestrator_k.Prelude.{ℕ, ◌≡◌, refl, sym, ap, Bool, List, [], ◌∷◌}
use migration_orchestrator_k.Db.{Db}
use migration_orchestrator_k.StateManager.Board
use migration_orchestrator_k.StateManager.Board.{
  Board, Call, view, spec, invoke, invoke_all, spec_all,
}
use migration_orchestrator_k.StateManager.Board.Refines.{
  seen, advance_seen, reset_seen, set_aws_seen, create_batch_seen, update_batch_config_seen,
  register_seen,
}
use migration_orchestrator_k.StateManager.Board.Joins.{add_servers_seen}

invoke_refines : (c : Call) (db : Db) → seen (invoke c db) ≡ spec c (view db)
unfolding invoke
invoke_refines (Board.register_server id hostname ip account region engineer batch_id) db =
    register_seen id hostname ip account region engineer batch_id db
invoke_refines (Board.advance_state id to_state by job_id job_type metadata) db =
    advance_seen id to_state by job_id job_type metadata db
invoke_refines (Board.reset_server id by reason) db = reset_seen id by reason db
invoke_refines (Board.set_aws_source_server_id id aws_id) db = set_aws_seen id aws_id db
invoke_refines (Board.create_batch batch_id name by description) db =
    create_batch_seen batch_id name by description db
invoke_refines (Board.add_servers_to_batch batch_id ids) db = add_servers_seen batch_id ids db
invoke_refines (Board.update_batch_config batch_id config_type config) db =
    update_batch_config_seen batch_id config_type config db

abbrev pub seen_all : List Bool × Db → List Bool × Board
seen_all (answers, db) = (answers, view db)

-- StateManager refines the board: any calls, at any times, succeed and raise as the board says, and
-- after them each server has the state and the batch that the board shows, and the batches that
-- exist are those of the board.
pub invoke_all_refines :
    (calls : List (ℕ × Call)) (db : Db) → seen_all (invoke_all calls db) ≡ spec_all calls (view db)
unfolding invoke_all spec_all
invoke_all_refines [] db = refl
invoke_all_refines ((now, c) ∷ rest) db = rw (sym (invoke_refines c (record db { now = now }))) (
    ap (λ (o : List Bool × Board). ((invoke c (record db { now = now })).0 ∷ o.0, o.1))
      (invoke_all_refines rest (invoke c (record db { now = now })).1))
