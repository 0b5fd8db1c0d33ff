-- ===== src/Api/Bulk.antt =====
-- src/api/routes/servers.py: the bulk operations, which answer for each server by itself.
use migration_orchestrator_k.Prelude.{String, some, List, [], ◌∷◌, ◌==◌}
use migration_orchestrator_k.Exec.{value_error, Result, ok, err, Exec, guard, ◌>>=◌, ◌>>◌}
use migration_orchestrator_k.Jobs
use migration_orchestrator_k.Services.{Services}
use migration_orchestrator_k.World.{World}
use migration_orchestrator_k.Client
use migration_orchestrator_k.Dispatcher.{dispatch}
use migration_orchestrator_k.Api.Gates.{server_job}
use migration_orchestrator_k.Api.Servers.{RegisterServerRequest, register}

pub record BulkStartItem : Type 0 where
  pub server_id : String
  pub aws_source_server_id : String

-- BulkActionResponse, by server id; the details of a failure are left out.
pub record BulkActionResponse : Type 0 where
  pub succeeded : List String
  pub failed : List String

abbrev pub add_result : String → Result (Unit {0}) → BulkActionResponse → BulkActionResponse
add_result id (ok a) r = record r { succeeded = id ∷ r.succeeded }
add_result id (err e) r = record r { failed = id ∷ r.failed }

module _ {S : Type 0} where
  -- The loop: every turn catches its exceptions, and its server goes to the end of one list, so the
  -- lists stand in the order of the request.
  unfoldable pub each :
      {A : Type 0}
      → (A → String)
      → (A → Exec (World S) (Unit {0}))
      → List A
      → World S
      → BulkActionResponse × World S
  each id action [] w = (record { succeeded = []; failed = [] }, w)
  each id action (a ∷ rest) w =
      let (r, w') = action a w in
      let (response, w'') = each id action rest w' in (add_result (id a) r response, w'')

  unfoldable pub bulk_register : List RegisterServerRequest → World S → BulkActionResponse × World S
  unfolding each register
  bulk_register servers = each (λ item. item.server_id) register servers

module _ {S : Type 0} (aws : Services S) where
  unfoldable pub start_one : BulkStartItem → Exec (World S) (Unit {0})
  start_one item = do
    state ← Client.get_server_state item.server_id
    guard (state == "PENDING") (value_error "expected PENDING")
    dispatch aws Jobs.add_server (server_job item.server_id (some item.aws_source_server_id))

  unfoldable pub bulk_start : List BulkStartItem → World S → BulkActionResponse × World S
  unfolding each start_one
  bulk_start servers = each (λ item. item.server_id) start_one servers
