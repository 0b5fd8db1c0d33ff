-- ===== src/Db/Rows.antt =====
-- What the statements on the servers table do to a row that is looked up.
use migration_orchestrator_k.Prelude.{
  String, ◌≡◌, refl, Option, none, some, List, [], ◌∷◌, arith, ◌==◌, eq_iff, snoc, is_some,
  if◌then◌else◌,
}
use migration_orchestrator_k.Db.{Server, find_server, update_server}

-- The row that a look-up finds has the key it was looked up by.
pub find_server_key :
    (id : String) (rows : List Server) (r : Server)
    → find_server id rows ≡ some r
    → r.server_id ≡ id
unfolding find_server
find_server_key id [] r h = cc
find_server_key id (x ∷ rest) r h = ground (arith, eq_iff x.server_id id, find_server_key id rest r)

abbrev pub on_row : (Server → Server) → Option Server → Option Server
on_row f none = none
on_row f (some r) = some (f r)

-- An update of one row is seen by look-ups of its key, and by no other.
pub find-update :
    (id key : String) (f : Server → Server) (rows : List Server)
    → ((r : Server) → (f r).server_id ≡ r.server_id)
    → find_server key (update_server id f rows)
      ≡ (if id == key then on_row f (find_server key rows) else find_server key rows)
unfolding find_server update_server
find-update id key f [] h = ground arith
find-update id key f (r ∷ rest) h = ground (
  arith,
  h r,
  eq_iff r.server_id id,
  eq_iff r.server_id key,
  eq_iff id key,
  find-update id key f rest h,
)

pub find-snoc :
    (key : String) (rows : List Server) (r : Server)
    → find_server key (snoc rows r) ≡ (
        if is_some (find_server key rows)
        then find_server key rows
        else if r.server_id == key
        then some r
        else none)
unfolding find_server
find-snoc key [] r = refl
find-snoc key (x ∷ rest) r = ground (arith, find-snoc key rest r)
