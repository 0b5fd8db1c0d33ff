-- ===== src/StateManager/Change.antt =====
-- The ways in which the parts of the system change the tables through the methods of StateManager.
use migration_orchestrator_k.Prelude.{
  String, Bool, true, not, ◌≡◌, ◌⊎◌, inl, inr, refl, sym, ◌∙◌, ap, false, Option, none, some, List,
  ℕ, ◌∷◌, [], arith, snoc, is_some, Bool-cases, ◌==◌, eq_iff, if◌then◌else◌,
}
use migration_orchestrator_k.Exec.{Result}
use migration_orchestrator_k.Jobs.{JsonObject}
use migration_orchestrator_k.Transitions.Validate.{NamesEdge}
use migration_orchestrator_k.Db.{
  Server, Db, find_server, update_server, any_of, insert_server, insert_batch, batch_exists,
}
use migration_orchestrator_k.Db.Rows.{on_row, find-update}
use migration_orchestrator_k.StateManager.Moves.{
  set_state, advance_state, reset_server, reason_metadata,
}
use migration_orchestrator_k.States.{value}
use migration_orchestrator_k.StateManager.Servers.{register_server}
use migration_orchestrator_k.StateManager.Batches.{
  create_batch, write_config, update_batch_config, assign_rows, write_batch,
}
use migration_orchestrator_k.StateManager.Advance
use migration_orchestrator_k.StateManager.Advance.{moved, advance_state-Advanced}
use migration_orchestrator_k.StateManager.Reset
use migration_orchestrator_k.StateManager.Reset.{reset_server-Reset}

-- The life of a row: its state, if the row is there.
abbrev pub life : Option Server → Option String
life none = none
life (some r) = some r.current_state

abbrev pub Legal : String → String → Option String → Type 0
Legal from_state to_state job_type =
    NamesEdge from_state to_state
    ⊎ (from_state ≡ "FAILED") × (to_state ≡ "PENDING") × (job_type ≡ some "reset")

-- The ends of the instance polls: no part of the system moves a server there.
abbrev pub unreached_states : List String
unreached_states = "AWAITING_TEST_VALIDATION" ∷ "AWAITING_CUTOVER_VALIDATION" ∷ []

unfoldable pub is_reached : String → Bool
unfolding any_of
is_reached state = not (any_of state unreached_states)

abbrev pub IsReached : String → Type 0
IsReached state = is_reached state ≡ true

pub data Change (db db' : Db) : Type 0 where
  -- a server is moved along the diagram or reset, with one audit record
  move :
      (id from_state to_state by : String) (job_id job_type : Option String)
      (metadata : Option JsonObject)
      → life (find_server id db.servers) ≡ some from_state
      → Legal from_state to_state job_type
      → IsReached to_state
      → db' ≡ moved id from_state to_state job_id job_type by metadata db
      → Change db db'
  -- a new server is registered
  enrol :
      (r : Server)
      → find_server r.server_id db.servers ≡ none
      → r.current_state ≡ "PENDING"
      → db'.servers ≡ snoc db.servers r
      → db'.history ≡ db.history
      → Change db db'
  -- nothing changes of the servers' lives
  keep :
      ((id : String) → life (find_server id db'.servers) ≡ life (find_server id db.servers))
      → db'.history ≡ db.history
      → Change db db'

pub same-Change : {db db' : Db} → db' ≡ db → Change db db'
same-Change e =
    keep (λ id. ap (λ (d : Db). life (find_server id d.servers)) e) (ap (λ (d : Db). d.history) e)

life-on_row :
    (to_state from_state : String) (db : Db) (o : Option Server)
    → life o ≡ some from_state
    → life (on_row (set_state to_state from_state db) o) ≡ some to_state
life-on_row to_state from_state db none h = cc
life-on_row to_state from_state db (some r) h = refl

-- Look-ups after a move.
pub life-moved :
    (id key from_state to_state by : String) (job_id job_type : Option String)
    (metadata : Option JsonObject) (db : Db)
    → life (find_server id db.servers) ≡ some from_state
    → life (find_server key (moved id from_state to_state job_id job_type by metadata db).servers)
      ≡ (if id == key then some to_state else life (find_server key db.servers))
life-moved id key from_state to_state by job_id job_type metadata db found =
    rw (find-update id key (set_state to_state from_state db) db.servers (λ q. refl))
      (elim (Bool-cases (id == key)) [
        | inl e ↦ rw e (
            life-on_row to_state from_state db (find_server key db.servers)
              (ap (λ k. life (find_server k db.servers)) (sym ((eq_iff id key).0 e)) ∙ found))
        | inr e ↦ rw e
      ])

after :
    {outcome : Result (Unit {0}) × Db} {r : Result (Unit {0})} {db' : Db}
    → outcome ≡ (r, db')
    → outcome.1 ≡ db'
after e = ap (λ (o : Result (Unit {0}) × Db). o.1) e

module _ (id to_state by : String) (job_id job_type : Option String) (metadata : Option JsonObject)
    (db : Db) where
  pub advance_state-Change :
      IsReached to_state → Change db (advance_state id to_state by job_id job_type metadata db).1
  advance_state-Change reached =
      elim (advance_state-Advanced id to_state by job_id job_type metadata db) [
        | Advance.missing f e ↦ same-Change (after e)
        | Advance.refused r f n e ↦ same-Change (after e)
        | Advance.accepted r f n e ↦
            move id r.current_state to_state by job_id job_type metadata (ap life f) (inl n) reached
              (after e)
      ]

pub reset_server-Change :
    (id engineer_id : String) (reason : Option String) (db : Db)
    → Change db (reset_server id engineer_id reason db).1
unfolding is_reached
reset_server-Change id engineer reason db = elim (reset_server-Reset id engineer reason db) [
  | Reset.missing f e ↦ same-Change (after e)
  | Reset.refused r f n e ↦ same-Change (after e)
  | Reset.accepted r f n e ↦
      move id "FAILED" "PENDING" engineer none (some "reset") (reason_metadata reason)
        (ap life f ∙ ap some n) (inr (refl, refl, refl)) refl (after e)
]

-- An update that leaves keys and states alone leaves every life alone.
pub life-update :
    (id key : String) (f : Server → Server) (rows : List Server)
    → ((r : Server) → (f r).server_id ≡ r.server_id)
    → ((r : Server) → (f r).current_state ≡ r.current_state)
    → life (find_server key (update_server id f rows)) ≡ life (find_server key rows)
life-update id key f rows hk hs =
    rw (find-update id key f rows hk)
      (elim (Bool-cases (id == key)) [ inl e ↦ rw e (kept (find_server key rows)) | inr e ↦ rw e ])
  where
    kept : (o : Option Server) → life (on_row f o) ≡ life o
    kept none = refl
    kept (some r) = ap some (hs r)

is_none : (o : Option Server) → is_some o ≡ false → o ≡ none
is_none none h = refl
is_none (some r) h = cc

-- An action that leaves the servers and the history alone.
same_rows : {db db' : Db} → db'.servers ≡ db.servers → db'.history ≡ db.history → Change db db'
same_rows s h = keep (λ id. ap (λ rows. life (find_server id rows)) s) h

insert_server-Change :
    (r : Server) (db : Db) → r.current_state ≡ "PENDING" → Change db (insert_server r db).1
unfolding insert_server
insert_server-Change r db p = elim (Bool-cases (is_some (find_server r.server_id db.servers))) [
  | inl e ↦ rw (e, insert_server) (same-Change refl)
  | inr e ↦
      rw (e, insert_server)
        (elim (Bool-cases (batch_exists r.batch_id db.batches)) [
          | inl b ↦
              rw (b, insert_server)
                (enrol r (is_none (find_server r.server_id db.servers) e) p refl refl)
          | inr b ↦ rw (b, insert_server) (same-Change refl)
        ])
]

pub create_batch-Change :
    (batch_id name created_by : String) (description : Option String) (db : Db)
    → Change db (create_batch batch_id name created_by description db).1
unfolding create_batch insert_batch
create_batch-Change batch_id name by description db = same_rows (ground arith) (ground arith)

pub update_batch_config-Change :
    (batch_id config_type : String) (config : JsonObject) (db : Db)
    → Change db (update_batch_config batch_id config_type config db).1
unfolding update_batch_config write_config
update_batch_config-Change batch_id config_type config db = same_rows (ground arith) (ground arith)

-- Assigning rows to a batch leaves every life alone.
life-assign_rows :
    (batch_id key : String) (now : ℕ) (ids : List String) (rows : List Server)
    → life (find_server key (assign_rows batch_id now ids rows)) ≡ life (find_server key rows)
unfolding find_server assign_rows
life-assign_rows batch_id key now ids [] = refl
life-assign_rows batch_id key now ids (r ∷ rest) =
    ground (arith, life-assign_rows batch_id key now ids rest)

pub write_batch-Change :
    (batch_id : String) (ids : List String) (db : Db) → Change db (write_batch batch_id ids db).1
unfolding write_batch
write_batch-Change batch_id [] db = same-Change refl
write_batch-Change batch_id (id ∷ ids) db =
    elim (Bool-cases (batch_exists (some batch_id) db.batches)) [
      | inl e ↦
          rw (e, write_batch)
            (keep (λ key. life-assign_rows batch_id key db.now (id ∷ ids) db.servers) refl)
      | inr e ↦ rw (e, write_batch) (same-Change refl)
    ]

pub register_server-Change :
    (id hostname ip : String) (account region engineer batch_id : Option String) (db : Db)
    → Change db (register_server id hostname ip account region engineer batch_id db).1
unfolding register_server value
register_server-Change id hostname ip account region engineer batch_id db =
    insert_server-Change _ db refl
