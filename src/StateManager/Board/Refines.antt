-- ===== src/StateManager/Board/Refines.antt =====
-- Every writing method of StateManager implements the board.
use migration_orchestrator_k.Prelude.{
  String, ◌≡◌, refl, sym, ◌∙◌, ap, inl, inr, Option, none, some, Bool, true, false, List, ◌<>◌,
  is_some, ◌&&◌, ◌||◌, ◌==◌, eq_iff, arith, snoc, Bool-cases, if◌then◌else◌,
}
use migration_orchestrator_k.Exec.{Exc, Result, guard, gets, value_error, ◌>>=◌, ◌>>◌}
use migration_orchestrator_k.Jobs.{JsonObject}
use migration_orchestrator_k.States.{server_state, value}
use migration_orchestrator_k.Db.{
  Server, Batch, Db, find_server, find_batch, insert_server, insert_batch, batch_exists,
}
use migration_orchestrator_k.Db.Rows.{find-snoc}
use migration_orchestrator_k.StateManager.Moves
use migration_orchestrator_k.StateManager.Moves.{set_state, reason_metadata, write_aws_id}
use migration_orchestrator_k.StateManager.Servers
use migration_orchestrator_k.StateManager.Batches
use migration_orchestrator_k.StateManager.Batches.{store_config, write_config}
use migration_orchestrator_k.StateManager.Advance
use migration_orchestrator_k.StateManager.Advance.{moved, advance_state-Advanced}
use migration_orchestrator_k.StateManager.Reset
use migration_orchestrator_k.StateManager.Reset.{reset_server-Reset}
use migration_orchestrator_k.StateManager.Board
use migration_orchestrator_k.StateManager.Board.{
  Card, Board, Call, view, card_of, on_card, enter, join, change_card, spec, invoke, answer, is_ok,
  batch_known,
}
use migration_orchestrator_k.StateManager.Board.Cards.{
  Board-ext, card-update, card-same, found-batch-update, found-batch-snoc, step_of, no_step_of,
  is_failed_text, not_failed_text,
}

-- The answer of a method as the board sees it.
abbrev pub seen : Bool × Db → Bool × Board
seen (done, db) = (done, view db)

abbrev pub seen_of : {A : Type 0} → Result A × Db → Bool × Board
seen_of out = seen (is_ok out)

module _ (id from to_state by : String) (job_id job_type : Option String)
    (metadata : Option JsonObject) (db : Db) where
  view-moved :
      view (moved id from to_state job_id job_type by metadata db)
      ≡ change_card id (enter (server_state to_state)) (view db)
  view-moved =
      Board-ext _ _
        (λ key.
          card-update id key (set_state to_state from db) (enter (server_state to_state)) db.servers
            (λ r. refl) (λ r. refl))
        (λ key. refl)

module _ (id to_state by : String) (job_id job_type : Option String) (metadata : Option JsonObject)
    (db : Db) where
  pub advance_seen :
      seen_of (Moves.advance_state id to_state by job_id job_type metadata db)
      ≡ spec (Board.advance_state id to_state by job_id job_type metadata) (view db)
  unfolding spec
  advance_seen = elim (advance_state-Advanced id to_state by job_id job_type metadata db) [
    | Advance.missing f e ↦ rw (e, f) refl
    | Advance.refused r f n e ↦ rw (e, f, no_step_of n) refl
    | Advance.accepted r f n e ↦
        rw (e, f, step_of n)
          (ap (λ b. (true, b))
            (view-moved id r.current_state to_state by job_id job_type metadata db))
  ]

pub reset_seen :
    (id by : String) (reason : Option String) (db : Db)
    → seen_of (Moves.reset_server id by reason db)
      ≡ spec (Board.reset_server id by reason) (view db)
unfolding spec server_state
reset_seen id by reason db = elim (reset_server-Reset id by reason db) [
  | Reset.missing f e ↦ rw (e, f) refl
  | Reset.refused r f n e ↦ rw (e, f, not_failed_text r.current_state n) refl
  | Reset.accepted r f n e ↦
      rw (e, f, is_failed_text r.current_state n)
        (ap (λ b. (true, b))
          (view-moved id "FAILED" "PENDING" by none (some "reset") (reason_metadata reason) db))
]

-- An action that ends with a check and that the board does not show.
guard_seen :
    (test : Bool) (e : Exc) (b : Board) (db' : Db)
    → view db' ≡ b
    → seen_of (guard test e db') ≡ (test, b)
guard_seen true e b db' same = ap (λ v. (true, v)) same
guard_seen false e b db' same = ap (λ v. (false, v)) same

card-there : (o : Option Server) → is_some (card_of o) ≡ is_some o
card-there none = refl
card-there (some r) = refl

pub set_aws_seen :
    (id aws_id : String) (db : Db)
    → seen_of (Moves.set_aws_source_server_id id aws_id db)
      ≡ spec (Board.set_aws_source_server_id id aws_id) (view db)
unfolding spec Moves.set_aws_source_server_id write_aws_id
set_aws_seen id aws_id db =
    guard_seen (is_some (find_server id db.servers)) _ (view db) _ (
      Board-ext _ _
        (λ key.
          card-same id key
            (λ r. record r { aws_source_server_id = some aws_id; updated_at = db.now }) db.servers
            (λ r. refl) (λ r. refl))
        (λ key. refl))
    ∙ ap (λ t. (t, view db)) (sym (card-there (find_server id db.servers)))

config-keeps-id :
    (config_type : String) (config : JsonObject) (b : Batch)
    → (store_config config_type config b).batch_id ≡ b.batch_id
unfolding store_config
config-keeps-id config_type config b = ground arith

pub update_batch_config_seen :
    (batch_id config_type : String) (config : JsonObject) (db : Db)
    → seen_of (Batches.update_batch_config batch_id config_type config db)
      ≡ spec (Board.update_batch_config batch_id config_type config) (view db)
unfolding spec Batches.update_batch_config write_config
update_batch_config_seen batch_id config_type config db = by_type (
    config_type == "replication_config"
    || config_type == "test_launch_config"
    || config_type == "cutover_launch_config")
  where
    stored : view (write_config batch_id config_type config db).1 ≡ view db
    stored =
        Board-ext _ _ (λ key. refl)
          (λ key.
            found-batch-update batch_id key (store_config config_type config) db.batches
              (config-keeps-id config_type config))

    by_type :
        (known : Bool)
        → seen_of (
            (guard known (value_error ("Unknown config_type '" <> config_type <> "'"))
                >> (gets (λ db. is_some (find_batch batch_id db.batches)) >>= λ found.
                    write_config batch_id config_type config
                    >> guard found (value_error (Batches.batch_not_found batch_id))))
              db)
          ≡ (known && is_some (find_batch batch_id db.batches), view db)
    by_type false = refl
    by_type true = guard_seen (is_some (find_batch batch_id db.batches)) _ (view db) _ stored

pub create_batch_seen :
    (batch_id name by : String) (description : Option String) (db : Db)
    → seen_of (Batches.create_batch batch_id name by description db)
      ≡ spec (Board.create_batch batch_id name by description) (view db)
unfolding spec Batches.create_batch insert_batch
create_batch_seen batch_id name by description db =
    elim (Bool-cases (is_some (find_batch batch_id db.batches))) [
      | inl e ↦ rw e refl
      | inr e ↦ rw e (
          ap (λ b. (true, b))
            (Board-ext _ _ (λ key. refl) (λ key. found-batch-snoc key db.batches _)))
    ]

-- A new row is one new card.
card-snoc :
    (key : String) (rows : List Server) (r : Server)
    → is_some (find_server r.server_id rows) ≡ false
    → card_of (find_server key (snoc rows r))
      ≡ (if r.server_id == key then card_of (some r) else card_of (find_server key rows))
card-snoc key rows r absent = rw (find-snoc key rows r) (elim (Bool-cases (r.server_id == key)) [
  | inl e ↦
      rw (e, sym (ap (λ k. is_some (find_server k rows)) ((eq_iff r.server_id key).0 e)) ∙ absent)
        refl
  | inr e ↦ rw e (unchanged (find_server key rows))
])
  where
    unchanged : (o : Option Server) → card_of (if is_some o then o else none) ≡ card_of o
    unchanged none = refl
    unchanged (some q) = refl

batch_known-view :
    (batch_id : Option String) (db : Db)
    → batch_known batch_id (view db) ≡ batch_exists batch_id db.batches
unfolding batch_exists
batch_known-view none db = refl
batch_known-view (some id) db = refl

pub register_seen :
    (id hostname ip : String) (account region engineer batch_id : Option String) (db : Db)
    → seen_of (Servers.register_server id hostname ip account region engineer batch_id db)
      ≡ spec (Board.register_server id hostname ip account region engineer batch_id) (view db)
unfolding spec Servers.register_server insert_server value server_state
register_seen id hostname ip account region engineer batch_id db =
    rw (card-there (find_server id db.servers), batch_known-view batch_id db)
      (elim (Bool-cases (is_some (find_server id db.servers))) [
        | inl e ↦ rw e refl
        | inr e ↦ rw e (elim (Bool-cases (batch_exists batch_id db.batches)) [
          | inl k ↦ rw k (
              ap (λ b. (true, b))
                (Board-ext _ _ (λ key. card-snoc key db.servers _ e) (λ key. refl)))
          | inr k ↦ rw k refl
        ])
      ])
