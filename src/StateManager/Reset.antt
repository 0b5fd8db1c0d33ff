-- ===== src/StateManager/Reset.antt =====
-- What reset_server does, on every branch.
use migration_orchestrator_k.Prelude.{
  String, ◌≡◌, ◌≢◌, inl, inr, refl, true, false, Option, none, some, arith, Bool-cases,
  Option-cases, ◌==◌, eq_iff,
}
use migration_orchestrator_k.Exec.{Result, ok, err, value_error}
use migration_orchestrator_k.Db.{Server, Db, find_server}
use migration_orchestrator_k.StateManager.Moves.{
  not_found, set_state, reset_server, only_failed, reason_metadata,
}
use migration_orchestrator_k.StateManager.Advance.{moved, still_there}

module _ (id engineer_id : String) (reason : Option String) (db : Db) where
  -- What reset_server may do.
  pub data Reset (outcome : Result (Unit {0}) × Db) : Type 0 where
    missing :
        find_server id db.servers ≡ none
        → outcome ≡ (err (value_error (not_found id)), db)
        → Reset outcome
    refused :
        (r : Server)
        → find_server id db.servers ≡ some r
        → r.current_state ≢ "FAILED"
        → outcome ≡ (err (value_error (only_failed id r.current_state)), db)
        → Reset outcome
    accepted :
        (r : Server)
        → find_server id db.servers ≡ some r
        → r.current_state ≡ "FAILED"
        → outcome ≡ (
          ok tt,
          moved id "FAILED" "PENDING" none (some "reset") engineer_id (reason_metadata reason) db,
        )
        → Reset outcome

  when_missing :
      find_server id db.servers ≡ none
      → reset_server id engineer_id reason db ≡ (err (value_error (not_found id)), db)
  unfolding reset_server
  when_missing h = ground arith

  when_refused :
      (r : Server)
      → find_server id db.servers ≡ some r
      → (r.current_state == "FAILED") ≡ false
      → reset_server id engineer_id reason db
        ≡ (err (value_error (only_failed id r.current_state)), db)
  unfolding reset_server
  when_refused r h n = rw (h, reset_server) (rw (n, reset_server))

  when_accepted :
      (r : Server)
      → find_server id db.servers ≡ some r
      → (r.current_state == "FAILED") ≡ true
      → reset_server id engineer_id reason db ≡ (
        ok tt,
        moved id "FAILED" "PENDING" none (some "reset") engineer_id (reason_metadata reason) db,
      )
  unfolding reset_server
  when_accepted r h n =
      rw (h, reset_server)
        (rw (n, reset_server)
          (rw (still_there id (set_state "PENDING" "FAILED" db) db.servers r (λ q. refl) h)))

  for_row :
      (r : Server)
      → find_server id db.servers ≡ some r
      → Reset (reset_server id engineer_id reason db)
  for_row r h = elim (Bool-cases (r.current_state == "FAILED")) [
    | inl t ↦ accepted r h ((eq_iff r.current_state "FAILED").0 t) (when_accepted r h t)
    | inr t ↦ refused r h (λ e. cc (t, (eq_iff r.current_state "FAILED").1 e)) (when_refused r h t)
  ]

  -- reset_server on every branch: an unknown server and a server that is not FAILED raise
  -- ValueError and leave the tables alone; a FAILED server goes back to PENDING, with one audit
  -- record of job type "reset" in the engineer's name.
  pub reset_server-Reset : Reset (reset_server id engineer_id reason db)
  reset_server-Reset = elim (Option-cases (find_server id db.servers)) [
    | inl h ↦ missing h (when_missing h)
    | inr (r, h) ↦ for_row r h
  ]
