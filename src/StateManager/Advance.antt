-- ===== src/StateManager/Advance.antt =====
-- What advance_state and reset_server do, on every branch.
use migration_orchestrator_k.Prelude.{
  String, ◌≡◌, ◌↔◌, inl, inr, refl, ap, subst, Option, none, some, List, arith, snoc, Option-cases,
  eq_iff,
}
use migration_orchestrator_k.Exec.{Result, ok, err, Exc, value_error, invalid_transition}
use migration_orchestrator_k.Jobs.{JsonObject}
use migration_orchestrator_k.Transitions.{validate}
use migration_orchestrator_k.Transitions.Validate.{NamesEdge, validate_iff, validate_cases}
use migration_orchestrator_k.Db.{Server, Db, find_server, update_server}
use migration_orchestrator_k.Db.Rows.{find-update}
use migration_orchestrator_k.StateManager.Moves.{not_found, set_state, advance_state}

-- The tables after a move from `from_state` to `to_state` was written.
abbrev pub moved :
    String → String → String → Option String → Option String → String → Option JsonObject → Db → Db
moved id from_state to_state job_id job_type by metadata db = record db {
  servers = update_server id (set_state to_state from_state db) db.servers;
  history = snoc db.history (record {
    server_id = id;
    from_state = from_state;
    to_state = to_state;
    job_id = job_id;
    job_type = job_type;
    triggered_by = by;
    timestamp = db.now;
    metadata = metadata;
  });
}

-- The row is still there when the audit record is written.
pub still_there :
    (id : String) (f : Server → Server) (rows : List Server) (r : Server)
    → ((r : Server) → (f r).server_id ≡ r.server_id)
    → find_server id rows ≡ some r
    → find_server id (update_server id f rows) ≡ some (f r)
still_there id f rows r h e = rw (find-update id id f rows h, (eq_iff id id).1 refl, e)

module _ (id to_state by : String) (job_id job_type : Option String) (metadata : Option JsonObject)
    (db : Db) where
  -- What advance_state may do: it raises and leaves the tables alone, or it makes a move of the
  -- diagram, writes the row and appends one audit record.
  pub data Advanced (outcome : Result (Unit {0}) × Db) : Type 0 where
    missing :
        find_server id db.servers ≡ none
        → outcome ≡ (err (value_error (not_found id)), db)
        → Advanced outcome
    refused :
        (r : Server)
        → find_server id db.servers ≡ some r
        → (NamesEdge r.current_state to_state → ⊥)
        → outcome ≡ (err (invalid_transition id r.current_state to_state), db)
        → Advanced outcome
    accepted :
        (r : Server)
        → find_server id db.servers ≡ some r
        → NamesEdge r.current_state to_state
        → outcome ≡ (ok tt, moved id r.current_state to_state job_id job_type by metadata db)
        → Advanced outcome

  when_missing :
      find_server id db.servers ≡ none
      → advance_state id to_state by job_id job_type metadata db
        ≡ (err (value_error (not_found id)), db)
  unfolding advance_state
  when_missing h = ground arith

  when_refused :
      (r : Server) (e : Exc)
      → find_server id db.servers ≡ some r
      → validate id r.current_state to_state ≡ err e
      → advance_state id to_state by job_id job_type metadata db ≡ (err e, db)
  unfolding advance_state
  when_refused r e h v = ground arith

  pub when_accepted :
      (r : Server)
      → find_server id db.servers ≡ some r
      → validate id r.current_state to_state ≡ ok tt
      → advance_state id to_state by job_id job_type metadata db
        ≡ (ok tt, moved id r.current_state to_state job_id job_type by metadata db)
  unfolding advance_state
  when_accepted r h v =
      rw (h, advance_state)
        (rw (v, advance_state)
          (rw (still_there id (set_state to_state r.current_state db) db.servers r (λ q. refl) h)))

  -- A move of the diagram, from the state that the row shows.
  pub advance_state-moved :
      (from : String) (r : Server)
      → find_server id db.servers ≡ some r
      → r.current_state ≡ from
      → NamesEdge from to_state
      → advance_state id to_state by job_id job_type metadata db
        ≡ (ok tt, moved id from to_state job_id job_type by metadata db)
  advance_state-moved from r h e =
      subst
        (λ f.
          NamesEdge f to_state
          → advance_state id to_state by job_id job_type metadata db
            ≡ (ok tt, moved id f to_state job_id job_type by metadata db))
        e (λ n. when_accepted r h ((validate_iff id r.current_state to_state).1 n))

  for_row :
      (r : Server)
      → find_server id db.servers ≡ some r
      → Advanced (advance_state id to_state by job_id job_type metadata db)
  for_row r h = elim (validate_cases id r.current_state to_state) [
    | inl v ↦ accepted r h ((validate_iff id r.current_state to_state).0 v) (when_accepted r h v)
    | inr v ↦
        refused r h (λ n. cc (v, (validate_iff id r.current_state to_state).1 n))
          (when_refused r (invalid_transition id r.current_state to_state) h v)
  ]

  -- advance_state on every branch: an unknown server raises ValueError and a move that the
  -- diagram lacks raises InvalidTransitionError, both with the tables unchanged; any other call
  -- succeeds, writes the row's states and time stamp and appends exactly one audit record.
  pub advance_state-Advanced : Advanced (advance_state id to_state by job_id job_type metadata db)
  advance_state-Advanced = elim (Option-cases (find_server id db.servers)) [
    | inl h ↦ missing h (when_missing h)
    | inr (r, h) ↦ for_row r h
  ]

  -- advance_state succeeds exactly where the server exists and the diagram has the move.
  pub advance_state_iff :
      ((advance_state id to_state by job_id job_type metadata db).0 ≡ ok tt)
      ↔ ((r : Server) × (find_server id db.servers ≡ some r) × NamesEdge r.current_state to_state)
  advance_state_iff = (
    λ h. elim advance_state-Advanced [
      | missing f e ↦ cc (ap (λ (o : Result (Unit {0}) × Db). o.0) e)
      | refused r f n e ↦ cc (ap (λ (o : Result (Unit {0}) × Db). o.0) e)
      | accepted r f n e ↦ (r, f, n)
    ],
    λ (r, f, n).
        ap (λ (o : Result (Unit {0}) × Db). o.0)
          (when_accepted r f ((validate_iff id r.current_state to_state).1 n)),
  )
