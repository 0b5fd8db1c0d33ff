-- ===== src/StateManager/Audit.antt =====
-- The audit trail: the history of a server, replayed from PENDING, leads to its current state.
use migration_orchestrator_k.Prelude.{
  String, ◌≡◌, inl, inr, refl, sym, ◌∙◌, ap, subst, Bool, true, false, Option, none, some, List, [],
  snoc, is_some, Bool-cases, ◌==◌, eq_iff, if◌then◌else◌,
}
use migration_orchestrator_k.Jobs.{JsonObject}
use migration_orchestrator_k.Db.{Server, Transition, Db, find_server}
use migration_orchestrator_k.Db.Rows.{find-snoc}
use migration_orchestrator_k.StateManager.Advance.{moved}
use migration_orchestrator_k.StateManager.Change.{
  life, Legal, Change, move, enrol, keep, life-moved,
}

-- The records of `id` in a history form an unbroken chain of legal moves from PENDING.
pub data Trail (id : String) : List Transition → String → Type 0 where
  registered : Trail id [] "PENDING"
  own :
      {history : List Transition} {state : String} (t : Transition)
      → Trail id history state
      → t.server_id ≡ id
      → t.from_state ≡ state
      → Legal t.from_state t.to_state t.job_type
      → Trail id (snoc history t) t.to_state
  other :
      {history : List Transition} {state : String} (t : Transition)
      → Trail id history state
      → (t.server_id == id) ≡ false
      → Trail id (snoc history t) state

-- The state that the servers table shows; a server that is not there is about to be registered.
abbrev pub shown : Option String → String
shown none = "PENDING"
shown (some state) = state

abbrev pub IsAudited : Db → Type 0
IsAudited db = (id : String) → Trail id db.history (shown (life (find_server id db.servers)))

module _ (id from_state to_state by : String) (job_id job_type : Option String)
    (metadata : Option JsonObject) (db : Db)
    (found : life (find_server id db.servers) ≡ some from_state)
    (legal : Legal from_state to_state job_type) (audited : IsAudited db) where
  abbrev record_of : Transition
  record_of = record {
    server_id = id;
    from_state = from_state;
    to_state = to_state;
    job_id = job_id;
    job_type = job_type;
    triggered_by = by;
    timestamp = db.now;
    metadata = metadata;
  }

  -- The state that the chain of the moved server has reached.
  reached : (key : String) → id ≡ key → from_state ≡ shown (life (find_server key db.servers))
  reached key e = ap shown (sym found) ∙ ap (λ k. shown (life (find_server k db.servers))) e

  moved-IsAudited : IsAudited (moved id from_state to_state job_id job_type by metadata db)
  moved-IsAudited key =
      rw (life-moved id key from_state to_state by job_id job_type metadata db found)
        (elim (Bool-cases (id == key)) [
          | inl e ↦ rw e (
              own record_of (audited key) ((eq_iff id key).0 e) (reached key ((eq_iff id key).0 e))
                legal)
          | inr e ↦ rw e (other record_of (audited key) e)
        ])

-- A row that is not there and a row in PENDING show the same.
shown-snoc :
    (key : String) (rows : List Server) (r : Server)
    → find_server r.server_id rows ≡ none
    → r.current_state ≡ "PENDING"
    → shown (life (find_server key (snoc rows r))) ≡ shown (life (find_server key rows))
shown-snoc key rows r absent p = rw (find-snoc key rows r) (by_row (find_server key rows))
  where
    by_test : (b : Bool) → shown (life (if b then some r else none)) ≡ "PENDING"
    by_test true = p
    by_test false = refl

    by_row :
        (o : Option Server)
        → shown (life (if is_some o then o else if r.server_id == key then some r else none))
          ≡ shown (life o)
    by_row none = by_test (r.server_id == key)
    by_row (some q) = refl

-- Every change of the tables keeps the audit trails.
pub Change-IsAudited : {db db' : Db} → Change db db' → IsAudited db → IsAudited db'
Change-IsAudited {db} (move id from to by job_id job_type metadata found legal reached e) audited
      key =
    subst IsAudited (sym e)
      (moved-IsAudited id from to by job_id job_type metadata db found legal audited) key
Change-IsAudited {db} (enrol r absent p es eh) audited key =
    rw (es, eh) (rw (shown-snoc key db.servers r absent p) (audited key))
Change-IsAudited (keep lives eh) audited key = rw (lives key, eh) (audited key)
