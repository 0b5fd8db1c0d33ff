-- ===== src/StateManager/Queries.antt =====
-- The reads with optional filters: list_servers and list_transitions. PostgreSQL's ILIKE and its
-- reading of a timestamp are parameters.
use migration_orchestrator_k.Prelude.{
  ℕ, String, Option, none, some, Bool, true, false, List, [], ◌∷◌, ◌++◌, leb, ◌==◌, if◌then◌else◌,
}
use migration_orchestrator_k.Exec.{Result, ok, err, Exec, lift, gets, ◌>>=◌}
use migration_orchestrator_k.Db.{Server, Transition, Db, find_server, meets, select, order_by}
use migration_orchestrator_k.StateManager.Batches.{in_batch, row_in_batch}

abbrev pub map_ok : {A B : Type 0} → (A → B) → Result A → Result B
map_ok f (ok a) = ok (f a)
map_ok f (err e) = err e

-- `if text:` adds a condition; None and "" add none.
abbrev pub given {ℓ} : {A : Type ℓ} → Option String → (String → A → Bool) → List (A → Bool)
given none condition = []
given (some text) condition = if text == "" then [] else condition text ∷ []

abbrev pub is_null : Option String → Bool
is_null none = true
is_null (some text) = false

abbrev pub column_is : Option String → String → Bool
column_is none text = false
column_is (some s) text = s == text

-- `if batch_id is not None`, with the sentinel 'unassigned'.
abbrev pub batch_condition : Option String → List (Server → Bool)
batch_condition none = []
batch_condition (some batch_id) =
    if batch_id == "unassigned" then (λ r. is_null r.batch_id) ∷ [] else in_batch batch_id ∷ []

unfoldable pub server_conditions :
    (String → String → Bool)
    → Option String
    → Option String
    → Option String
    → Option String
    → List (Server → Bool)
server_conditions ilike state_filter batch_id engineer hostname =
    given state_filter (λ s r. r.current_state == s)
    ++ (batch_condition batch_id
        ++ (given engineer (λ e r. column_is r.assigned_engineer e)
            ++ given hostname (λ h r. ilike r.hostname h)))

-- The newest registrations first. `ilike hostname h` is `hostname ILIKE '%h%'`.
unfoldable pub list_servers :
    (String → String → Bool)
    → Option String
    → Option String
    → Option String
    → Option String
    → Exec Db (List Server)
unfolding server_conditions meets select order_by
list_servers ilike state_filter batch_id engineer hostname = gets λ db.
    order_by (λ r s. leb s.created_at r.created_at)
      (select (meets (server_conditions ilike state_filter batch_id engineer hostname)) db.servers)

abbrev pub join_condition : Option String → List Server → List (Transition → Bool)
join_condition none rows = []
join_condition (some batch_id) rows =
    (λ t. row_in_batch batch_id (find_server t.server_id rows)) ∷ []

-- `$n::timestamptz` for a text that is given, as the driver and the database read it, or their
-- exception.
unfoldable pub read_bound : (String → Result ℕ) → Option String → Result (Option ℕ)
read_bound timestamptz none = ok none
read_bound timestamptz (some text) = if text == "" then ok none else map_ok some (timestamptz text)

abbrev pub bounded : Option ℕ → (ℕ → Transition → Bool) → List (Transition → Bool)
bounded none condition = []
bounded (some n) condition = condition n ∷ []

unfoldable pub transition_conditions :
    Option String
    → Option String
    → Option String
    → Option String
    → Option String
    → Option String
    → Option ℕ
    → Option ℕ
    → List Server
    → List (Transition → Bool)
unfolding find_server
transition_conditions server_id batch_id from_state to_state by job_type since until rows =
    join_condition batch_id rows
    ++ (given server_id (λ s t. t.server_id == s)
        ++ (given from_state (λ s t. t.from_state == s)
            ++ (given to_state (λ s t. t.to_state == s)
                ++ (given by (λ s t. t.triggered_by == s)
                    ++ (given job_type (λ s t. column_is t.job_type s)
                        ++ (bounded since (λ n t. leb n t.timestamp)
                            ++ bounded until (λ n t. leb t.timestamp n)))))))

-- Where a bound cannot be read, the query raises; the driver reads its arguments in order.
unfoldable pub list_transitions :
    (String → Result ℕ)
    → Option String
    → Option String
    → Option String
    → Option String
    → Option String
    → Option String
    → Option String
    → Option String
    → Exec Db (List Transition)
unfolding read_bound transition_conditions meets select order_by
list_transitions timestamptz server_id batch_id from_state to_state by job_type since until = do
  first ← lift (read_bound timestamptz since)
  last ← lift (read_bound timestamptz until)
  gets λ db.
      order_by (λ s t. leb t.timestamp s.timestamp)
        (select
          (meets (
            transition_conditions server_id batch_id from_state to_state by job_type first last
              db.servers))
          db.history)
