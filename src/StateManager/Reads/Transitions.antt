-- ===== src/StateManager/Reads/Transitions.antt =====
-- What list_transitions returns.
use migration_orchestrator_k.Prelude.{
  ℕ, ◌≤◌, String, ◌≡◌, ◌≢◌, ◌↔◌, inl, inr, Bool, Bool-cases, refl, ◌∙◌, ap, Option, none, some,
  true, List, arith, leb, ◌==◌, eq_iff,
}
use migration_orchestrator_k.Exec.{Exc, Result, ok, err, Result-cases}
use migration_orchestrator_k.Db.{Transition, Server, Db, find_server, meets}
use migration_orchestrator_k.StateManager.Batches.{row_in_batch}
use migration_orchestrator_k.StateManager.Queries.{
  column_is, join_condition, read_bound, bounded, transition_conditions, list_transitions,
}
use migration_orchestrator_k.StateManager.Reads.Filters.{
  Given, one_iff, both_iff, given_iff, column_iff, in_column_iff,
}
use migration_orchestrator_k.StateManager.Reads.Queries.{Answers, answers, newer_transition}

-- A bound that is given holds.
abbrev pub Bound : Option ℕ → (ℕ → Type 0) → Type 0
Bound none P = Unit
Bound (some n) P = P n

-- The time that a text gives: none for a text that is missing or empty.
abbrev pub IsBound : (String → Result ℕ) → Option String → Option ℕ → Type 0
IsBound timestamptz none b = b ≡ none
IsBound timestamptz (some s) b =
    (s ≡ "" → b ≡ none) × (s ≢ "" → (n : ℕ) × (timestamptz s ≡ ok n) × (b ≡ some n))

-- The row is there, and in the batch.
abbrev pub Joined : Option String → Option Server → Type 0
Joined none o = Unit
Joined (some batch_id) o = (r : Server) × (o ≡ some r) × (r.batch_id ≡ some batch_id)

row_iff :
    (batch_id : String) (o : Option Server)
    → (row_in_batch batch_id o ≡ true)
      ↔ ((r : Server) × (o ≡ some r) × (r.batch_id ≡ some batch_id))
row_iff batch_id none = (λ e. cc, λ (r, e, b). cc)
row_iff batch_id (some q) = (
  λ e. (q, refl, (in_column_iff q.batch_id batch_id).0 e),
  λ (r, e, b). ap (row_in_batch batch_id) e ∙ (in_column_iff r.batch_id batch_id).1 b,
)

join_iff :
    (o : Option String) (rows : List Server) (t : Transition)
    → (meets (join_condition o rows) t ≡ true) ↔ Joined o (find_server t.server_id rows)
join_iff none rows t = unfold meets in (λ e. tt, λ u. refl)
join_iff (some batch_id) rows t =
    let one =
      one_iff (λ (t : Transition). row_in_batch batch_id (find_server t.server_id rows)) t in
    let row = row_iff batch_id (find_server t.server_id rows) in
    (λ m. row.0 (one.0 m), λ j. one.1 (row.1 j))

bounded_iff :
    (o : Option ℕ) (c : ℕ → Transition → Bool) (t : Transition) (P : ℕ → Type 0)
    → ((n : ℕ) → (c n t ≡ true) ↔ P n)
    → (meets (bounded o c) t ≡ true) ↔ Bound o P
bounded_iff none c t P q = unfold meets in (λ e. tt, λ u. refl)
bounded_iff (some n) c t P q =
    let one = one_iff (c n) t in (λ m. (q n).0 (one.0 m), λ p. one.1 ((q n).1 p))

-- What reading a bound gives.
data Reads (timestamptz : String → Result ℕ) (o : Option String) : Type 0 where
  unreadable :
      (s : String) (e : Exc)
      → o ≡ some s
      → s ≢ ""
      → timestamptz s ≡ err e
      → read_bound timestamptz o ≡ err e
      → Reads timestamptz o
  readable :
      (b : Option ℕ)
      → IsBound timestamptz o b
      → read_bound timestamptz o ≡ ok b
      → Reads timestamptz o

reads : (timestamptz : String → Result ℕ) (o : Option String) → Reads timestamptz o
unfolding read_bound
reads timestamptz none = readable none refl refl
reads timestamptz (some s) = elim (Bool-cases (s == "")) [
  | inl e ↦ readable none (λ _. refl, λ n. absurd (n ((eq_iff s "").0 e))) (rw e refl)
  | inr e ↦ elim (Result-cases (timestamptz s)) [
    | inl (n, h) ↦
        readable (some n) (λ q. cc (e, (eq_iff s "").1 q), λ _. (n, h, refl)) (rw (e, h) refl)
    | inr (x, h) ↦ unreadable s x refl (λ q. cc (e, (eq_iff s "").1 q)) h (rw (e, h) refl)
  ]
]

module _ (timestamptz : String → Result ℕ)
    (server_id batch_id from_state to_state by job_type since until : Option String) (db : Db) where
  module _ (first last : Option ℕ) where
    abbrev pub Wanted : Transition → Type 0
    Wanted t =
        Joined batch_id (find_server t.server_id db.servers)
        × (Given server_id (λ s. t.server_id ≡ s)
            × (Given from_state (λ s. t.from_state ≡ s)
                × (Given to_state (λ s. t.to_state ≡ s)
                    × (Given by (λ s. t.triggered_by ≡ s)
                        × (Given job_type (λ s. t.job_type ≡ some s)
                            × (Bound first (λ n. n ≤ t.timestamp)
                                × Bound last (λ n. t.timestamp ≤ n)))))))

    equals : (s text : String) → ((s == text) ≡ true) ↔ (s ≡ text)
    equals s text = let q = eq_iff s text in (q.0, q.1)

    at_most : (m n : ℕ) → (leb m n ≡ true) ↔ (m ≤ n)
    at_most m n = (λ e. ground arith, λ h. ground arith)

    conditions_iff :
        (t : Transition)
        → (meets
              (transition_conditions server_id batch_id from_state to_state by job_type first last
                db.servers)
              t
            ≡ true)
          ↔ Wanted t
    unfolding transition_conditions
    conditions_iff t = both_iff _ _ t (join_iff batch_id db.servers t) (
        both_iff _ _ t
          (given_iff server_id (λ s (t : Transition). t.server_id == s) t _ (equals t.server_id))
          (both_iff _ _ t
            (given_iff from_state (λ s (t : Transition). t.from_state == s) t _
              (equals t.from_state))
            (both_iff _ _ t
              (given_iff to_state (λ s (t : Transition). t.to_state == s) t _ (equals t.to_state))
              (both_iff _ _ t
                (given_iff by (λ s (t : Transition). t.triggered_by == s) t _
                  (equals t.triggered_by))
                (both_iff _ _ t
                  (given_iff job_type (λ s (t : Transition). column_is t.job_type s) t _
                    (column_iff t.job_type))
                  (both_iff _ _ t
                    (bounded_iff first (λ n t. leb n t.timestamp) t _ (λ n. at_most n t.timestamp))
                    (bounded_iff last (λ n t. leb t.timestamp n) t _
                      (λ n. at_most t.timestamp n))))))))

  -- What list_transitions may do.
  pub data Listed (outcome : Result (List Transition) × Db) : Type 0 where
    unread_since :
        (s : String) (e : Exc)
        → since ≡ some s
        → s ≢ ""
        → timestamptz s ≡ err e
        → outcome ≡ (err e, db)
        → Listed outcome
    unread_until :
        (first : Option ℕ) (s : String) (e : Exc)
        → IsBound timestamptz since first
        → until ≡ some s
        → s ≢ ""
        → timestamptz s ≡ err e
        → outcome ≡ (err e, db)
        → Listed outcome
    listed :
        (first last : Option ℕ) (found : List Transition)
        → IsBound timestamptz since first
        → IsBound timestamptz until last
        → outcome ≡ (ok found, db)
        → Answers newer_transition db.history (Wanted first last) found
        → Listed outcome

  -- list_transitions on every branch: where since, or else until, is given, not empty and cannot be
  -- read as a time, its exception leaves the tables as they were; else it returns exactly the
  -- records that satisfy every filter that is given and not empty, the latest first, and changes
  -- nothing; with a batch it asks for records of the servers that are in it now.
  pub list_transitions-Listed : Listed (
      list_transitions timestamptz server_id batch_id from_state to_state by job_type since until
        db)
  unfolding list_transitions
  list_transitions-Listed = elim (reads timestamptz since) [
    | unreadable s e o n h r ↦ unread_since s e o n h (rw r refl)
    | readable first is_first r ↦ elim (reads timestamptz until) [
      | unreadable s e o n h q ↦ unread_until first s e is_first o n h (rw r (rw q refl))
      | readable last is_last q ↦ listed first last _ is_first is_last (rw r (rw q refl)) (
          answers newer_transition
            (transition_conditions server_id batch_id from_state to_state by job_type first last
              db.servers)
            db.history (Wanted first last) (λ s t h. ground arith) (conditions_iff first last))
    ]
  ]
