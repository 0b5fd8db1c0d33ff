-- ===== src/StateManager/Reads/Queries.antt =====
-- What list_servers and list_transitions return.
use migration_orchestrator_k.Prelude.{
  String, ◌≡◌, ◌↔◌, refl, Option, some, Bool, true, false, List, arith, leb, ◌==◌, eq_iff,
}
use mathlib.Core.List.{Memᴰ}
use migration_orchestrator_k.Exec.{ok}
use migration_orchestrator_k.Db.{Transition, Server, Db, meets, select, order_by}
use migration_orchestrator_k.Db.Order.{IsSorted, order_by-IsSorted, query_iff}
use migration_orchestrator_k.StateManager.Queries.{column_is, server_conditions, list_servers}
use migration_orchestrator_k.StateManager.Reads.Filters.{
  Given, InWave, both_iff, given_iff, column_iff, batch_iff,
}

-- A query that returns the rows that satisfy `P`, in the order of `before`.
pub record Answers {A : Type 0} (before : A → A → Bool) (table : List A) (P : A → Type 0)
    (found : List A) : Type 0 where
  pub sorted : IsSorted before found
  pub rows : (a : A) → Memᴰ a found ↔ Memᴰ a table × P a

pub answers :
    {A : Type 0} (before : A → A → Bool) (cs : List (A → Bool)) (table : List A) (P : A → Type 0)
    → ((a b : A) → before a b ≡ false → before b a ≡ true)
    → ((a : A) → (meets cs a ≡ true) ↔ P a)
    → Answers before table P (order_by before (select (meets cs) table))
answers before cs table P total h = record {
  sorted = order_by-IsSorted before total (select (meets cs) table);
  rows = λ a.
      let q = query_iff before (meets cs) table a in
      (λ m. let (m', e) = q.0 m in (m', (h a).0 e), λ (m, p). q.1 (m, (h a).1 p));
}

-- The later registration first.
abbrev pub newer_server : Server → Server → Bool
newer_server r s = leb s.created_at r.created_at

abbrev pub newer_transition : Transition → Transition → Bool
newer_transition s t = leb t.timestamp s.timestamp

module _ (ilike : String → String → Bool) (state_filter batch_id engineer hostname : Option String)
    (db : Db) where
  abbrev pub Wanted : Server → Type 0
  Wanted r =
      Given state_filter (λ s. r.current_state ≡ s)
      × (InWave batch_id r.batch_id
          × (Given engineer (λ e. r.assigned_engineer ≡ some e)
              × Given hostname (λ h. ilike r.hostname h ≡ true)))

  conditions_iff :
      (r : Server)
      → (meets (server_conditions ilike state_filter batch_id engineer hostname) r ≡ true)
        ↔ Wanted r
  unfolding server_conditions
  conditions_iff r =
      both_iff _ _ r
        (given_iff state_filter (λ s (r : Server). r.current_state == s) r _
          (λ s. let q = eq_iff r.current_state s in (q.0, q.1)))
        (both_iff _ _ r (batch_iff batch_id r) (
          both_iff _ _ r
            (given_iff engineer (λ e (r : Server). column_is r.assigned_engineer e) r _
              (column_iff r.assigned_engineer))
            (given_iff hostname (λ h (r : Server). ilike r.hostname h) r _
              (λ h. (λ e. e, λ e. e)))))

  -- list_servers returns exactly the servers that satisfy every filter that is given and not empty,
  -- the last registered first, and changes nothing; the batch filter 'unassigned' asks for the
  -- servers without a batch.
  pub list_servers-Answers :
      (found : List Server) × (list_servers ilike state_filter batch_id engineer hostname db
        ≡ (ok found, db))
      × Answers newer_server db.servers Wanted found
  unfolding list_servers
  list_servers-Answers = (
    _,
    refl,
    answers newer_server (server_conditions ilike state_filter batch_id engineer hostname)
        db.servers Wanted (λ r s h. ground arith) conditions_iff,
  )
