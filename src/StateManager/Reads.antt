-- ===== src/StateManager/Reads.antt =====
-- What the reads with conditions return: which rows, and in which order.
pub mod Filters
pub mod Queries
pub mod Transitions
use migration_orchestrator_k.Prelude.{
  ℕ, ◌≤◌, String, ◌≡◌, ◌≢◌, ◌↔◌, refl, sym, ◌∙◌, ap, inl, inr, Option, none, some, Bool, true,
  false, List, [], ◌∷◌, is_some, arith, leb, ◌==◌, eq_iff, Option-cases,
}
use mathlib.Core.List.{Memᴰ, Permᴰ}
use migration_orchestrator_k.Exec.{Result, ok, err, value_error}
use migration_orchestrator_k.Db.{Transition, Db, find_server, Server, select, order_by}
use migration_orchestrator_k.Db.Order.{IsSorted, order_by-IsSorted, order_by-Permᴰ, query_iff}
use migration_orchestrator_k.StateManager.Moves.{not_found}
use migration_orchestrator_k.StateManager.Servers.{get_server_history, oldest_first}

older : (s t : Transition) → oldest_first s t ≡ false → oldest_first t s ≡ true
older s t h = ground arith

module _ (id : String) (db : Db) where
  -- What get_server_history may do.
  pub data HistoryRead (outcome : Result (List Transition) × Db) : Type 0 where
    missing :
        find_server id db.servers ≡ none
        → outcome ≡ (err (value_error (not_found id)), db)
        → HistoryRead outcome
    listed :
        (r : Server) (records : List Transition)
        → find_server id db.servers ≡ some r
        → outcome ≡ (ok records, db)
        → IsSorted oldest_first records
        → Permᴰ (select (λ t. t.server_id == id) db.history) records
        → ((t : Transition) → Memᴰ t records ↔ Memᴰ t db.history × (t.server_id ≡ id))
        → HistoryRead outcome

  of_server :
      (t : Transition)
      → Memᴰ t (order_by oldest_first (select (λ t. t.server_id == id) db.history))
        ↔ Memᴰ t db.history × (t.server_id ≡ id)
  of_server t =
      let q = query_iff oldest_first (λ (t : Transition). t.server_id == id) db.history t in
      (
        λ m. let (m', e) = q.0 m in (m', (eq_iff t.server_id id).0 e),
        λ (m, e). q.1 (m, (eq_iff t.server_id id).1 e),
      )

  -- get_server_history on every branch: for an unknown server it raises ValueError; else it returns
  -- the server's records of the history and no others, each as often as it is there, the oldest
  -- first. The tables are unchanged.
  pub get_server_history-HistoryRead : HistoryRead (get_server_history id db)
  unfolding get_server_history
  get_server_history-HistoryRead = elim (Option-cases (find_server id db.servers)) [
    | inl h ↦ missing h (rw (h, get_server_history) refl)
    | inr (r, h) ↦
        listed r (order_by oldest_first (select (λ t. t.server_id == id) db.history)) h
          (rw (h, get_server_history) refl)
          (order_by-IsSorted oldest_first older (select (λ t. t.server_id == id) db.history))
          (order_by-Permᴰ oldest_first (select (λ t. t.server_id == id) db.history)) of_server
  ]
