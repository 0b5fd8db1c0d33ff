-- ===== src/System/History.antt =====
-- What holds of the audit trail in the whole system.
use migration_orchestrator_k.Prelude.{
  String, ◌≡◌, ◌∙◌, ap, some, List, snoc, [], ◌∷◌, ◌++◌, ◌≤◌, ◌<◌, subst, sym,
}
use mathlib.Core.List.{append_assoc, append-nil}
use migration_orchestrator_k.States.{ServerState, value}
use migration_orchestrator_k.Transitions.Diagram.{stage}
use migration_orchestrator_k.Db.{Db, Transition, find_server}
use migration_orchestrator_k.StateManager.Change.{Change, life, move, enrol, keep}
use migration_orchestrator_k.StateManager.Audit.{IsAudited, shown, Change-IsAudited}
use migration_orchestrator_k.StateManager.Pipeline.{Recorded, Trail-Recorded}
use migration_orchestrator_k.Services.{Services}
use migration_orchestrator_k.World.{World}
use migration_orchestrator_k.System.Run.{Event, run, run-Holds}

-- One history goes on from another.
pub Extends : List Transition → List Transition → Type 0
Extends old new = (more : List Transition) × (new ≡ old ++ more)

Extends-snoc :
    (old new : List Transition) (t : Transition) → Extends old new → Extends old (snoc new t)
unfolding Extends
Extends-snoc old new t (more, h) =
    (snoc more t, ap (λ l. snoc l t) h ∙ append_assoc old more (t ∷ []))

Extends-refl : (old : List Transition) → Extends old old
unfolding Extends
Extends-refl old = ([], sym (append-nil old))

Change-Extends :
    (old : List Transition) {db db' : Db}
    → Change db db'
    → Extends old db.history
    → Extends old db'.history
unfolding Extends
Change-Extends old {db} (move id from to by job_id job_type metadata found legal reached e) x =
    subst (Extends old) (sym (ap (λ (d : Db). d.history) e)) (Extends-snoc old db.history _ x)
Change-Extends old (enrol r absent p es eh) (more, h) = (more, eh ∙ h)
Change-Extends old (keep lives eh) (more, h) = (more, eh ∙ h)

module _ {S : Type 0} (aws : Services S) where
  -- In tables where, for every server id, the records of the history in their order are legal moves
  -- or resets that lead from PENDING to the state in the servers table (PENDING for an id that has
  -- no row), the same holds after any requests and worker turns, whatever AWS and the broker
  -- answer.
  pub run-IsAudited :
      (events : List (Event S)) (w : World S) → IsAudited w.db → IsAudited (run aws events w).db
  run-IsAudited events w =
      run-Holds aws IsAudited (λ db db' change. Change-IsAudited change) events w

  -- Records are never changed or removed: after any requests and worker turns the history is the
  -- old one with more records at its end.
  pub run-Extends :
      (events : List (Event S)) (w : World S) → Extends w.db.history (run aws events w).db.history
  run-Extends events w =
      run-Holds aws (λ db. Extends w.db.history db.history)
        (λ db db' change. Change-Extends w.db.history change) events w (Extends-refl w.db.history)

  -- Started from tables with such audit trails: whenever a server is at a stage of the pipeline
  -- after a run, then for each earlier stage after PENDING, and for its own, the history holds a
  -- record by which the server reached that stage, and no reset of the server after it.
  pub run-Recorded :
      (events : List (Event S)) (w : World S) (id : String) (s k : ServerState)
      → IsAudited w.db
      → life (find_server id (run aws events w).db.servers) ≡ some (value s)
      → stage s ≤ 26
      → 0 < stage k
      → stage k ≤ stage s
      → Recorded id k (run aws events w).db.history
  run-Recorded events w id s k audited at =
      Trail-Recorded id s k (run-IsAudited events w audited id) (ap shown at)
