-- ===== src/System/Members.antt =====
-- The texts in the column current_state name members of the enumeration, in every run.
use migration_orchestrator_k.Prelude.{String, ◌≡◌, inl, inr, refl, sym, ◌∙◌, ap, Option, some, List}
use migration_orchestrator_k.States
use migration_orchestrator_k.States.{ServerState, value}
use migration_orchestrator_k.Db.{Server, Transition, find_server}
use migration_orchestrator_k.StateManager.Change.{life, Legal}
use migration_orchestrator_k.StateManager.Audit.{Trail, registered, own, other, IsAudited, shown}
use migration_orchestrator_k.Services.{Services}
use migration_orchestrator_k.World.{World}
use migration_orchestrator_k.System.Run.{Event, run}
use migration_orchestrator_k.System.History.{run-IsAudited}

abbrev pub IsMember : String → Type 0
IsMember text = (s : ServerState) × (text ≡ value s)

pending-IsMember : IsMember "PENDING"
unfolding value
pending-IsMember = (States.pending, refl)

Legal-IsMember :
    {from to_state : String} {job_type : Option String}
    → Legal from to_state job_type
    → IsMember to_state
Legal-IsMember (inl n) = (n.to, n.to_named)
Legal-IsMember (inr (f, t, j)) = let (s, e) = pending-IsMember in (s, t ∙ e)

Trail-IsMember :
    {id : String} {history : List Transition} {state : String}
    → Trail id history state
    → IsMember state
Trail-IsMember registered = pending-IsMember
Trail-IsMember (own t trail key from legal) = Legal-IsMember legal
Trail-IsMember (other t trail key) = Trail-IsMember trail

module _ {S : Type 0} (aws : Services S) where
  -- After any run from audited tables, the current state of every server is the value of a member of
  -- the enumeration.
  pub run-IsMember :
      (events : List (Event S)) (w : World S) (id : String) (r : Server)
      → IsAudited w.db
      → find_server id (run aws events w).db.servers ≡ some r
      → IsMember r.current_state
  run-IsMember events w id r audited found =
      let (s, e) = Trail-IsMember (run-IsAudited aws events w audited id) in
      (s, sym (ap (λ o. shown (life o)) found) ∙ e)
