-- ===== src/System/Unreached.antt =====
-- How far a server gets in the whole system: no further than its running test instance.
use migration_orchestrator_k.Prelude.{
  String, ◌≡◌, ◌⊎◌, inl, inr, refl, sym, ◌∙◌, ap, subst, ◌≤◌, Option, some, some_inj, none, true,
  false, Bool, List, arith, is_some, ◌==◌, if◌then◌else◌,
}
use migration_orchestrator_k.States
use migration_orchestrator_k.States.{ServerState, value}
use migration_orchestrator_k.Transitions.Diagram.{stage}
use migration_orchestrator_k.Transitions.Validate.{NamesEdge}
use migration_orchestrator_k.Db.{Server, Db, find_server}
use migration_orchestrator_k.Db.Rows.{find-snoc}
use migration_orchestrator_k.StateManager.Change.{
  Change, move, enrol, keep, life, Legal, life-moved, IsReached, is_reached,
}
use migration_orchestrator_k.StateManager.Frozen.{value_injective}
use migration_orchestrator_k.StateManager.Pipeline.{stage_injective}
use migration_orchestrator_k.Services.{Services}
use migration_orchestrator_k.World.{World}
use migration_orchestrator_k.System.Run.{Event, run, run-Holds}

-- Not past TEST_INSTANCE_RUNNING, or stopped.
abbrev pub IsEarly : ServerState → Type 0
IsEarly s = (stage s ≤ 9) ⊎ (27 ≤ stage s)

-- Every server of the table.
abbrev pub AllEarly : Db → Type 0
AllEarly db =
    (id : String) (s : ServerState) → life (find_server id db.servers) ≡ some (value s) → IsEarly s

validation_unreached : is_reached (value States.awaiting_test_validation) ≡ false
unfolding is_reached value
validation_unreached = refl

text_of_pending : "PENDING" ≡ value States.pending
unfolding value
text_of_pending = refl

pending-IsEarly : (s : ServerState) → "PENDING" ≡ value s → IsEarly s
pending-IsEarly s e =
    inl (omega (arith, ap stage (value_injective s States.pending (sym e ∙ text_of_pending))))

not_validation : (s : ServerState) → IsReached (value s) → stage s ≡ 10 → ⊥
not_validation s reached e = cc (
  reached,
  ap (λ t. is_reached (value t))
      (stage_injective s States.awaiting_test_validation e (omega (arith, e))),
  validation_unreached,
)

-- A step of the diagram.
edge-IsEarly :
    {from to : String} (n : NamesEdge from to) → IsReached to → IsEarly n.from → IsEarly n.to
edge-IsEarly n reached (inr late) = omega (arith, late, n.edge.0)
edge-IsEarly n reached (inl early) = elim n.edge.1 [
  | inl step ↦
      inl (omega (arith, step, early, not_validation n.to (subst IsReached n.to_named reached)))
  | inr (inl f) ↦ inr (omega (arith, ap stage f))
  | inr (inr f) ↦ inr (omega (arith, ap stage f))
]

module _ (id from to : String) (job_type : Option String) (db : Db) (early : AllEarly db)
    (found : life (find_server id db.servers) ≡ some from) where
  Legal-IsEarly :
      Legal from to job_type → IsReached to → (s : ServerState) → to ≡ value s → IsEarly s
  Legal-IsEarly (inl n) reached s e =
      subst IsEarly (sym (value_injective s n.to (sym e ∙ n.to_named)))
        (edge-IsEarly n reached (early id n.from (found ∙ ap some n.from_named)))
  Legal-IsEarly (inr (f, t, j)) reached s e = pending-IsEarly s (sym t ∙ e)

  either-IsEarly :
      (test : Bool) (key : String) (s : ServerState)
      → Legal from to job_type
      → IsReached to
      → (if test then some to else life (find_server key db.servers)) ≡ some (value s)
      → IsEarly s
  either-IsEarly true key s legal reached q = Legal-IsEarly legal reached s (some_inj.0 q)
  either-IsEarly false key s legal reached q = early key s q

new_row :
    (present : Option Server) (test : Bool) (r : Server) (s : ServerState)
    → r.current_state ≡ "PENDING"
    → (life present ≡ some (value s) → IsEarly s)
    → life (if is_some present then present else if test then some r else none) ≡ some (value s)
    → IsEarly s
new_row (some q) test r s p h e = h e
new_row none true r s p h e = pending-IsEarly s (sym p ∙ some_inj.0 e)
new_row none false r s p h e = h e

Change-AllEarly : (db db' : Db) → Change db db' → AllEarly db → AllEarly db'
Change-AllEarly db db' (move id from to by job_id job_type metadata found legal reached e) early key
      s q =
    either-IsEarly id from to job_type db early found (id == key) key s legal reached (
      sym (life-moved id key from to by job_id job_type metadata db found)
      ∙ ap (λ (d : Db). life (find_server key d.servers)) (sym e)
      ∙ q)
Change-AllEarly db db' (enrol r absent p es eh) early key s q =
    new_row (find_server key db.servers) (r.server_id == key) r s p (early key s) (
      ap life (sym (find-snoc key db.servers r))
      ∙ ap (λ rows. life (find_server key rows)) (sym es)
      ∙ q)
Change-AllEarly db db' (keep lives eh) early key s q = early key s (sym (lives key) ∙ q)

module _ {S : Type 0} (aws : Services S) where
  -- No server gets past TEST_INSTANCE_RUNNING: from tables in which every server is at most there,
  -- or FAILED or FROZEN, any run, with whatever requests, answers of AWS and messages in the queues,
  -- leads to tables in which this holds again.
  pub run-AllEarly :
      (events : List (Event S)) (w : World S) → AllEarly w.db → AllEarly (run aws events w).db
  run-AllEarly events w early = run-Holds aws AllEarly Change-AllEarly events w early
