-- ===== src/System/Approval.antt =====
-- Where the workers stop in the whole system: at the approval gates, which only a request opens, and
-- before the validations, which no poll reaches.
use migration_orchestrator_k.Prelude.{
  String, ◌≡◌, ◌⊎◌, inl, inr, refl, sym, ◌∙◌, ap, subst, ◌≤◌, ◌+◌, Option, some, some_inj, false,
  List, arith, Bool-cases, ◌==◌, eq_iff,
}
use migration_orchestrator_k.States
use migration_orchestrator_k.States.{ServerState, value}
use migration_orchestrator_k.Transitions.Diagram.{stage}
use migration_orchestrator_k.Transitions.Validate.{NamesEdge}
use migration_orchestrator_k.Db.{Db, find_server}
use migration_orchestrator_k.StateManager.Change.{life, life-moved}
use migration_orchestrator_k.StateManager.Unattended.{Unattended, IsFree, is_free, move, keep}
use migration_orchestrator_k.StateManager.Frozen.{value_injective}
use migration_orchestrator_k.StateManager.Pipeline.{stage_injective}
use migration_orchestrator_k.Services.{Services}
use migration_orchestrator_k.World.{World}
use migration_orchestrator_k.Poller.Stale.{IsRunning}
use migration_orchestrator_k.Api.GateTable.{Gate, waiting, approved}
use migration_orchestrator_k.Api.GateTable
use migration_orchestrator_k.System.Run.{Event, AllAutomatic, run, unattended-Holds}

-- In an error state.
abbrev pub IsStopped : Option String → Type 0
IsStopped o = (o ≡ some "FAILED") ⊎ (o ≡ some "FROZEN")

-- A state that no worker moves a server out of, to the next stage.
pub record Barrier (here : ServerState) : Type 0 where
  pub next : ServerState
  pub follows : stage next ≡ stage here + 1
  pub in_pipeline : stage next ≤ 26
  pub not_free : is_free (value next) ≡ false

pub gate-Barrier : (g : Gate) → Barrier (waiting g)
unfolding is_free value
gate-Barrier GateTable.replication = record {
  next = approved GateTable.replication;
  follows = refl;
  in_pipeline = omega arith;
  not_free = refl;
}
gate-Barrier g = record {
  next = approved g;
  follows = refl;
  in_pipeline = omega arith;
  not_free = refl;
}

-- The states in which phase 2 of the instance polls would find a server.
running-Barrier : (s : ServerState) → IsRunning s → Barrier s
unfolding is_free value
running-Barrier s (inl e) = record {
  next = States.awaiting_test_validation;
  follows = rw e refl;
  in_pipeline = omega arith;
  not_free = refl;
}
running-Barrier s (inr e) = record {
  next = States.awaiting_cutover_validation;
  follows = rw e refl;
  in_pipeline = omega arith;
  not_free = refl;
}

failed_value : value States.failed ≡ "FAILED"
unfolding value
failed_value = refl

frozen_value : value States.frozen ≡ "FROZEN"
unfolding value
frozen_value = refl

-- From such a state, the free moves are those that stop the server.
module _ {here : ServerState} (barrier : Barrier here) (from to : String) (e : from ≡ value here)
    (n : NamesEdge from to) (free : IsFree to) where
  from_here : n.from ≡ here
  from_here = value_injective n.from here (sym n.from_named ∙ e)

  opened : stage n.to ≡ stage n.from + 1 → n.to ≡ barrier.next
  opened step =
      stage_injective n.to barrier.next
        (step ∙ ap (λ s. stage s + 1) from_here ∙ sym barrier.follows)
        (omega (arith, step, ap stage from_here, barrier.follows, barrier.in_pipeline))

  leaves-IsStopped : IsStopped (some to)
  leaves-IsStopped = elim n.edge.1 [
    | inl step ↦ cc (free, ap is_free (n.to_named ∙ ap value (opened step)), barrier.not_free)
    | inr (inl f) ↦ inl (ap some (n.to_named ∙ ap value f ∙ failed_value))
    | inr (inr f) ↦ inr (ap some (n.to_named ∙ ap value f ∙ frozen_value))
  ]

-- Nothing leaves an error state by an edge.
stuck : (s : ServerState) (from to : String) → 26 ≤ stage s → value s ≡ from → NamesEdge from to → ⊥
stuck s from to late e n =
    omega (arith, n.edge.0, ap stage (value_injective s n.from (e ∙ n.from_named)))

stopped_move : (from to : String) → IsStopped (some from) → NamesEdge from to → ⊥
stopped_move from to (inl e) n =
    stuck States.failed from to (omega arith) (failed_value ∙ sym (some_inj.0 e)) n
stopped_move from to (inr e) n =
    stuck States.frozen from to (omega arith) (frozen_value ∙ sym (some_inj.0 e)) n

-- Still there, or stopped.
abbrev pub Waits : ServerState → Option String → Type 0
Waits here o = (o ≡ some (value here)) ⊎ IsStopped o

moved-Waits :
    {here : ServerState} (barrier : Barrier here) (from to : String)
    → Waits here (some from)
    → NamesEdge from to
    → IsFree to
    → Waits here (some to)
moved-Waits barrier from to (inl e) n free =
    inr (leaves-IsStopped barrier from to (some_inj.0 e) n free)
moved-Waits barrier from to (inr e) n free = absurd (stopped_move from to e n)

Unattended-Waits :
    (here : ServerState) (barrier : Barrier here) (key : String) (db db' : Db)
    → Unattended db db'
    → Waits here (life (find_server key db.servers))
    → Waits here (life (find_server key db'.servers))
Unattended-Waits here barrier key db db' (keep lives eh) h = subst (Waits here) (sym (lives key)) h
Unattended-Waits here barrier key db db'
      (move id from to by job_id job_type metadata found n free e) h =
    subst (λ (d : Db). Waits here (life (find_server key d.servers))) (sym e)
      (subst (Waits here) (sym (life-moved id key from to by job_id job_type metadata db found))
        (elim (Bool-cases (id == key)) [
          | inl t ↦ rw t (
              moved-Waits barrier from to
                (subst (Waits here)
                  (ap (λ k. life (find_server k db.servers)) (sym ((eq_iff id key).0 t)) ∙ found) h)
                n free)
          | inr t ↦ rw t h
        ]))

module _ {S : Type 0} (aws : Services S) where
  -- A server that waits at a gate does not pass it unless somebody asks: after any run of worker
  -- turns, changes of the clock and changes outside, without a request, it still waits there, or it
  -- is FAILED or FROZEN.
  pub run-Waits :
      (g : Gate) (id : String) (events : List (Event S)) (w : World S)
      → AllAutomatic events
      → life (find_server id w.db.servers) ≡ some (value (waiting g))
      → Waits (waiting g) (life (find_server id (run aws events w).db.servers))
  run-Waits g id events w automatic waits =
      unattended-Holds aws (λ db. Waits (waiting g) (life (find_server id db.servers)))
        (Unattended-Waits (waiting g) (gate-Barrier g) id) events w automatic (inl waits)

  -- The pipeline stalls: a server in TEST_INSTANCE_RUNNING or CUTOVER_INSTANCE_RUNNING, where phase 2
  -- of its instance poll is to move it on, is still there after any run of worker turns, changes of
  -- the clock and changes outside, without a request, or it is FAILED or FROZEN.
  pub run-Stalls :
      (s : ServerState) (id : String) (events : List (Event S)) (w : World S)
      → IsRunning s
      → AllAutomatic events
      → life (find_server id w.db.servers) ≡ some (value s)
      → Waits s (life (find_server id (run aws events w).db.servers))
  run-Stalls s id events w running automatic there =
      unattended-Holds aws (λ db. Waits s (life (find_server id db.servers)))
        (Unattended-Waits s (running-Barrier s running) id) events w automatic (inl there)
