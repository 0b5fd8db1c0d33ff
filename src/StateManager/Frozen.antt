-- ===== src/StateManager/Frozen.antt =====
-- The states that no method of StateManager leaves.
use migration_orchestrator_k.Prelude.{
  String, ◌≡◌, ◌⊎◌, inl, inr, sym, ◌∙◌, ap, subst, ◌<◌, Option, none, some, List, snoc, Bool-cases,
  ◌==◌, eq_iff, arith, is_some, if◌then◌else◌,
}
use migration_orchestrator_k.States.{ServerState, value, failed, frozen, cleanup_complete}
use migration_orchestrator_k.States.Values.{server_state-value, server_state_iff}
use migration_orchestrator_k.Transitions.Diagram.{stage}
use migration_orchestrator_k.Db.{Server, Db, find_server}
use migration_orchestrator_k.Db.Rows.{find-snoc}
use migration_orchestrator_k.StateManager.Change.{
  life, Legal, Change, move, enrol, keep, life-moved,
}

-- Only one member has a given value.
pub value_injective : (s t : ServerState) → value s ≡ value t → s ≡ t
value_injective s t e = cc ((server_state_iff (value s) t).1 e, server_state-value s)

-- The members without a next state that a reset does not leave either.
abbrev pub IsTerminal : ServerState → Type 0
IsTerminal s = (s ≡ frozen) ⊎ (s ≡ cleanup_complete)

early : (s : ServerState) → IsTerminal s → stage s < 26 → ⊥
early s (inl f) lt = omega (arith, ap stage f)
early s (inr f) lt = omega (arith, ap stage f)

no_move :
    (s : ServerState) (from to : String) (job_type : Option String)
    → IsTerminal s
    → from ≡ value s
    → Legal from to job_type
    → ⊥
unfolding value
no_move s from to job_type h e (inl n) =
    early s h
      (subst (λ t. stage t < 26) (sym (value_injective s n.from (sym e ∙ n.from_named))) n.edge.0)
no_move s from to job_type (inl f) e (inr (g, rest, last)) =
    cc (f, value_injective s failed (sym e ∙ g))
no_move s from to job_type (inr f) e (inr (g, rest, last)) =
    cc (f, value_injective s failed (sym e ∙ g))

life-snoc :
    (key state : String) (rows : List Server) (r : Server)
    → life (find_server key rows) ≡ some state
    → life (find_server key (snoc rows r)) ≡ some state
life-snoc key state rows r h = rw (find-snoc key rows r) (by_row (find_server key rows) h)
  where
    by_row :
        (o : Option Server)
        → life o ≡ some state
        → life (if is_some o then o else if r.server_id == key then some r else none) ≡ some state
    by_row none e = cc
    by_row (some q) e = e

pub same_state :
    (id key from state : String) (db : Db)
    → life (find_server id db.servers) ≡ some from
    → life (find_server key db.servers) ≡ some state
    → id ≡ key
    → from ≡ state
same_state id key from state db found h e =
    cc (found, h, ap (λ k. life (find_server k db.servers)) e)

-- A server in a terminal state stays there.
pub Change-IsTerminal :
    (s : ServerState) (key : String) {db db' : Db}
    → IsTerminal s
    → Change db db'
    → life (find_server key db.servers) ≡ some (value s)
    → life (find_server key db'.servers) ≡ some (value s)
Change-IsTerminal s key {db} terminal
      (move id from to by job_id job_type metadata found legal reached e) h =
    rw (ap (λ (d : Db). life (find_server key d.servers)) e) (
      rw (life-moved id key from to by job_id job_type metadata db found)
        (elim (Bool-cases (id == key)) [
          | inl t ↦ absurd (
              no_move s from to job_type terminal
                (same_state id key from (value s) db found h ((eq_iff id key).0 t)) legal)
          | inr t ↦ rw t h
        ]))
Change-IsTerminal s key {db} terminal (enrol r absent p es eh) h =
    rw es (life-snoc key (value s) db.servers r h)
Change-IsTerminal s key terminal (keep lives eh) h = lives key ∙ h
