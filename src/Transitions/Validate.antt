-- ===== src/Transitions/Validate.antt =====
-- What the validator accepts, stated by the diagram.
use migration_orchestrator_k.Prelude.{
  String, ◌≡◌, ◌↔◌, ◌⊎◌, inl, inr, refl, Bool, true, false, Option, none, some, if◌then◌else◌,
}
use migration_orchestrator_k.Exec.{Exc, ok, err, invalid_transition}
use migration_orchestrator_k.States.{ServerState, value, server_state}
use migration_orchestrator_k.States.Values.{server_state-value, server_state_iff}
use migration_orchestrator_k.Transitions.{allows?, validate}
use migration_orchestrator_k.Transitions.Diagram.{Edge, allows_iff}

-- Two texts name the ends of an edge.
pub record NamesEdge (from_state to_state : String) : Type 0 where
  pub from : ServerState
  pub to : ServerState
  pub from_named : from_state ≡ value from
  pub to_named : to_state ≡ value to
  pub edge : Edge from to

pub names_edge :
    (f t : String) (from to : Option ServerState)
    → server_state f ≡ from
    → server_state t ≡ to
    → allows? from to ≡ true
    → NamesEdge f t
unfolding allows?
names_edge f t none to hf ht h = cc
names_edge f t (some s) none hf ht h = cc
names_edge f t (some s) (some s') hf ht h = record {
  from = s;
  to = s';
  from_named = (server_state_iff f s).0 hf;
  to_named = (server_state_iff t s').0 ht;
  edge = (allows_iff s s').0 h;
}

pub allows-value :
    (s t : ServerState)
    → Edge s t
    → allows? (server_state (value s)) (server_state (value t)) ≡ true
unfolding allows?
allows-value s t e = rw (server_state-value s, server_state-value t) ((allows_iff s t).1 e)

if_ok :
    (b : Bool) (id f t : String)
    → (if b then ok tt else err (invalid_transition id f t)) ≡ ok (tt {0})
    → b ≡ true
if_ok true id f t h = refl
if_ok false id f t h = cc

test_cases :
    (b : Bool) (e : Exc) → let r = (if b then ok (tt {0}) else err e) in (r ≡ ok tt) ⊎ (r ≡ err e)
test_cases true e = inl refl
test_cases false e = inr refl

-- A refusal names the server and both states.
pub validate_cases :
    (server_id from_state to_state : String)
    → (validate server_id from_state to_state ≡ ok tt)
      ⊎ (validate server_id from_state to_state
          ≡ err (invalid_transition server_id from_state to_state))
unfolding validate
validate_cases id f t =
    test_cases (allows? (server_state f) (server_state t)) (invalid_transition id f t)

-- `validate` accepts exactly the moves of the diagram, between texts that name states.
pub validate_iff :
    (server_id from_state to_state : String)
    → (validate server_id from_state to_state ≡ ok tt) ↔ NamesEdge from_state to_state
unfolding validate
validate_iff id f t = (
  λ h.
      names_edge f t (server_state f) (server_state t) refl refl
        (if_ok (allows? (server_state f) (server_state t)) id f t h),
  λ n. rw (n.from_named, n.to_named, allows-value n.from n.to n.edge),
)
