-- ===== src/StateManager/Pipeline.antt =====
-- No stage of the pipeline is skipped: what the audit trail of a server says of the stages that
-- come before its state.
use migration_orchestrator_k.Prelude.{
  String, ◌≡◌, ◌≢◌, ◌⊎◌, inl, inr, refl, sym, ◌∙◌, ap, subst, ◌+◌, ◌<◌, ◌≤◌, Bool, true, not, List,
  snoc, Bool-cases, ◌==◌, ◌&&◌, ◌||◌, eq_iff, arith, num_eq, leb,
}
use migration_orchestrator_k.States.{ServerState, value, pending, failed, frozen}
use migration_orchestrator_k.States.Values.{all_states, all_states_sound}
use migration_orchestrator_k.Transitions.Validate.{NamesEdge}
use migration_orchestrator_k.Transitions.Diagram.{stage}
use migration_orchestrator_k.Db.{Transition}
use migration_orchestrator_k.StateManager.Audit.{Trail, registered, own, other}
use migration_orchestrator_k.StateManager.Frozen.{value_injective}

-- The history holds a record by which server `id` reached state `k`, and no record after it sends
-- the server back to PENDING.
pub data Recorded (id : String) (k : ServerState) : List Transition → Type 0 where
  latest :
      (history : List Transition) (t : Transition)
      → t.server_id ≡ id
      → t.to_state ≡ value k
      → Recorded id k (snoc history t)
  earlier :
      (history : List Transition) (t : Transition)
      → Recorded id k history
      → (t.server_id ≡ id → t.to_state ≢ "PENDING")
      → Recorded id k (snoc history t)

-- The stages up to the last one are different.
distinct : ServerState → ServerState → Bool
distinct s t = not (num_eq (stage s) (stage t) && leb (stage s) 26) || value s == value t

distinct_table : all_states (λ s. all_states (λ t. distinct s t)) ≡ true
unfolding all_states distinct value
distinct_table = refl

pub stage_injective : (s t : ServerState) → stage s ≡ stage t → stage s ≤ 26 → s ≡ t
unfolding distinct
stage_injective s t e late = value_injective s t (
    (eq_iff (value s) (value t)).0 (
      ground (
        arith,
        all_states_sound (λ t. distinct s t) t
            (all_states_sound (λ s. all_states (λ t. distinct s t)) s distinct_table),
      )))

from_pending : (s : ServerState) → value s ≡ "PENDING" → stage s ≡ 0
unfolding value
from_pending s e = ap stage (value_injective s pending e)

module _ (id : String) (s k : ServerState) (history : List Transition) (t : Transition)
    (mine : t.server_id ≡ id) (n : NamesEdge t.from_state t.to_state) (e : t.to_state ≡ value s)
    (late : stage s ≤ 26) (below : stage k ≤ stage s) where
  reached : n.to ≡ s
  reached = value_injective n.to s (sym n.to_named ∙ e)

  not_error : (s : ServerState) → (s ≡ failed) ⊎ (s ≡ frozen) → stage s ≤ 26 → ⊥
  not_error s (inl f) le = omega (arith, ap stage f)
  not_error s (inr f) le = omega (arith, ap stage f)

  next_stage : stage s ≡ stage n.from + 1
  next_stage = elim n.edge.1 [
    | inl f ↦ ap stage (sym reached) ∙ f
    | inr f ↦ absurd (not_error n.to f (subst (λ q. stage q ≤ 26) (sym reached) late))
  ]

  not_reset : t.to_state ≢ "PENDING"
  not_reset p = omega (arith, next_stage, from_pending s (sym e ∙ p))

  by_edge : (stage k ≤ stage n.from → Recorded id k history) → Recorded id k (snoc history t)
  by_edge before = elim (Bool-cases (leb (stage k) (stage n.from))) [
    | inl b ↦ earlier history t (before (ground arith)) (λ m. not_reset)
    | inr b ↦
        latest history t mine
          (e ∙ ap value (sym (stage_injective k s (ground (arith, next_stage)) (ground arith))))
  ]

pub Trail-Recorded :
    (id : String) {history : List Transition} {state : String} (s k : ServerState)
    → Trail id history state
    → state ≡ value s
    → stage s ≤ 26
    → 0 < stage k
    → stage k ≤ stage s
    → Recorded id k history
Trail-Recorded id s k registered e late past below = absurd (omega (arith, from_pending s (sym e)))
Trail-Recorded id s k (own {history} t trail mine from (inl n)) e late past below =
    by_edge id s k history t mine n e late below λ before.
      Trail-Recorded id n.from k trail (sym from ∙ n.from_named)
        (omega (arith, next_stage id s k history t mine n e late below)) past before
Trail-Recorded id s k (own t trail mine from (inr (f, to, j))) e late past below =
    absurd (omega (arith, from_pending s (sym e ∙ to)))
Trail-Recorded id s k (other {history} t trail another) e late past below =
    earlier history t (Trail-Recorded id s k trail e late past below)
      (λ mine. cc (another, (eq_iff t.server_id id).1 mine))
