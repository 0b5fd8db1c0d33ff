-- ===== src/Transitions/Diagram.antt =====
-- The pipeline that the transition map draws, stated without the map: 27 stages in a row, and two
-- error states that every stage but the last may fall into.
use migration_orchestrator_k.Prelude.{
  ℕ, suc, ◌+◌, ◌<◌, ◌≡◌, ◌↔◌, ◌⊎◌, inl, inr, refl, sym, ◌∙◌, Bool, true, false, not, arith, ◌&&◌,
  ◌||◌, ltb, num_eq, Bool-cases,
}
use migration_orchestrator_k.States.{
  ServerState, pending, agent_installed, replication_configured, awaiting_replication_approval,
  replication_started, ready_for_testing, test_launch_template_configured,
  awaiting_test_launch_approval, test_instance_launching, test_instance_running,
  awaiting_test_validation, test_finalized, cutover_launch_template_configured,
  awaiting_cutover_launch_approval, cutover_started, cutover_sync_in_progress,
  ready_for_cutover_launch, cutover_instance_launching, cutover_instance_running,
  awaiting_cutover_validation, cutover_finalized, disconnecting, disconnected,
  awaiting_archive_approval, archived, awaiting_cleanup_approval, cleanup_complete, failed, frozen,
}
use migration_orchestrator_k.States.Values.{all_states, all_states_sound}
use migration_orchestrator_k.Transitions.{allows}

-- How far along the pipeline a state is; the error states are past its end.
abbrev pub stage : ServerState → ℕ
stage pending = 0
stage agent_installed = 1
stage replication_configured = 2
stage awaiting_replication_approval = 3
stage replication_started = 4
stage ready_for_testing = 5
stage test_launch_template_configured = 6
stage awaiting_test_launch_approval = 7
stage test_instance_launching = 8
stage test_instance_running = 9
stage awaiting_test_validation = 10
stage test_finalized = 11
stage cutover_launch_template_configured = 12
stage awaiting_cutover_launch_approval = 13
stage cutover_started = 14
stage cutover_sync_in_progress = 15
stage ready_for_cutover_launch = 16
stage cutover_instance_launching = 17
stage cutover_instance_running = 18
stage awaiting_cutover_validation = 19
stage cutover_finalized = 20
stage disconnecting = 21
stage disconnected = 22
stage awaiting_archive_approval = 23
stage archived = 24
stage awaiting_cleanup_approval = 25
stage cleanup_complete = 26
stage failed = 28
stage frozen = 28

-- One move of a server: a stage forward, or from a stage that is not the last into an error state.
abbrev pub Edge : ServerState → ServerState → Type 0
Edge s t = (stage s < 26) × ((stage t ≡ stage s + 1) ⊎ (t ≡ failed) ⊎ (t ≡ frozen))

-- The same as a test.
into_error : ServerState → Bool
into_error failed = true
into_error frozen = true
into_error _ = false

pub edge? : ServerState → ServerState → Bool
unfolding into_error
edge? s t = ltb (stage s) 26 && (num_eq (stage t) (suc (stage s)) || into_error t)

into_error_sound : (t : ServerState) → into_error t ≡ true → (t ≡ failed) ⊎ (t ≡ frozen)
unfolding into_error
into_error_sound pending h = cc
into_error_sound failed h = inl refl
into_error_sound frozen h = inr refl
into_error_sound _ h = cc

into_error_complete : (t : ServerState) → (t ≡ failed) ⊎ (t ≡ frozen) → into_error t ≡ true
unfolding into_error
into_error_complete t h = ground arith

pub edge→Edge : (s t : ServerState) → edge? s t ≡ true → Edge s t
unfolding edge?
edge→Edge s t h = elim (Bool-cases (into_error t)) [
  | inl e ↦ (ground arith, inr (into_error_sound t e))
  | inr e ↦ (ground arith, inl (ground arith))
]

pub Edge→edge : (s t : ServerState) → Edge s t → edge? s t ≡ true
unfolding edge?
Edge→edge s t (early, inl e) = rw e (ground arith)
Edge→edge s t (early, inr e) = rw (into_error_complete t e) (ground arith)

agree : Bool → Bool → Bool
agree true b = b
agree false b = not b

agree_sound : (a b : Bool) → agree a b ≡ true → a ≡ b
unfolding agree
agree_sound true true h = refl
agree_sound true false h = cc
agree_sound false true h = cc
agree_sound false false h = refl

-- The map and the diagram agree on each of the 29 × 29 pairs.
table : all_states (λ s. all_states (λ t. agree (allows s t) (edge? s t))) ≡ true
unfolding all_states allows edge? agree
table = refl

pub allows-eq-edge : (s t : ServerState) → allows s t ≡ edge? s t
allows-eq-edge s t = agree_sound _ _ (
    all_states_sound (λ t. agree (allows s t) (edge? s t)) t
      (all_states_sound (λ s. all_states (λ t. agree (allows s t) (edge? s t))) s table))

pub allows_iff : (s t : ServerState) → (allows s t ≡ true) ↔ Edge s t
allows_iff s t =
    (λ h. edge→Edge s t (sym (allows-eq-edge s t) ∙ h), λ e. allows-eq-edge s t ∙ Edge→edge s t e)
