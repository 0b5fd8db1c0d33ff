-- ===== src/System/Load/Rounds.antt =====
-- Rounds of turns that empty the queues.
use migration_orchestrator_k.Prelude.{
  ℕ, ◌≤◌, ◌<◌, ◌≡◌, ◌⊎◌, inl, inr, refl, sym, ◌∙◌, ap, subst, List, [], ◌∷◌, ◌++◌, arith, length,
}
use mathlib.Core.List.{Memᴰ, flatten}
use mathlib.Core.List.Memᴰ
use migration_orchestrator_k.Jobs.{Message}
use migration_orchestrator_k.Services.{Services}
use migration_orchestrator_k.World.{World}
use migration_orchestrator_k.System.Run
use migration_orchestrator_k.System.Run.{Event, AllAutomatic, step, run}
use migration_orchestrator_k.System.Load.{load, total, message_cost, mgn_cost, poll_cost}
use migration_orchestrator_k.System.Load.Rest.{pending, took, rested, step-Turned, run_bounded}

module _ {S : Type 0} where
  -- No message waits for a worker.
  abbrev pub IsDrained : World S → Type 0
  IsDrained w =
      (w.mgn_jobs ≡ []) × (w.poll_jobs ≡ []) × (w.mgn_jobs_failed ≡ []) × (w.poll_jobs_failed ≡ [])

  -- Each worker gets a turn, in any order; the clock may move and the outside may change between.
  pub record Round (events : List (Event S)) : Type 0 where
    pub automatic : AllAutomatic events
    pub mgn : Memᴰ Run.mgn_turn events
    pub poll : Memᴰ Run.poll_turn events
    pub rollback_mgn : Memᴰ Run.rollback_mgn_turn events
    pub rollback_poll : Memᴰ Run.rollback_poll_turn events

  abbrev pub AllRounds : List (List (Event S)) → Type 0
  AllRounds [] = Unit
  AllRounds (r ∷ rest) = Round r × AllRounds rest

  pub drained-load : (w : World S) → IsDrained w → load w ≡ 0
  unfolding load
  drained-load w (a, b, c, d) = rw (a, b, c, d) refl

total_zero : (cost : Message → ℕ) (ms : List Message) → total cost ms ≡ 0 → ms ≡ []
total_zero cost [] e = refl
total_zero cost (m ∷ ms) e = absurd (omega (arith, e))

length_zero : (ms : List Message) → length ms ≡ 0 → ms ≡ []
length_zero [] e = refl
length_zero (m ∷ ms) e = absurd (omega (arith, e))

load-IsDrained : {S : Type 0} (w : World S) → load w ≡ 0 → IsDrained w
unfolding load
load-IsDrained w e = (
  total_zero (message_cost mgn_cost) w.mgn_jobs (omega (arith, e)),
  total_zero (message_cost poll_cost) w.poll_jobs (omega (arith, e)),
  length_zero w.mgn_jobs_failed (omega (arith, e)),
  length_zero w.poll_jobs_failed (omega (arith, e)),
)

module _ {S : Type 0} (aws : Services S) where
  never_more :
      (events : List (Event S)) (w : World S)
      → AllAutomatic events
      → load (run aws events w) ≤ load w
  never_more events w a = omega (arith, run_bounded aws events w a)

  -- A run lowers the load, or finds no message for any of its turns.
  lowers_or_idle :
      (events : List (Event S)) (w : World S)
      → AllAutomatic events
      → (load (run aws events w) < load w) ⊎ ((e : Event S) → Memᴰ e events → pending e w ≡ [])
  unfolding run
  lowers_or_idle [] w a = inr (λ e m. absurd (Memᴰ.not-nil m))
  lowers_or_idle (e ∷ rest) w (a, more) = elim (step-Turned aws e w a) [
    | took one less ↦ inl (omega (arith, less, never_more rest (step aws e w) more))
    | rested none kept same ↦ elim (lowers_or_idle rest (step aws e w) more) [
      | inl less ↦ inl (omega (arith, less, kept))
      | inr idle ↦ inr λ e' m. elim (Memᴰ.cases_cons m) [
        | inl h ↦ ap (λ x. pending x w) h ∙ none
        | inr m' ↦ sym (same e') ∙ idle e' m'
      ]
    ]
  ]

  round_lowers :
      (r : List (Event S)) (w : World S) → Round r → (load (run aws r w) < load w) ⊎ IsDrained w
  round_lowers r w round = elim (lowers_or_idle r w round.automatic) [
    | inl less ↦ inl less
    | inr idle ↦ inr (
      idle Run.mgn_turn round.mgn,
      idle Run.poll_turn round.poll,
      idle Run.rollback_mgn_turn round.rollback_mgn,
      idle Run.rollback_poll_turn round.rollback_poll,
    )
  ]

  run-append :
      (first next : List (Event S)) (w : World S)
      → run aws (first ++ next) w ≡ run aws next (run aws first w)
  unfolding run
  run-append [] next w = refl
  run-append (e ∷ first) next w = run-append first next (step aws e w)

  -- Once every worker has had at least as many rounds of turns as the load of the start, without a
  -- request, no message waits in mgn_jobs, in poll_jobs or in their dead-letter queues, whatever the
  -- outside answers.
  pub run-IsDrained :
      (rounds : List (List (Event S))) (w : World S)
      → AllRounds rounds
      → load w ≤ length rounds
      → IsDrained (run aws (flatten rounds) w)
  unfolding run flatten
  run-IsDrained [] w all enough = load-IsDrained w (omega (arith, enough))
  run-IsDrained (r ∷ rounds) w (round, all) enough =
      subst IsDrained (sym (run-append r (flatten rounds) w)) (
        run-IsDrained rounds (run aws r w) all (elim (round_lowers r w round) [
          | inl less ↦ omega (arith, less, enough)
          | inr done ↦ omega (arith, drained-load w done, never_more r w round.automatic)
        ]))
