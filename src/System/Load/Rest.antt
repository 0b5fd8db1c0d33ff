-- ===== src/System/Load/Rest.antt =====
-- The workers come to rest: a bound on the turns that they take.
use migration_orchestrator_k.Prelude.{ℕ, ◌+◌, ◌≤◌, ◌<◌, ◌≡◌, refl, ap, List, [], ◌∷◌, arith}
use migration_orchestrator_k.Jobs.{Message}
use migration_orchestrator_k.Services.{Services}
use migration_orchestrator_k.World.{World}
use migration_orchestrator_k.System.Run
use migration_orchestrator_k.System.Run.{
  Event, AllAutomatic, IsAutomatic, step, run, take_mgn, take_poll, take_mgn_failed,
  take_poll_failed,
}
use migration_orchestrator_k.System.Load.{load}
use migration_orchestrator_k.System.Load.Turns.{
  mgn_lowers, poll_lowers, mgn_failed_lowers, poll_failed_lowers,
}

-- 1 for a turn that takes a message.
abbrev pub one_if_any : List Message → ℕ
one_if_any [] = 0
one_if_any (m ∷ rest) = 1

module _ {S : Type 0} where
  -- The queue that a turn reads.
  abbrev pub pending : Event S → World S → List Message
  pending Run.mgn_turn w = w.mgn_jobs
  pending Run.poll_turn w = w.poll_jobs
  pending Run.rollback_mgn_turn w = w.mgn_jobs_failed
  pending Run.rollback_poll_turn w = w.poll_jobs_failed
  pending _ w = []

module _ {S : Type 0} (aws : Services S) where
  -- The turns of a run that take a message.
  unfoldable pub turns_taken : List (Event S) → World S → ℕ
  turns_taken [] w = 0
  turns_taken (e ∷ rest) w = one_if_any (pending e w) + turns_taken rest (step aws e w)

  -- A turn that finds no message leaves the queues as they were.
  abbrev pub Same : World S → World S → Type 0
  Same w w' = (e : Event S) → pending e w' ≡ pending e w

  -- What an event without a request does to the load.
  pub data Turned (e : Event S) (w w' : World S) : Type 0 where
    took : one_if_any (pending e w) ≡ 1 → load w' < load w → Turned e w w'
    rested : pending e w ≡ [] → load w' ≡ load w → Same w w' → Turned e w w'

  mgn_Turned :
      (w : World S) (ms : List Message)
      → w.mgn_jobs ≡ ms
      → Turned Run.mgn_turn w (take_mgn aws ms w)
  mgn_Turned w [] q = rested q refl (λ e. refl)
  mgn_Turned w (m ∷ rest) q = took (ap one_if_any q) (mgn_lowers aws w m rest q)

  poll_Turned :
      (w : World S) (ms : List Message)
      → w.poll_jobs ≡ ms
      → Turned Run.poll_turn w (take_poll aws ms w)
  poll_Turned w [] q = rested q refl (λ e. refl)
  poll_Turned w (m ∷ rest) q = took (ap one_if_any q) (poll_lowers aws w m rest q)

  mgn_failed_Turned :
      (w : World S) (ms : List Message)
      → w.mgn_jobs_failed ≡ ms
      → Turned Run.rollback_mgn_turn w (take_mgn_failed aws ms w)
  mgn_failed_Turned w [] q = rested q refl (λ e. refl)
  mgn_failed_Turned w (m ∷ rest) q = took (ap one_if_any q) (mgn_failed_lowers aws w m rest q)

  poll_failed_Turned :
      (w : World S) (ms : List Message)
      → w.poll_jobs_failed ≡ ms
      → Turned Run.rollback_poll_turn w (take_poll_failed aws ms w)
  poll_failed_Turned w [] q = rested q refl (λ e. refl)
  poll_failed_Turned w (m ∷ rest) q = took (ap one_if_any q) (poll_failed_lowers aws w m rest q)

  queues-Same :
      (w w' : World S)
      → w'.mgn_jobs ≡ w.mgn_jobs
      → w'.poll_jobs ≡ w.poll_jobs
      → w'.mgn_jobs_failed ≡ w.mgn_jobs_failed
      → w'.poll_jobs_failed ≡ w.poll_jobs_failed
      → Same w w'
  queues-Same w w' a b c d Run.mgn_turn = a
  queues-Same w w' a b c d Run.poll_turn = b
  queues-Same w w' a b c d Run.rollback_mgn_turn = c
  queues-Same w w' a b c d Run.rollback_poll_turn = d
  queues-Same w w' a b c d _ = refl

  pub step-Turned : (e : Event S) (w : World S) → IsAutomatic e → Turned e w (step aws e w)
  unfolding step load
  step-Turned (Run.clock now) w a =
      rested refl refl
        (queues-Same w (record w { db = record w.db { now = now } }) refl refl refl refl)
  step-Turned (Run.elsewhere s is_open) w a =
      rested refl refl
        (queues-Same w (record w { outside = s; connected = is_open }) refl refl refl refl)
  step-Turned (Run.request r) w a = absurd a
  step-Turned Run.mgn_turn w a = mgn_Turned w w.mgn_jobs refl
  step-Turned Run.poll_turn w a = poll_Turned w w.poll_jobs refl
  step-Turned Run.rollback_mgn_turn w a = mgn_failed_Turned w w.mgn_jobs_failed refl
  step-Turned Run.rollback_poll_turn w a = poll_failed_Turned w w.poll_jobs_failed refl

  taken_step :
      (e : Event S) (w w' : World S) → Turned e w w' → one_if_any (pending e w) + load w' ≤ load w
  taken_step e w w' (took one less) = omega (arith, one, less)
  taken_step e w w' (rested none same queues) = omega (arith, ap one_if_any none, same)

  -- Without requests, the turns that take a message and what is left to do are together at most the
  -- load of the start, in any interleaving of the workers with the clock and the outside.
  pub run_bounded :
      (events : List (Event S)) (w : World S)
      → AllAutomatic events
      → turns_taken events w + load (run aws events w) ≤ load w
  unfolding run turns_taken
  run_bounded [] w a = omega arith
  run_bounded (e ∷ rest) w (a, more) = omega (
    arith,
    taken_step e w (step aws e w) (step-Turned e w a),
    run_bounded rest (step aws e w) more,
  )
