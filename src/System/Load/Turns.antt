-- ===== src/System/Load/Turns.antt =====
-- The workers come to rest: every turn on a message lowers the load, so that without requests the
-- queues run empty.
use migration_orchestrator_k.Prelude.{◌+◌, ◌≤◌, ◌<◌, ◌≡◌, ap, List, ◌∷◌, arith, length, length-snoc}
use migration_orchestrator_k.Exec.{Result, ok, err}
use migration_orchestrator_k.Jobs.{Message}
use migration_orchestrator_k.Services.{Services}
use migration_orchestrator_k.World.{World}
use migration_orchestrator_k.Mgn.Results.{Verdict, ack, nack}
use migration_orchestrator_k.Mgn.Loop as MgnLoop
use migration_orchestrator_k.Poller.Loop as PollerLoop
use migration_orchestrator_k.System.Run.{
  dead_letter, take_mgn, take_poll, take_mgn_failed, take_poll_failed,
}
use migration_orchestrator_k.System.Load.{load, total, message_cost, mgn_cost, poll_cost}
use migration_orchestrator_k.System.Load.Mgn
use migration_orchestrator_k.System.Load.Poller
use migration_orchestrator_k.System.Load.Rollback as Undo

length-dead_letter :
    (verdict : Result Verdict) (m : Message) (failed : List Message)
    → length (dead_letter verdict m failed) ≤ length failed + 1
length-dead_letter (ok nack) m failed = omega (arith, length-snoc failed m)
length-dead_letter (ok ack) m failed = omega arith
length-dead_letter (err e) m failed = omega arith

module _ {S : Type 0} (aws : Services S) where
  pub mgn_lowers :
      (w : World S) (m : Message) (rest : List Message)
      → w.mgn_jobs ≡ m ∷ rest
      → load (take_mgn aws (m ∷ rest) w) < load w
  unfolding load
  mgn_lowers w m rest e =
      let out = MgnLoop.on_message aws m (record w { mgn_jobs = rest }) in
      omega (
        arith,
        ap (total (message_cost mgn_cost)) e,
        (Mgn.on_message-Costs aws m).bounded (record w { mgn_jobs = rest }),
        length-dead_letter out.0 m out.1.mgn_jobs_failed,
      )

  pub poll_lowers :
      (w : World S) (m : Message) (rest : List Message)
      → w.poll_jobs ≡ m ∷ rest
      → load (take_poll aws (m ∷ rest) w) < load w
  unfolding load
  poll_lowers w m rest e =
      let out = PollerLoop.on_message aws m (record w { poll_jobs = rest }) in
      omega (
        arith,
        ap (total (message_cost poll_cost)) e,
        (Poller.on_message-Costs aws m).bounded (record w { poll_jobs = rest }),
        length-dead_letter out.0 m out.1.poll_jobs_failed,
      )

  pub mgn_failed_lowers :
      (w : World S) (m : Message) (rest : List Message)
      → w.mgn_jobs_failed ≡ m ∷ rest
      → load (take_mgn_failed aws (m ∷ rest) w) < load w
  unfolding load
  mgn_failed_lowers w m rest e = omega (
    arith,
    ap length e,
    (Undo.on_message-IsSilent aws m).bounded (record w { mgn_jobs_failed = rest }),
  )

  pub poll_failed_lowers :
      (w : World S) (m : Message) (rest : List Message)
      → w.poll_jobs_failed ≡ m ∷ rest
      → load (take_poll_failed aws (m ∷ rest) w) < load w
  unfolding load
  poll_failed_lowers w m rest e = omega (
    arith,
    ap length e,
    (Undo.on_message-IsSilent aws m).bounded (record w { poll_jobs_failed = rest }),
  )
