-- ===== src/System/Run.antt =====
-- The system as a sequence of steps: the API serves a request, or a worker takes the first message
-- of its queue. A message that is acknowledged is gone; one that is rejected goes to the
-- dead-letter queue, from which the rollback worker reads.
use migration_orchestrator_k.Prelude.{ℕ, List, [], ◌∷◌, snoc, Bool, refl}
use migration_orchestrator_k.Exec.{Result, ok}
use migration_orchestrator_k.Jobs.{Message}
use migration_orchestrator_k.Db.{Db}
use migration_orchestrator_k.StateManager.Change.{Change}
use migration_orchestrator_k.StateManager.Unattended.{Unattended, Unattended-Change, keep}
use migration_orchestrator_k.Services.{Services}
use migration_orchestrator_k.World.{World}
use migration_orchestrator_k.Mgn.Results.{Verdict, nack}
use migration_orchestrator_k.Mgn.Loop as MgnLoop
use migration_orchestrator_k.Poller.Loop as PollerLoop
use migration_orchestrator_k.Rollback
use migration_orchestrator_k.System.Requests.{Request, serve}
use migration_orchestrator_k.System.Mgn
use migration_orchestrator_k.System.Poller
use migration_orchestrator_k.System.Rollback as Undo
use migration_orchestrator_k.System.Serve.{serve-Holds}

pub data Event (S : Type 0) : Type 0 where
  -- the clock of the database shows another time
  clock : ℕ → Event S
  -- something changes outside, or the API's channel opens or closes
  elsewhere : S → Bool → Event S
  request : Request → Event S
  mgn_turn poll_turn : Event S
  rollback_mgn_turn rollback_poll_turn : Event S

-- Nobody asks for anything: the clock, the outside and the workers only.
abbrev pub IsAutomatic : {S : Type 0} → Event S → Type 0
IsAutomatic (request r) = ⊥
IsAutomatic _ = Unit

abbrev pub AllAutomatic : {S : Type 0} → List (Event S) → Type 0
AllAutomatic [] = Unit
AllAutomatic (e ∷ rest) = IsAutomatic e × AllAutomatic rest

-- What a verdict does to a dead-letter queue.
abbrev pub dead_letter : Result Verdict → Message → List Message → List Message
dead_letter (ok nack) m failed = snoc failed m
dead_letter _ m failed = failed

module _ {S : Type 0} (aws : Services S) where
  abbrev pub take_mgn : List Message → World S → World S
  take_mgn [] w = w
  take_mgn (m ∷ rest) w =
      let (verdict, w') = MgnLoop.on_message aws m (record w { mgn_jobs = rest }) in
      record w' { mgn_jobs_failed = dead_letter verdict m w'.mgn_jobs_failed }

  abbrev pub take_poll : List Message → World S → World S
  take_poll [] w = w
  take_poll (m ∷ rest) w =
      let (verdict, w') = PollerLoop.on_message aws m (record w { poll_jobs = rest }) in
      record w' { poll_jobs_failed = dead_letter verdict m w'.poll_jobs_failed }

  abbrev pub take_mgn_failed : List Message → World S → World S
  take_mgn_failed [] w = w
  take_mgn_failed (m ∷ rest) w = (Rollback.on_message aws m (record w { mgn_jobs_failed = rest })).1

  abbrev pub take_poll_failed : List Message → World S → World S
  take_poll_failed [] w = w
  take_poll_failed (m ∷ rest) w =
      (Rollback.on_message aws m (record w { poll_jobs_failed = rest })).1

  unfoldable pub step : Event S → World S → World S
  step (clock now) w = record w { db = record w.db { now = now } }
  step (elsewhere s is_open) w = record w { outside = s; connected = is_open }
  step (request r) w = serve aws r w
  step mgn_turn w = take_mgn w.mgn_jobs w
  step poll_turn w = take_poll w.poll_jobs w
  step rollback_mgn_turn w = take_mgn_failed w.mgn_jobs_failed w
  step rollback_poll_turn w = take_poll_failed w.poll_jobs_failed w

  -- Any interleaving of the parts.
  unfoldable pub run : List (Event S) → World S → World S
  unfolding step
  run [] w = w
  run (e ∷ rest) w = run rest (step e w)

  module _ (P : Db → Type 0) (closed : (db db' : Db) → Unattended db db' → P db → P db') where
    take_mgn-Holds : (ms : List Message) (w : World S) → P w.db → P (take_mgn ms w).db
    take_mgn-Holds [] w h = h
    take_mgn-Holds (m ∷ rest) w h =
        (Mgn.on_message-Keeps aws P closed m).holds (record w { mgn_jobs = rest }) h

    take_poll-Holds : (ms : List Message) (w : World S) → P w.db → P (take_poll ms w).db
    take_poll-Holds [] w h = h
    take_poll-Holds (m ∷ rest) w h =
        (Poller.on_message-Keeps aws P closed m).holds (record w { poll_jobs = rest }) h

    take_mgn_failed-Holds : (ms : List Message) (w : World S) → P w.db → P (take_mgn_failed ms w).db
    take_mgn_failed-Holds [] w h = h
    take_mgn_failed-Holds (m ∷ rest) w h =
        (Undo.on_message-Keeps aws P closed m).holds (record w { mgn_jobs_failed = rest }) h

    take_poll_failed-Holds :
        (ms : List Message) (w : World S) → P w.db → P (take_poll_failed ms w).db
    take_poll_failed-Holds [] w h = h
    take_poll_failed-Holds (m ∷ rest) w h =
        (Undo.on_message-Keeps aws P closed m).holds (record w { poll_jobs_failed = rest }) h

    automatic-Holds : (e : Event S) (w : World S) → IsAutomatic e → P w.db → P (step e w).db
    unfolding step
    automatic-Holds (clock now) w a h =
        closed w.db (record w.db { now = now }) (keep (λ id. refl) refl) h
    automatic-Holds (elsewhere s is_open) w a h = h
    automatic-Holds (request r) w a h = absurd a
    automatic-Holds mgn_turn w a h = take_mgn-Holds w.mgn_jobs w h
    automatic-Holds poll_turn w a h = take_poll-Holds w.poll_jobs w h
    automatic-Holds rollback_mgn_turn w a h = take_mgn_failed-Holds w.mgn_jobs_failed w h
    automatic-Holds rollback_poll_turn w a h = take_poll_failed-Holds w.poll_jobs_failed w h

    -- What the workers' changes of the tables keep holds after any run without requests.
    pub unattended-Holds :
        (es : List (Event S)) (w : World S) → AllAutomatic es → P w.db → P (run es w).db
    unfolding run
    unattended-Holds [] w a h = h
    unattended-Holds (e ∷ rest) w (a, more) h =
        unattended-Holds rest (step e w) more (automatic-Holds e w a h)

  module _ (P : Db → Type 0) (closed : (db db' : Db) → Change db db' → P db → P db') where
    step-Holds : (e : Event S) (w : World S) → P w.db → P (step e w).db
    unfolding step
    step-Holds (request r) w h = serve-Holds aws P closed r w h
    step-Holds e w h = automatic-Holds P (λ db db' u. closed db db' (Unattended-Change u)) e w tt h

    -- What the changes of the tables keep holds after any run.
    pub run-Holds : (es : List (Event S)) (w : World S) → P w.db → P (run es w).db
    unfolding run
    run-Holds [] w h = h
    run-Holds (e ∷ rest) w h = run-Holds rest (step e w) (step-Holds e w h)
