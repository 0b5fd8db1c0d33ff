-- ===== src/System/Outage/Quiet.antt =====
-- The two workers while AWS is down.
use migration_orchestrator_k.Prelude.{◌≡◌, refl, ap}
use migration_orchestrator_k.Jobs.{Message}
use migration_orchestrator_k.Services.{Services}
use migration_orchestrator_k.World.{World}
use migration_orchestrator_k.Mgn.Loop as MgnLoop
use migration_orchestrator_k.Poller.Loop as PollerLoop
use migration_orchestrator_k.System.Outage.{IsDown}
use migration_orchestrator_k.System.Outage.Mgn
use migration_orchestrator_k.System.Outage.Poller

-- The tables, the queues and the channel are as before; only the outside may differ.
abbrev pub Untouched : {S : Type 0} → World S → World S → Type 0
Untouched w w' = w' ≡ record w { outside = w'.outside }

module _ {S : Type 0} (aws : Services S) (down : IsDown aws) (m : Message) (w : World S) where
  still : (w' : World S) (s : S) → Untouched w w' → Untouched w (record w' { outside = s })
  still w' s h = ap (λ (x : World S). record x { outside = s }) h

  -- While every call of AWS raises, a message to the MGN worker and a message to the poller worker
  -- change no table and no queue, whatever the message.
  pub on_message-Untouched :
      Untouched w (MgnLoop.on_message aws m w).1 × Untouched w (PollerLoop.on_message aws m w).1
  on_message-Untouched = (
    (Mgn.on_message-Keeps aws down (Untouched w) still m).holds w refl,
    (Poller.on_message-Keeps aws down (Untouched w) still m).holds w refl,
  )
